-- ===== src/Flood/Calls/Rounds.antt =====
-- middleware/floodwait/waiter.go: while the loop of `Run` goes on, every call can be answered.
use mathlib.Core.List.{Mem, mem-cons_self, mem-cons_of_mem, not-mem-nil}
use mathlib.Core.List.Perm
use mathlib.Core.Path.{subst}
use tgcontrib.Base.{
  ℕ, zero, suc, ◌+◌, ◌≤◌, ◌≡◌, refl, ◌∙◌, List, [], ◌∷◌, Option, some, arith, true,
}
use tgcontrib.Base.Int.{pos}
use tgcontrib.Flood.Queue.{Request, Scheduled}
use tgcontrib.Flood.Scheduler.{Scheduler, gather}
use tgcontrib.Flood.Waiter.{Waiter, Sent, answered, waits, panicked, send}
use tgcontrib.Flood.Waiter.Tick.{Keeps, send-Keeps}
use tgcontrib.Flood.Waiter.Retries.{AllRetries, send-AllRetries, exceeds_limit}
use tgcontrib.Base.Counts.{count}
use tgcontrib.Flood.Calls.{
  looping, Calls, ids, after_answer, send_next, Step, gathers, sends, passes, Reach, here, next,
  init,
}
use tgcontrib.Flood.Calls.Retries.{Reach-RetriesWithin}
use tgcontrib.Flood.Calls.Counts.{Inv}
use tgcontrib.Flood.Calls.Answers.{Inv-Reach, Step-Inv, Reach-Inv}
use tgcontrib.Flood.Calls.Due.{Between, Between-prop, latest, empty_of, gather_all, settled}

module _ {E W : Type 0} (as_flood_wait : E → Option ℕ) (invoke : W → Request ℕ → W × Option E)
    (wt : Waiter) (clock : W → ℕ) where
  Reach-trans :
      {s t u : Calls E W}
      → Reach as_flood_wait invoke wt clock s t
      → Reach as_flood_wait invoke wt clock t u
      → Reach as_flood_wait invoke wt clock s u
  Reach-trans r here = r
  Reach-trans r (next q st) = next (Reach-trans r q) st

  -- What a stretch of the loop leads to, which no call has entered or left.
  record Drained (lo hi : ℕ) (s : Calls E W) : Type 0 where
    end : Calls E W
    reach : Reach as_flood_wait invoke wt clock s end
    loops : end.phase ≡ looping
    drained : end.batch ≡ []
    same_waiting : end.waiting ≡ s.waiting
    same_calls : end.calls ≡ s.calls
    retries : AllRetries (Between lo hi) (Between-prop lo hi) end.scheduler.queue

  Drained-trans :
      {lo hi lo' hi' : ℕ} {s : Calls E W} (d : Drained lo hi s)
      → Drained lo' hi' d.end
      → Drained lo' hi' s
  Drained-trans d e = record {
    end = e.end;
    reach = Reach-trans d.reach e.reach;
    loops = e.loops;
    drained = e.drained;
    same_waiting = e.same_waiting ∙ d.same_waiting;
    same_calls = e.same_calls ∙ d.same_calls;
    retries = e.retries;
  }

  -- The state behind one request of the batch.
  after_answer-some :
      (s : Calls E W) (p : ℕ) (rest : List (Scheduled ℕ)) (w : W) (o : Sent E × Scheduler ℕ)
      → Keeps s.scheduler p o
      → (t : Calls E W) × (after_answer as_flood_wait invoke wt clock p rest s w o ≡ some t)
        × (t.phase ≡ s.phase)
        × (t.batch ≡ rest)
        × (t.waiting ≡ s.waiting)
        × (t.calls ≡ s.calls)
        × (t.scheduler ≡ o.1)
  unfolding after_answer
  after_answer-some s p rest w (answered a, sch) k = (_, refl, refl, refl, refl, refl, refl)
  after_answer-some s p rest w (waits, sch) k = (_, refl, refl, refl, refl, refl, refl)
  after_answer-some s p rest w (panicked, sch) k = absurd k

  drain :
      (lo m : ℕ) (l : List (Scheduled ℕ)) (s : Calls E W)
      → wt.on_wait ≡ true
      → wt.max_retries ≡ pos (suc m)
      → Inv s
      → s.phase ≡ looping
      → s.batch ≡ l
      → AllRetries (Between lo (suc m)) (Between-prop lo (suc m)) s.scheduler.queue
      → ((y : Scheduled ℕ) → Mem y l → lo ≤ y.request.retry + 1)
      → Drained lo (suc m) s
  unfolding send_next
  drain lo m [] s on lim i h k q b = record {
    end = s;
    reach = here;
    loops = h;
    drained = k;
    same_waiting = refl;
    same_calls = refl;
    retries = q;
  }
  drain lo m (y ∷ rest) s on lim i h k q b =
      let a = invoke s.world y.request in
      let o = send as_flood_wait wt (clock a.0) s.scheduler y a.1 in
      let kept = send-Keeps as_flood_wait wt (clock a.0) s.scheduler y a.1 on i.valid in
      let q' =
        send-AllRetries (Between lo (suc m)) (Between-prop lo (suc m)) as_flood_wait wt (clock a.0)
          s.scheduler y a.1 i.valid
          (λ within. (b y mem-cons_self, exceeds_limit _ m (rw lim at within))) q in
      let (t, e, ph, bt, wa, ca, sc) = after_answer-some s y.request.payload rest a.0 o kept in
      let step : Step as_flood_wait invoke wt clock s t = sends y rest h k e in
      let d =
        drain lo m rest t on lim (Step-Inv as_flood_wait invoke wt clock on step i) (ph ∙ h) bt
          (rw sc q') (λ z u. b z (mem-cons_of_mem y u)) in
      record {
        end = d.end;
        reach = Reach-trans (next here step) d.reach;
        loops = d.loops;
        drained = d.drained;
        same_waiting = d.same_waiting ∙ wa;
        same_calls = d.same_calls ∙ ca;
        retries = d.retries;
      }

  -- One round: all of the queue is due, gathered and sent.
  round :
      (lo m : ℕ) (s : Calls E W)
      → ((n : ℕ) → (w : W) × (n ≤ clock w))
      → wt.on_wait ≡ true
      → wt.max_retries ≡ pos (suc m)
      → Inv s
      → s.phase ≡ looping
      → s.batch ≡ []
      → AllRetries (Between lo (suc m)) (Between-prop lo (suc m)) s.scheduler.queue
      → Drained (suc lo) (suc m) s
  round lo m s late on lim i h k q =
      let (w, due) = late (latest s.scheduler.queue) in
      let (none_left, same) = gather_all (clock w) s.scheduler i.valid due in
      let r : Reach as_flood_wait invoke wt clock s (record s {
        world = w;
        scheduler = (gather (clock w) s.scheduler []).1;
        batch = (gather (clock w) s.scheduler []).0;
      }) =
        next (next here (passes w)) (gathers h k) in
      let d =
        drain (suc lo) m (gather (clock w) s.scheduler []).0 _ on lim
          (Inv-Reach as_flood_wait invoke wt clock on i r) h refl
          (rw none_left (λ y t. absurd (not-mem-nil t)))
          (λ y t. omega (arith, (q y ((Perm.mem_iff same).0 t)).0)) in
      record {
        end = d.end;
        reach = Reach-trans r d.reach;
        loops = d.loops;
        drained = d.drained;
        same_waiting = d.same_waiting;
        same_calls = d.same_calls;
        retries = d.retries;
      }

  rounds :
      (k lo m : ℕ) (s : Calls E W)
      → lo + k ≡ suc (suc m)
      → ((n : ℕ) → (w : W) × (n ≤ clock w))
      → wt.on_wait ≡ true
      → wt.max_retries ≡ pos (suc m)
      → Inv s
      → Drained lo (suc m) s
      → Drained (suc (suc m)) (suc m) s
  rounds zero lo m s h late on lim i d = subst (λ (n : ℕ). Drained n (suc m) s) (omega (arith, h)) d
  rounds (suc k) lo m s h late on lim i d =
      let r =
        round lo m d.end late on lim (Inv-Reach as_flood_wait invoke wt clock on i d.reach) d.loops
          d.drained d.retries in
      rounds k (suc lo) m s (omega (arith, h)) late on lim i (Drained-trans d r)

  -- For a waiter with a callback and a positive limit of retries, where time passes: from every
  -- state that such steps lead to and in which the loop of Run goes on, steps without a new
  -- call lead to a state in which the same calls wait and each of them has its answer in its
  -- channel, whatever the invokers answer.
  pub calls_answered :
      (w : W) (m : ℕ) (s : Calls E W)
      → ((n : ℕ) → (w : W) × (n ≤ clock w))
      → wt.on_wait ≡ true
      → wt.max_retries ≡ pos (suc m)
      → Reach as_flood_wait invoke wt clock (init w) s
      → s.phase ≡ looping
      → (t : Calls E W) × Reach as_flood_wait invoke wt clock s t
        × (t.calls ≡ s.calls)
        × (t.waiting ≡ s.waiting)
        × ((x : ℕ) → count x t.waiting ≤ count x (ids t.channels))
  calls_answered w m s late on lim r h =
      let i = Reach-Inv as_flood_wait invoke wt clock w on r in
      let first =
        drain 0 m s.batch s on lim i h refl
          (λ y t. (omega arith, Reach-RetriesWithin as_flood_wait invoke wt clock w m on lim r y t))
          (λ y t. omega arith) in
      let d = rounds (suc (suc m)) 0 m s (omega arith) late on lim i first in
      let none_left =
        empty_of d.end.scheduler.queue (λ y t. absurd (omega (arith, d.retries y t))) in
      let j = Inv-Reach as_flood_wait invoke wt clock on i d.reach in
      (
        d.end,
        d.reach,
        d.same_calls,
        d.same_waiting,
        λ x. settled d.end x none_left d.drained (j.counts x),
      )
