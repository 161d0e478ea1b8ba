-- ===== src/Flood/Calls/Retries.antt =====
-- middleware/floodwait/waiter.go: the retries of the queued requests while calls come and go.
use mathlib.Core.List.{mem-cons, not-mem-nil, mem-append_right}
use mathlib.Core.List.Perm
use mathlib.Core.Logic.Or
use native.Mathlib.Bridge.{le_prop}
use tgcontrib.Base.{ℕ, suc, ◌≡◌, refl, List, [], Option, none, some, arith, true}
use tgcontrib.Base.Int.{pos}
use tgcontrib.Flood.Queue.{Request, Scheduled, new_queue}
use tgcontrib.Flood.Queue.Gather.{gather-Gathered}
use tgcontrib.Flood.Scheduler.{Scheduler, new, gather, new_scheduler}
use tgcontrib.Flood.Scheduler.Steps.{IsValid, schedule-perm}
use tgcontrib.Flood.Waiter.{Waiter, Sent, answered, waits, panicked, send}
use tgcontrib.Flood.Waiter.Retries.{RetriesWithin, send-RetriesWithin}
use tgcontrib.Flood.Calls.{
  enters, refuses, queues, starts, loop_ends, run_returns, receives, gives_up, Calls, after_answer,
  send_next, Step, gathers, sends, passes, Reach, here, next, init,
}
use tgcontrib.Flood.Calls.Counts.{Inv}
use tgcontrib.Flood.Calls.Answers.{Reach-Inv}

queue-init : (E : Type 0) {W : Type 0} (w : W) → (init {E = E} w).scheduler.queue ≡ []
unfolding init new_scheduler new_queue
queue-init E w = refl

some_inj : {A : Type 0} {a b : A} → some a ≡ some b → a ≡ b
some_inj h = cc

none-ne-some : {A : Type 0} {a : A} → none ≡ some a → ⊥
none-ne-some h = cc

new-RetriesWithin :
    (m now : ℕ) (sch : Scheduler ℕ) (p : ℕ) (input : Option ℕ)
    → IsValid sch
    → RetriesWithin m sch.queue
    → RetriesWithin m (new now sch p input).queue
unfolding new
new-RetriesWithin m now sch p input v q y t =
    Or.elim le_prop (mem-cons.0 ((Perm.mem_iff (schedule-perm now sch _ v)).0 t))
      (λ e. ground (arith, e)) (q y)

gather-RetriesWithin :
    (m now : ℕ) (sch : Scheduler ℕ)
    → IsValid sch
    → RetriesWithin m sch.queue
    → RetriesWithin m (gather now sch []).1.queue
unfolding gather
gather-RetriesWithin m now sch v q y t =
    let (due, q', e, g) = gather-Gathered sch.queue now [] v.heap in
    q y ((Perm.mem_iff g.same).0 (mem-append_right due (rw e at t)))

module _ {E W : Type 0} (as_flood_wait : E → Option ℕ) (invoke : W → Request ℕ → W × Option E)
    (wt : Waiter) (clock : W → ℕ) where
  after_answer-scheduler :
      (s t : Calls E W) (p : ℕ) (rest : List (Scheduled ℕ)) (w : W) (o : Sent E × Scheduler ℕ)
      → after_answer as_flood_wait invoke wt clock p rest s w o ≡ some t
      → t.scheduler ≡ o.1
  unfolding after_answer
  after_answer-scheduler s t p rest w (answered a, sch) e = rw (← some_inj e) refl
  after_answer-scheduler s t p rest w (waits, sch) e = rw (← some_inj e) refl
  after_answer-scheduler s t p rest w (panicked, sch) e = absurd (none-ne-some e)

  Step-RetriesWithin :
      {s t : Calls E W} (m : ℕ)
      → wt.max_retries ≡ pos (suc m)
      → Step as_flood_wait invoke wt clock s t
      → Inv s
      → RetriesWithin (suc m) s.scheduler.queue
      → RetriesWithin (suc m) t.scheduler.queue
  unfolding send_next
  Step-RetriesWithin {s} m lim (enters p f r) i q = q
  Step-RetriesWithin {s} m lim (refuses p f r) i q = q
  Step-RetriesWithin {s} m lim (queues a p b input h) i q =
      new-RetriesWithin (suc m) (clock s.world) s.scheduler p input i.valid q
  Step-RetriesWithin {s} m lim (starts h) i q = q
  Step-RetriesWithin {s} m lim (gathers h k) i q =
      gather-RetriesWithin (suc m) (clock s.world) s.scheduler i.valid q
  Step-RetriesWithin {s} m lim (sends y rest h k e) i q =
      let a = invoke s.world y.request in
      let o = send as_flood_wait wt (clock a.0) s.scheduler y a.1 in
      rw (after_answer-scheduler s _ y.request.payload rest a.0 o e)
        (send-RetriesWithin as_flood_wait wt m (clock a.0) s.scheduler y a.1 lim i.valid q)
  Step-RetriesWithin {s} m lim (loop_ends h k) i q = q
  Step-RetriesWithin {s} m lim (run_returns h) i q = q
  Step-RetriesWithin {s} m lim (receives a p b c r d h k) i q = q
  Step-RetriesWithin {s} m lim (gives_up a p b e h) i q = q
  Step-RetriesWithin {s} m lim (passes w) i q = q

  -- For a waiter with a callback and a positive limit of retries, in every state that such
  -- steps lead to no queued request was retried more often than the limit.
  pub Reach-RetriesWithin :
      (w : W) {s : Calls E W} (m : ℕ)
      → wt.on_wait ≡ true
      → wt.max_retries ≡ pos (suc m)
      → Reach as_flood_wait invoke wt clock (init w) s
      → RetriesWithin (suc m) s.scheduler.queue
  Reach-RetriesWithin w m on lim here = rw (queue-init E w) (λ y t. absurd (not-mem-nil t))
  Reach-RetriesWithin w m on lim (next r st) =
      Step-RetriesWithin m lim st (Reach-Inv as_flood_wait invoke wt clock w on r)
        (Reach-RetriesWithin w m on lim r)
