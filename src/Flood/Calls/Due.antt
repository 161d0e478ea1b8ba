-- ===== src/Flood/Calls/Due.antt =====
-- middleware/floodwait/waiter.go: a gathering in which every request is due.
use mathlib.Core.List.{
  Mem, Perm, mem-cons, mem-cons_self, not-mem-nil, mem-append_right, append-nil,
}
use mathlib.Core.List.Perm
use mathlib.Core.Logic.Or
use native.Mathlib.Bridge.{le_prop}
use tgcontrib.Base.{ℕ, ◌+◌, ◌≤◌, ◌≡◌, refl, List, [], ◌∷◌, arith}
use tgcontrib.Flood.Queue.{Scheduled, Queue}
use tgcontrib.Flood.Queue.Gather.{gather-Gathered}
use tgcontrib.Flood.Scheduler.{Scheduler, gather}
use tgcontrib.Flood.Scheduler.Steps.{IsValid}
use tgcontrib.Base.Counts.{count}
use tgcontrib.Flood.Calls.{Calls, ids, queued, in_batch}
use tgcontrib.Flood.Calls.Counts.{CountsOf}

-- Between `lo` and `hi` retries.
abbrev pub Between : ℕ → ℕ → ℕ → Type 0
Between lo hi n = (lo ≤ n) × (n ≤ hi)

pub Between-prop : (lo hi n : ℕ) → IsProp (Between lo hi n)
Between-prop lo hi n = hlevel (le_prop)

-- The time by which all of a queue is due.
pub latest : Queue ℕ → ℕ
latest [] = 0
latest (s ∷ q) = s.send_time + latest q

pub time-le-latest : (q : Queue ℕ) (y : Scheduled ℕ) → Mem y q → y.send_time ≤ latest q
unfolding latest
time-le-latest [] y t = absurd (not-mem-nil t)
time-le-latest (s ∷ q) y t =
    Or.elim le_prop (mem-cons.0 t) (λ e. ground (arith, e))
      (λ m. omega (arith, time-le-latest q y m))

pub empty_of : {A : Type 0} (l : List A) → ((y : A) → Mem y l → ⊥) → l ≡ []
empty_of [] h = refl
empty_of (x ∷ l) h = absurd (h x mem-cons_self)

-- A queue that is all due is gathered whole.
pub gather_all :
    (now : ℕ) (s : Scheduler ℕ)
    → IsValid s
    → latest s.queue ≤ now
    → ((gather now s []).1.queue ≡ []) × Perm (gather now s []).0 s.queue
unfolding gather
gather_all now s v h =
    let (due, q, e, g) = gather-Gathered s.queue now [] v.heap in
    let none_left = empty_of q (λ y t. absurd (
      omega (
        arith,
        g.later y t,
        time-le-latest s.queue y ((Perm.mem_iff g.same).0 (mem-append_right due t)),
      ))) in
    rw e (none_left, rw (none_left, append-nil) at (g.same))

-- With nothing queued and nothing in the batch, a call that waits has its answer.
pub settled :
    {E W : Type 0} (s : Calls E W) (x : ℕ)
    → s.scheduler.queue ≡ []
    → s.batch ≡ []
    → CountsOf s x
    → count x s.waiting ≤ count x (ids s.channels)
settled s x q b c =
    let q' : count x (queued s) ≡ 0 = rw q refl in
    let b' : count x (in_batch s) ≡ 0 = rw b refl in omega (arith, q', b', c.balanced)
