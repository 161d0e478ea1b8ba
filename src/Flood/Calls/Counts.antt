-- ===== src/Flood/Calls/Counts.antt =====
-- middleware/floodwait/waiter.go: how often a call stands in the lists of a state.
use mathlib.Core.List.Perm
use tgcontrib.Base.{
  ℕ, ◌+◌, ◌≤◌, ◌≡◌, refl, ap, List, [], ◌∷◌, ◌++◌, map, Option, some, arith, inl, inr, Bool-cases,
  ◌==◌, true,
}
use tgcontrib.Flood.Queue.{Scheduled, new_queue}
use tgcontrib.Flood.Scheduler.{Scheduler, new, gather, new_scheduler}
use tgcontrib.Flood.Scheduler.Steps.{IsValid, schedule-IsValid, schedule-perm}
use tgcontrib.Flood.Waiter.{Answer}
use tgcontrib.Flood.Waiter.Tick.{payloads, payload_of, gather-payloads}
use tgcontrib.Base.Counts.{count, count-append, count-perm}
use tgcontrib.Flood.Calls.{Calls, ids, queued, in_batch, put_answer}

pub ids-middle :
    {A : Type 0} (x : ℕ) (c : List (ℕ × A)) (p : ℕ) (r : A) (d : List (ℕ × A))
    → count x (ids (c ++ (p, r) ∷ d)) ≡ count x (ids (c ++ d)) + count x (p ∷ [])
ids-middle x [] p r d = omega arith
ids-middle x ((q, y) ∷ c) p r d = omega (arith, ids-middle x c p r d)

pub queued-new :
    (now : ℕ) (sch : Scheduler ℕ) (p : ℕ) (input : Option ℕ) (x : ℕ)
    → IsValid sch
    → count x (payloads (new now sch p input)) ≡ count x (p ∷ payloads sch)
unfolding new
queued-new now sch p input x v = count-perm x (Perm.map payload_of (schedule-perm now sch _ v))

pub queued-gather :
    (now : ℕ) (sch : Scheduler ℕ) (x : ℕ)
    → IsValid sch
    → count x (map payload_of (gather now sch []).0) + count x (payloads (gather now sch []).1)
      ≡ count x (payloads sch)
queued-gather now sch x v = omega (
  arith,
  count-append x (map payload_of (gather now sch []).0) (payloads (gather now sch []).1),
  count-perm x (gather-payloads now sch v),
)

pub new-IsValid :
    (now : ℕ) (sch : Scheduler ℕ) (p : ℕ) (input : Option ℕ)
    → IsValid sch
    → IsValid (new now sch p input)
unfolding new
new-IsValid now sch p input v = schedule-IsValid now sch _ v

pub queue-new_scheduler : (dec : ℕ) → payloads (new_scheduler {P = ℕ} dec) ≡ []
unfolding new_scheduler new_queue
queue-new_scheduler dec = refl

pub some_inj : {A : Type 0} {a b : A} → some a ≡ some b → a ≡ b
some_inj h = cc

equal-eq : (x p : ℕ) → (x == p) ≡ true → x ≡ p
equal-eq x p h = ground arith

pub once-cons : (x p : ℕ) (l : List ℕ) → count p l ≡ 0 → count x l ≤ 1 → count x (p ∷ l) ≤ 1
once-cons x p l f h = elim (Bool-cases (x == p)) [
  | inl e ↦ rw (equal-eq x p e) (ground (arith, f))
  | inr e ↦ rw e (omega (arith, h))
]

-- For each call: its request is queued, in the batch or answered as often as the call waits or has
-- gone; a call waits, enters or has returned once.
pub record Counts (q b c w g e r n : ℕ) : Type 0 where
  pub balanced : q + (b + c) ≡ w + g
  pub called : n ≡ e + (w + r)
  pub once : n ≤ 1
  pub left_once : g ≤ r

module _ {E W : Type 0} where
  abbrev pub CountsOf : Calls E W → ℕ → Type 0
  CountsOf s x =
      Counts (count x (queued s)) (count x (in_batch s)) (count x (ids s.channels))
        (count x s.waiting) (count x s.gone) (count x s.entering) (count x (ids s.returned))
        (count x s.calls)

  pub record Inv (s : Calls E W) : Type 0 where
    pub valid : IsValid s.scheduler
    pub counts : (x : ℕ) → CountsOf s x

module _ {E W : Type 0} where
  pub batch_room :
      (s : Calls E W) (y : Scheduled ℕ) (rest : List (Scheduled ℕ))
      → s.batch ≡ y ∷ rest
      → CountsOf s y.request.payload
      → count y.request.payload (ids s.channels) ≡ 0
  batch_room s y rest k n =
      let p = y.request.payload in
      let b : count p (in_batch s) ≡ count p (map payload_of (y ∷ rest)) =
        ap (λ (l : List (Scheduled ℕ)). count p (map payload_of l)) k in
      let self : count p (p ∷ map payload_of rest) ≡ 1 + count p (map payload_of rest) =
        ground arith in
      omega (arith, n.balanced, n.called, n.once, n.left_once, b, self)

module _ {E : Type 0} where
  pub put_answer-room :
      (p : ℕ) (a : Answer E) (c : List (ℕ × Answer E))
      → count p (ids c) ≡ 0
      → put_answer p a c ≡ c ++ (p, a) ∷ []
  unfolding put_answer
  put_answer-room p a c h = rw h refl

  pub ids-append_one :
      (x : ℕ) (c : List (ℕ × Answer E)) (p : ℕ) (a : Answer E)
      → count x (ids (c ++ (p, a) ∷ [])) ≡ count x (ids c) + count x (p ∷ [])
  ids-append_one x [] p a = omega arith
  ids-append_one x ((q, b) ∷ c) p a = omega (arith, ids-append_one x c p a)
