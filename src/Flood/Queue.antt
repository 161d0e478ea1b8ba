-- ===== src/Flood/Queue.antt =====
-- middleware/floodwait/queue.go and request.go: the queue of scheduled requests.
-- The `index` of a scheduled request is left out: Swap, Push and Pop write it, and nothing reads it.
pub mod Gather
pub mod Move
pub mod Order
use tgcontrib.Base.{
  ℕ, zero, suc, ◌+◌, Bool, true, false, not, List, [], ◌∷◌, ◌++◌, Option, none, some, ltb, ◌==◌,
  if◌then◌else◌, length,
}
use tgcontrib.Flood.Heap.{push, pop, init}

-- `P` is what the queue passes on: the context, the input, the output, the next invoker and the
-- channel for the result.
pub record Request (P : Type 0) : Type 0 where
  pub payload : P
  pub key : ℕ
  pub retry : ℕ

-- `fromEncoder`: the type of the object, or 0 for an input that is none
unfoldable pub from_encoder : Option ℕ → ℕ
from_encoder none = 0
from_encoder (some type_id) = type_id

pub record Scheduled (P : Type 0) : Type 0 where
  pub request : Request P
  pub send_time : ℕ

abbrev pub at : {P : Type 0} → Request P → ℕ → Scheduled P
at r t = record { request = r; send_time = t }

abbrev pub time_of : {P : Type 0} → Scheduled P → ℕ
time_of s = s.send_time

abbrev pub Queue : Type 0 → Type 0
Queue P = List (Scheduled P)

module _ {P : Type 0} where
  unfoldable pub new_queue : Queue P
  new_queue = []

  unfoldable pub add : Queue P → Request P → ℕ → Queue P
  add q r t = push time_of q (at r t)

  unfoldable pub len : Queue P → ℕ
  len q = length q

  -- the loop of `move`, with its `continue` and its `break`
  unfoldable pub move_loop : ℕ → ℕ → ℕ → Queue P → Queue P
  move_loop k now dur [] = []
  move_loop k now dur (s ∷ q) =
      let rest = move_loop k now dur q in
      if not (s.request.key == k)
      then s ∷ rest
      else if ltb (now + dur) s.send_time
      then s ∷ q
      else (record s { send_time = s.send_time + dur }) ∷ rest

  unfoldable pub move : Queue P → ℕ → ℕ → ℕ → Queue P
  unfolding move_loop
  move q k now dur = init time_of (move_loop k now dur q)

  -- A popped entry that is not due is pushed back.
  after_pop :
      ℕ
      → List (Scheduled P)
      → Option (Queue P × Scheduled P)
      → (Queue P → List (Scheduled P) → List (Scheduled P) × Queue P)
      → List (Scheduled P) × Queue P
  after_pop now req none again = (req, [])
  after_pop now req (some (q, next)) again =
      if ltb now next.send_time then (req, push time_of q next) else again q (req ++ next ∷ [])

  unfoldable pub gather_loop : ℕ → ℕ → Queue P → List (Scheduled P) → List (Scheduled P) × Queue P
  unfolding after_pop
  gather_loop zero now q req = (req, q)
  gather_loop (suc f) now [] req = (req, [])
  gather_loop (suc f) now (s ∷ q) req =
      after_pop now req (pop time_of (s ∷ q)) (λ q' req'. gather_loop f now q' req')

  -- Each round but the last takes one entry out.
  unfoldable pub gather : Queue P → ℕ → List (Scheduled P) → List (Scheduled P) × Queue P
  unfolding gather_loop
  gather q now req = gather_loop (suc (length q)) now q req
