-- ===== src/Flood/Scheduler.antt =====
-- middleware/floodwait/scheduler.go: the delay of each key, and the queue.
-- Each method holds a lock from its first to its last access, so a call is one step, but for `flood`:
-- it gives its lock back and then calls `move`, which takes the one of the queue, and is two steps.
-- `now` is what the clock says under the lock.
pub mod Delays
pub mod Steps
use tgcontrib.Base.{
  ℕ, ◌+◌, ◌-◌, Bool, true, false, List, Option, none, some, ltb, ◌==◌, if◌then◌else◌,
}
use tgcontrib.Flood.Queue.{
  Request, Scheduled, Queue, from_encoder, new_queue, add, move, gather as gather_queue,
}

abbrev pub Delays : Type 0
Delays = ℕ → Option ℕ

abbrev pub put : ℕ → Option ℕ → Delays → Delays
put k v m j = if k == j then v else m j

pub record Scheduler (P : Type 0) : Type 0 where
  pub state : Delays
  pub queue : Queue P
  pub dec : ℕ

send_at : ℕ → Option ℕ → ℕ
send_at now none = now
send_at now (some state) = now + state

-- what `nice` leaves of a delay
lowered : ℕ → Option ℕ → Option ℕ
lowered dec none = none
lowered dec (some state) = if ltb dec state then some (state - dec) else none

-- what `flood` makes of a delay
raised : ℕ → Option ℕ → Option ℕ
raised d none = some d
raised d (some state) = if ltb state d then some d else some state

module _ {P : Type 0} where
  unfoldable pub new_scheduler : ℕ → Scheduler P
  new_scheduler dec = record { state = λ k. none; queue = new_queue; dec = dec }

  unfoldable pub schedule : ℕ → Scheduler P → Request P → Scheduler P
  unfolding send_at
  schedule now s r = record s { queue = add s.queue r (send_at now (s.state r.key)) }

  -- `new`: a request that was not retried yet
  unfoldable pub new : ℕ → Scheduler P → P → Option ℕ → Scheduler P
  unfolding schedule
  new now s payload input =
      schedule now s (record { payload = payload; key = from_encoder input; retry = 0 })

  unfoldable pub gather : ℕ → Scheduler P → List (Scheduled P) → List (Scheduled P) × Scheduler P
  gather now s r = let (due, q) = gather_queue s.queue now r in (due, record s { queue = q })

  unfoldable pub nice : Scheduler P → ℕ → Scheduler P
  unfolding lowered
  nice s k = record s { state = put k (lowered s.dec (s.state k)) s.state }

  -- `flood` under its lock
  unfoldable pub flood_add : ℕ → Scheduler P → Request P → ℕ → Scheduler P
  unfolding raised
  flood_add now s req d =
      let k = req.key in
      let state = put k (raised d (s.state k)) s.state in
      record s { state = state; queue = add s.queue req (now + d) }

  -- `flood` behind it
  unfoldable pub flood_move : ℕ → Scheduler P → ℕ → ℕ → Scheduler P
  flood_move now s k d = record s { queue = move s.queue k now d }

  unfoldable pub flood : ℕ → Scheduler P → Request P → ℕ → Scheduler P
  unfolding flood_add flood_move
  flood now s req d = flood_move now (flood_add now s req d) (req.key) d
