-- ===== src/Flood/Waiter.antt =====
-- middleware/floodwait/waiter.go: the waiter that sends the requests of a scheduler.
-- `E` is the type of errors and `as_flood_wait` is `tgerr.AsFloodWait` on an error. `W` is the world
-- behind the invokers, and `invoke` is `next.Invoke`. The scheduler is shared by the copies of a
-- waiter, so it is passed beside it.
pub mod Retries
pub mod Tick
use tgcontrib.Base.{
  ℕ, zero, suc, ◌+◌, ◌*◌, ◌^◌, Bool, true, false, not, ◌&&◌, List, [], ◌∷◌, ◌++◌, Option, none,
  some, ltb, leb, ◌==◌, if◌then◌else◌,
}
use tgcontrib.Base.Int.{ℤ, pos, negsuc, ltb_ℤ}
use tgcontrib.Flood.Queue.{Request, Scheduled}
use tgcontrib.Flood.Scheduler.{Scheduler, new_scheduler, new, gather, nice, flood}

abbrev pub second : ℕ
second = 1000 * 1000 * 1000

abbrev pub minute : ℕ
minute = 60 * second

-- `on_wait` is whether the callback is there: a call of a nil function is a panic.
pub record Waiter : Type 0 where
  pub running : Bool
  pub tick : ℕ
  pub max_wait : ℤ
  pub max_retries : ℤ
  pub on_wait : Bool

unfoldable pub new_waiter : Waiter
new_waiter = record {
  running = false;
  tick = 1000 * 1000;
  max_wait = pos minute;
  max_retries = pos 5;
  on_wait = true;
}

-- `clone` names four fields besides the scheduler's: the others are zero.
unfoldable pub clone : Waiter → Waiter
clone w = record {
  running = false;
  tick = w.tick;
  max_wait = w.max_wait;
  max_retries = w.max_retries;
  on_wait = false;
}

unfoldable pub with_callback : Waiter → Waiter
with_callback w = record (clone w) { on_wait = true }

-- the clock itself is an argument of the other functions
unfoldable pub with_clock : Waiter → Waiter
with_clock w = clone w

unfoldable pub with_max_wait : Waiter → ℤ → Waiter
with_max_wait w m = record (clone w) { max_wait = m }

unfoldable pub with_max_retries : Waiter → ℤ → Waiter
with_max_retries w m = record (clone w) { max_retries = m }

-- A tick that is not positive is one nanosecond.
positive_tick : ℤ → ℕ
positive_tick (negsuc n) = 1
positive_tick (pos n) = if n == 0 then 1 else n

unfoldable pub with_tick : Waiter → ℤ → Waiter
unfolding positive_tick
with_tick w t = record (clone w) { tick = positive_tick t }

is_zero : ℤ → Bool
is_zero (pos n) = n == 0
is_zero (negsuc n) = false

-- `v != 0 && n > v`
unfoldable pub exceeds : ℕ → ℤ → Bool
unfolding is_zero
exceeds n v = not (is_zero v) && ltb_ℤ v (pos n)

-- What comes back to the caller.
pub data Answer (E : Type 0) : Type 0 where
  result : Option E → Answer E
  retry_limit : ℕ → ℤ → E → Answer E
  too_big : ℕ → ℤ → E → Answer E

-- What `send` returns: an answer, or none where the request is in the queue again.
pub data Sent (E : Type 0) : Type 0 where
  answered : Answer E → Sent E
  waits : Sent E
  panicked : Sent E

module _ {P E : Type 0} where
  -- the end of `send`, from the test on the longest wait on; `r` counts the new retry
  send_flood : Waiter → ℕ → Scheduler P → Request P → ℕ → E → Sent E × Scheduler P
  send_flood w now sch r d err =
      if exceeds r.retry w.max_retries
      then (answered (retry_limit r.retry w.max_retries err), sch)
      else let d' = if ltb d second then second else d in
        if exceeds d' w.max_wait
        then (answered (too_big d' w.max_wait err), sch)
        else (waits, flood now sch r d')

  -- `send`, behind the call: the error is none where the call succeeds
  unfoldable pub send :
      (E → Option ℕ) → Waiter → ℕ → Scheduler P → Scheduled P → Option E → Sent E × Scheduler P
  unfolding send_flood exceeds
  send as_flood_wait w now sch s none = (answered (result none), nice sch s.request.key)
  send as_flood_wait w now sch s (some err) = elim (as_flood_wait err) [
    | none ↦ (answered (result (some err)), nice sch s.request.key)
    | some d ↦
        if w.on_wait
        then send_flood w now sch (record (s.request) { retry = s.request.retry + 1 }) d err
        else (panicked, sch)
  ]

-- What the loop over the gathered requests has done: the answers in order, the scheduler and the
-- world, or a crash.
pub data Ran (P E W : Type 0) : Type 0 where
  ran : List (Request P × Answer E) → Scheduler P → W → Ran P E W
  crashed : Ran P E W

module _ {P E W : Type 0} (as_flood_wait : E → Option ℕ)
    (invoke : W → Request P → W × Option E) where
  -- one round of the loop, behind `send`; each result channel takes one answer
  after_send :
      Request P
      → List (Request P × Answer E)
      → W
      → Sent E × Scheduler P
      → (List (Request P × Answer E) → Scheduler P → W → Ran P E W)
      → Ran P E W
  after_send r answers w (answered a, sch) next = next (answers ++ (r, a) ∷ []) sch w
  after_send r answers w (waits, sch) next = next answers sch w
  after_send r answers w (panicked, sch) next = crashed

  -- `clock` is what the clock says after each call.
  send_all :
      Waiter
      → (W → ℕ)
      → List (Scheduled P)
      → List (Request P × Answer E)
      → Scheduler P
      → W
      → Ran P E W
  send_all wt clock [] answers sch w = ran answers sch w
  send_all wt clock (s ∷ l) answers sch w =
      let (w', err) = invoke w s.request in
      after_send s.request answers w' (send as_flood_wait wt (clock w') sch s err)
        (λ answers' sch' w''. send_all wt clock l answers' sch' w'')

  -- One tick of `Run`: gather, then send each request.
  unfoldable pub run_tick : Waiter → (W → ℕ) → Scheduler P → W → Ran P E W
  unfolding send_all after_send
  run_tick wt clock sch w =
      let (due, sch') = gather (clock w) sch [] in send_all wt clock due [] sch' w

-- `Handle`: a waiter that does not run refuses, and one that runs queues the request.
unfoldable pub handle :
    {P : Type 0} → Waiter → ℕ → Scheduler P → P → Option ℕ → Option (Scheduler P)
handle w now sch payload input = if not w.running then none else some (new now sch payload input)
