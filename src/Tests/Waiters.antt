-- ===== src/Tests/Waiters.antt =====
-- middleware/floodwait/waiter.go and simple_waiter.go with concrete invokers.
use mathlib.Core.List.{not-mem-nil}
use tgcontrib.Base.{
  ℕ, ◌+◌, ◌<◌, ◌≡◌, refl, true, Option, none, some, arith, ◌==◌, ltb, if◌then◌else◌,
}
use tgcontrib.Base.Int.{pos}
use tgcontrib.Flood.Queue.{Request, at, new_queue}
use tgcontrib.Flood.Scheduler.{Scheduler, new_scheduler, schedule}
use tgcontrib.Flood.Scheduler.Steps.{IsValid, new_scheduler-IsValid, schedule-IsValid}
use tgcontrib.Flood.Waiter.{
  new_waiter, with_clock, with_max_wait, with_max_retries, with_tick, panicked, send, run_tick,
  exceeds,
}
use tgcontrib.Flood.Waiter.Retries.{RetriesWithin, send_panics, send-RetriesWithin}
use tgcontrib.Flood.Waiter.Tick.{Conserves, payloads, run_tick-Conserves}
use tgcontrib.Flood.Simple.{SimpleWaiter, result, stop, handle, over}
use tgcontrib.Flood.Simple.Loop.{Ends, Floods, pauses, handle-Ends, handle_result}

-- The error of number 0 is no flood wait, each other is one of that many nanoseconds.
abbrev as_flood_wait : ℕ → Option ℕ
as_flood_wait e = if e == 0 then none else some e

abbrev one : Request ℕ
one = record { payload = 11; key = 1; retry = 0 }

abbrev idle : Scheduler ℕ
idle = new_scheduler 3

abbrev busy : Scheduler ℕ
busy = schedule 4 idle one

busy-IsValid : IsValid busy
busy-IsValid = schedule-IsValid 4 idle one (new_scheduler-IsValid 3)

-- The world counts the calls; the first meets a flood wait.
abbrev invoke : ℕ → Request ℕ → ℕ × Option ℕ
invoke w r = (w + 1, if w == 0 then some 7 else none)

abbrev clock : ℕ → ℕ
clock w = w + 9

on_wait : new_waiter.on_wait ≡ true
unfolding new_waiter
on_wait = refl

run_tick-Conserves_example :
    Conserves (payloads busy) (run_tick as_flood_wait invoke new_waiter clock busy 0)
run_tick-Conserves_example =
    run_tick-Conserves as_flood_wait invoke new_waiter clock busy 0 on_wait busy-IsValid

send_panics_run :
    (send as_flood_wait (with_clock new_waiter) 9 idle (at one 4) (some 7) ≡ (panicked, idle))
    × (send as_flood_wait (with_max_wait new_waiter (pos 9)) 9 idle (at one 4) (some 7)
        ≡ (panicked, idle))
    × (send as_flood_wait (with_max_retries new_waiter (pos 9)) 9 idle (at one 4) (some 7)
        ≡ (panicked, idle))
    × (send as_flood_wait (with_tick new_waiter (pos 9)) 9 idle (at one 4) (some 7)
        ≡ (panicked, idle))
send_panics_run = send_panics as_flood_wait new_waiter (pos 9) 9 idle (at one 4) 7 7 refl

limit : new_waiter.max_retries ≡ pos 5
unfolding new_waiter
limit = refl

idle-RetriesWithin : RetriesWithin 5 idle.queue
unfolding new_scheduler new_queue
idle-RetriesWithin y t = absurd (not-mem-nil t)

send-RetriesWithin_run :
    RetriesWithin 5 (send as_flood_wait new_waiter 9 idle (at one 4) (some 7)).1.queue
send-RetriesWithin_run =
    send-RetriesWithin as_flood_wait new_waiter 4 9 idle (at one 4) (some 7) limit
      (new_scheduler-IsValid 3) idle-RetriesWithin

abbrev patient : SimpleWaiter
patient = record { max_retries = 3; max_wait = pos 0 }

abbrev open_ctx : ℕ → Option ℕ
open_ctx i = none

handle-Ends_example : Ends 4 (handle as_flood_wait patient open_ctx 9 (λ i. some 7))
handle-Ends_example =
    handle-Ends as_flood_wait patient open_ctx (λ i. some 7) 2 9 refl (omega arith)

-- two flood waits, then success
abbrev calls : ℕ → Option ℕ
calls i = if ltb i 2 then some 7 else none

calls-Floods : (j : ℕ) → j < 2 → Floods as_flood_wait patient open_ctx calls j 7
unfolding over exceeds
calls-Floods j h = record {
  error = 7;
  given = ground arith;
  flood = refl;
  retried = ground arith;
  fits = refl;
  open_ = refl;
}

handle_result_example :
    handle as_flood_wait patient open_ctx 3 calls
    ≡ stop (result none) 3 (pauses as_flood_wait patient open_ctx (λ j. 7) 0 2)
handle_result_example =
    handle_result as_flood_wait patient open_ctx calls (λ j. 7) 2 calls-Floods tt
