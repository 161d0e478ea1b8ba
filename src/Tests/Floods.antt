-- ===== src/Tests/Floods.antt =====
-- middleware/floodwait/waiter.go: one call of `Handle` while `Run` goes on.
use tgcontrib.Base.{
  ℕ, ◌+◌, ◌≤◌, ◌≡◌, refl, true, [], ◌∷◌, ◌++◌, Option, none, some, arith, ◌==◌, if◌then◌else◌,
}
use tgcontrib.Base.Int.{pos}
use tgcontrib.Flood.Heap
use tgcontrib.Flood.Queue
use tgcontrib.Flood.Queue.{Request, Scheduled, at}
use tgcontrib.Flood.Scheduler.{new, gather}
use tgcontrib.Flood.Waiter.{new_waiter, result}
use tgcontrib.Flood.Waiter.Retries.{RetriesWithin}
use tgcontrib.Base.Counts.{count}
use tgcontrib.Flood.Calls.{
  looping, Calls, ids, init, put_answer, starts, enters, queues, gathers, Reach, here, next,
}
use tgcontrib.Flood.Calls.Counts.{CountsOf}
use tgcontrib.Flood.Calls.Answers.{Reach-Counts, answer_has_room}
use tgcontrib.Flood.Calls.Retries.{Reach-RetriesWithin}
use tgcontrib.Flood.Calls.Rounds.{calls_answered}

-- The error of number 0 is no flood wait, each other is one of that many nanoseconds.
abbrev as_flood_wait : ℕ → Option ℕ
as_flood_wait e = if e == 0 then none else some e

-- The world counts the calls; the first meets a flood wait.
abbrev invoke : ℕ → Request ℕ → ℕ × Option ℕ
invoke w r = (w + 1, if w == 0 then some 7 else none)

abbrev clock : ℕ → ℕ
clock w = w + 9

late : (n : ℕ) → (w : ℕ) × (n ≤ clock w)
late n = (n, omega arith)

on_wait : new_waiter.on_wait ≡ true
unfolding new_waiter
on_wait = refl

limit : new_waiter.max_retries ≡ pos 5
unfolding new_waiter
limit = refl

-- A call that waits while the loop runs.
abbrev waiting_state : Calls ℕ ℕ
waiting_state = record (init 0) {
  phase = looping;
  calls = 7 ∷ [];
  scheduler = new (clock 0) (init {E = ℕ} {W = ℕ} 0).scheduler 7 (some 1);
  waiting = 7 ∷ [];
}

waiting_reached : Reach as_flood_wait invoke new_waiter clock (init 0) waiting_state
unfolding init
waiting_reached =
    next (next (next here (starts refl)) (enters 7 refl refl)) (queues [] 7 [] (some 1) refl)

abbrev gathered_state : Calls ℕ ℕ
gathered_state = record waiting_state {
  scheduler = (gather (clock 0) waiting_state.scheduler []).1;
  batch = (gather (clock 0) waiting_state.scheduler []).0;
}

gathered_reached : Reach as_flood_wait invoke new_waiter clock (init 0) gathered_state
unfolding init
gathered_reached = next waiting_reached (gathers refl refl)

abbrev call : Scheduled ℕ
call = at (record { payload = 7; key = 1; retry = 0 }) 9

call_gathered : gathered_state.batch ≡ call ∷ []
unfolding init new gather Queue.gather Queue.add Queue.new_queue Queue.from_encoder Heap.push
    Heap.pop
call_gathered = refl

Reach-Counts_example : CountsOf gathered_state 7
Reach-Counts_example =
    Reach-Counts as_flood_wait invoke new_waiter clock 0 on_wait gathered_reached 7

answer_has_room_example :
    put_answer 7 (result none) gathered_state.channels
    ≡ gathered_state.channels ++ (7, result none) ∷ []
answer_has_room_example =
    answer_has_room as_flood_wait invoke new_waiter clock 0 call [] (result none) on_wait
      gathered_reached call_gathered

Reach-RetriesWithin_example : RetriesWithin 5 gathered_state.scheduler.queue
Reach-RetriesWithin_example =
    Reach-RetriesWithin as_flood_wait invoke new_waiter clock 0 4 on_wait limit gathered_reached

calls_answered_example :
    (t : Calls ℕ ℕ) × Reach as_flood_wait invoke new_waiter clock waiting_state t
    × (t.calls ≡ waiting_state.calls)
    × (t.waiting ≡ waiting_state.waiting)
    × ((x : ℕ) → count x t.waiting ≤ count x (ids t.channels))
calls_answered_example =
    calls_answered as_flood_wait invoke new_waiter clock 0 4 waiting_state late on_wait limit
      waiting_reached refl
