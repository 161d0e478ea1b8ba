-- ===== src/Tests/Queues.antt =====
-- middleware/floodwait/queue.go and scheduler.go at concrete queues.
use mathlib.Core.List.{Perm, Mem, mem-cons, not-mem-nil}
use mathlib.Core.Logic.Or
use native.Mathlib.Bridge.{le_prop}
use tgcontrib.Base.{ℕ, ◌+◌, ◌*◌, ◌≤◌, ◌≡◌, ◌≢◌, refl, List, [], ◌∷◌, ◌++◌, map, none, some, arith}
use mathlib.Core.List.Perm
use tgcontrib.Base.Counts.{count}
use tgcontrib.Flood.Heap
use tgcontrib.Flood.Queue
use tgcontrib.Flood.Queue.Order.{times, gather_order}
use tgcontrib.Flood.Heap.Up.{IsHeap}
use tgcontrib.Flood.Queue.{
  Request, Scheduled, Queue, at, time_of, new_queue, move, move_loop, gather,
}
use tgcontrib.Flood.Queue.Gather.{Gathered, gather-Gathered}
use tgcontrib.Flood.Queue.Move.{Moved, Within, shift, move-Moved, move_loop-map, move_loop_stops}
use tgcontrib.Flood.Scheduler.{Scheduler, new_scheduler, schedule, flood, flood_add, flood_move}
use tgcontrib.Flood.Scheduler.Delays.{repeat_nice, repeat_nice_clears}
use tgcontrib.Flood.Scheduler.Steps.{
  IsValid, delay_of, here, next, schedules, flood_adds, flood_moves, new_scheduler-IsValid,
  schedule-IsValid, Reach-IsValid, schedule-perm, flood_doubles,
}

abbrev one : Request ℕ
one = record { payload = 11; key = 1; retry = 0 }

abbrev two : Request ℕ
two = record { payload = 22; key = 2; retry = 0 }

abbrev idle : Scheduler ℕ
idle = new_scheduler 3

abbrev busy : Scheduler ℕ
busy = schedule 5 (schedule 4 idle one) two

busy-IsValid : IsValid busy
busy-IsValid =
    schedule-IsValid 5 (schedule 4 idle one) two
      (schedule-IsValid 4 idle one (new_scheduler-IsValid 3))

gather-Gathered_example :
    (due : List (Scheduled ℕ)) × (q' : Queue ℕ) × (gather busy.queue 4 [] ≡ ([] ++ due, q'))
    × Gathered 4 busy.queue 0 due q'
gather-Gathered_example = gather-Gathered busy.queue 4 [] (busy-IsValid.heap)

move-Moved_run :
    (r : Queue ℕ) × Moved 1 7 busy.queue r
    × IsHeap time_of (move busy.queue 1 4 7)
    × Perm (move busy.queue 1 4 7) r
move-Moved_run = move-Moved busy.queue 1 4 7

-- The same entries in two orders: the heaps are other lists.
abbrev left_heap : Scheduler ℕ
left_heap = schedule 6 busy one

abbrev right_heap : Scheduler ℕ
right_heap = schedule 5 (schedule 6 (schedule 4 idle one) one) two

left_heap-IsValid : IsValid left_heap
left_heap-IsValid = schedule-IsValid 6 busy one busy-IsValid

right_heap-IsValid : IsValid right_heap
right_heap-IsValid = schedule-IsValid 5 (schedule 6 (schedule 4 idle one) one) two (
    schedule-IsValid 6 (schedule 4 idle one) one
      (schedule-IsValid 4 idle one (new_scheduler-IsValid 3)))

same_entries : Perm left_heap.queue right_heap.queue
unfolding schedule new_scheduler Queue.new_queue Queue.add Heap.push
same_entries = Perm.cons (at one 4) (Perm.swap (at one 6) (at two 5) [])

gather_order_example :
    (times (gather left_heap.queue 5 []).0 ≡ times (gather right_heap.queue 5 []).0)
    × ((x : ℕ)
        → count x (times (gather left_heap.queue 5 []).1)
          ≡ count x (times (gather right_heap.queue 5 []).1))
gather_order_example =
    gather_order 5 left_heap.queue right_heap.queue left_heap-IsValid.heap right_heap-IsValid.heap
      same_entries

late : Within 1 9 (at one 5 ∷ [])
late y t e = Or.elim le_prop (mem-cons.0 t) (λ x. rw x (omega arith)) (λ m. absurd (not-mem-nil m))

move_loop-map_example : move_loop 1 4 5 (at one 5 ∷ []) ≡ map (shift 1 5) (at one 5 ∷ [])
move_loop-map_example = move_loop-map 1 4 5 (at one 5 ∷ []) late

front_key : (y : Scheduled ℕ) → Mem y (at two 6 ∷ []) → 2 ≤ y.request.key
front_key y t =
    Or.elim le_prop (mem-cons.0 t) (λ x. rw x (omega arith)) (λ m. absurd (not-mem-nil m))

abbrev pair : Queue ℕ
pair = at two 6 ∷ at one 20 ∷ at one 8 ∷ []

move_loop_stops_run : move_loop 1 4 7 (at two 6 ∷ at one 20 ∷ at one 8 ∷ []) ≡ pair
move_loop_stops_run =
    move_loop_stops 1 4 7 (at two 6 ∷ []) (at one 20) (at one 8 ∷ [])
      (λ y t. omega (arith, front_key y t)) refl (omega arith)

ten : (flood 5 idle one 10).state 1 ≡ some 10
unfolding flood new_scheduler
ten = refl

three : 10 ≤ 4 * (flood 5 idle one 10).dec
unfolding flood new_scheduler
three = omega arith

repeat_nice_clears_run : (repeat_nice 4 (flood 5 idle one 10) 1).state 1 ≡ none
repeat_nice_clears_run = repeat_nice_clears 4 (flood 5 idle one 10) 1 10 ten (omega arith) three

-- A request is scheduled between the two steps of a flood wait.
Reach-IsValid_example :
    IsValid (flood_move 9 (schedule 9 (flood_add 9 (schedule 4 idle one) one 7) one) 1 7)
Reach-IsValid_example = Reach-IsValid 3 (
    next
      (next (next (next here (schedules 4 one)) (flood_adds 9 one 7 (omega arith)))
        (schedules 9 one))
      (flood_moves 9 1 7 (omega arith)))

schedule-perm_run :
    Perm (schedule 6 busy one).queue (at one (6 + delay_of (busy.state 1)) ∷ busy.queue)
schedule-perm_run = schedule-perm 6 busy one busy-IsValid

no_others : (y : Scheduled ℕ) → Mem y idle.queue → y.request.key ≢ 1
unfolding new_scheduler new_queue
no_others y t = absurd (not-mem-nil t)

flood_doubles_run : Perm (flood 9 idle one 7).queue (at one (9 + 7 + 7) ∷ idle.queue)
flood_doubles_run = flood_doubles 9 idle one 7 (new_scheduler-IsValid 3) no_others
