-- ===== src/Flood/Scheduler/Steps.antt =====
-- middleware/floodwait/scheduler.go: the calls as steps, and the invariant of the scheduler.
use mathlib.Core.List.{Perm, Mem, mem-cons, mem-cons_self, mem-cons_of_mem}
use mathlib.Core.List.Perm
use mathlib.Core.Logic.Or
use mathlib.Core.Path.{subst}
use native.Mathlib.Bridge.{le_prop}
use tgcontrib.Base.{ℕ, ◌+◌, ◌<◌, ◌≡◌, ◌≢◌, refl, [], ◌∷◌, map, Option, none, some, arith}
use tgcontrib.Flood.Heap.Up.{IsHeap}
use tgcontrib.Flood.Heap.Ops.{push-IsHeap, init-Mends}
use tgcontrib.Flood.Queue.{Request, Scheduled, Queue, at, time_of, new_queue, add, move, move_loop}
use tgcontrib.Flood.Queue.Gather.{gather-Gathered}
use tgcontrib.Flood.Queue.Move.{shift, move-Moved, move_loop-map}
use tgcontrib.Flood.Scheduler.{
  Scheduler, new_scheduler, schedule, gather, nice, flood, flood_add, flood_move, lowered, raised,
  send_at,
}

-- The queue is a heap, and no delay is zero.
pub record IsValid {P : Type 0} (s : Scheduler P) : Type 0 where
  pub heap : IsHeap time_of s.queue
  pub positive : (k v : ℕ) → s.state k ≡ some v → 0 < v

-- The delay of a key, 0 if there is none.
abbrev pub delay_of : Option ℕ → ℕ
delay_of none = 0
delay_of (some v) = v

send_at-delay_of : (now : ℕ) (o : Option ℕ) → send_at now o ≡ now + delay_of o
unfolding send_at
send_at-delay_of now none = omega arith
send_at-delay_of now (some v) = refl

-- One call, or one of the two steps of `flood`, between which others may come. The waiter hands
-- `flood` a wait of a second or more.
pub data Step {P : Type 0} (s : Scheduler P) : Scheduler P → Type 0 where
  schedules : (now : ℕ) (r : Request P) → Step s (schedule now s r)
  gathers : (now : ℕ) → Step s (gather now s []).1
  nices : (k : ℕ) → Step s (nice s k)
  flood_adds : (now : ℕ) (r : Request P) (d : ℕ) → 0 < d → Step s (flood_add now s r d)
  flood_moves : (now k d : ℕ) → 0 < d → Step s (flood_move now s k d)

pub data Reach {P : Type 0} (s : Scheduler P) : Scheduler P → Type 0 where
  here : Reach s s
  next : {t u : Scheduler P} → Reach s t → Step t u → Reach s u

module _ {P : Type 0} where
  pub add-IsHeap :
      (q : Queue P) (r : Request P) (t : ℕ)
      → IsHeap time_of q
      → IsHeap time_of (add q r t) × Perm (add q r t) (at r t ∷ q)
  unfolding add
  add-IsHeap q r t h = push-IsHeap time_of q (at r t) h

  pub new_scheduler-IsValid : (dec : ℕ) → IsValid (new_scheduler {P = P} dec)
  unfolding new_scheduler new_queue
  new_scheduler-IsValid dec = record {
    heap = λ c p q l. absurd (omega arith);
    positive = λ k v e. absurd (ground arith);
  }

  pub schedule-IsValid :
      (now : ℕ) (s : Scheduler P) (r : Request P) → IsValid s → IsValid (schedule now s r)
  unfolding schedule
  schedule-IsValid now s r v = record {
    heap = (add-IsHeap s.queue r _ v.heap).0;
    positive = v.positive;
  }

  pub gather-IsValid : (now : ℕ) (s : Scheduler P) → IsValid s → IsValid (gather now s []).1
  unfolding gather
  gather-IsValid now s v =
      let (due, q, e, g) = gather-Gathered s.queue now [] v.heap in
      record { heap = rw e g.heap; positive = v.positive }

  pub nice-IsValid : (s : Scheduler P) (k : ℕ) → IsValid s → IsValid (nice s k)
  unfolding nice lowered
  nice-IsValid s k v = record { heap = v.heap; positive = λ j w e. ground (arith, v.positive j w) }

  flood_add-IsValid :
      (now : ℕ) (s : Scheduler P) (r : Request P) (d : ℕ)
      → 0 < d
      → IsValid s
      → IsValid (flood_add now s r d)
  unfolding flood_add raised
  flood_add-IsValid now s r d pos v = record {
    heap = (add-IsHeap s.queue r (now + d) v.heap).0;
    positive = λ j w e. ground (arith, v.positive j w);
  }

  flood_move-IsValid :
      (now : ℕ) (s : Scheduler P) (k d : ℕ) → IsValid s → IsValid (flood_move now s k d)
  unfolding flood_move
  flood_move-IsValid now s k d v =
      let (m, moved, heap, same) = move-Moved s.queue k now d in
      record { heap = heap; positive = v.positive }

  pub flood-IsValid :
      (now : ℕ) (s : Scheduler P) (r : Request P) (d : ℕ)
      → 0 < d
      → IsValid s
      → IsValid (flood now s r d)
  unfolding flood
  flood-IsValid now s r d pos v =
      flood_move-IsValid now (flood_add now s r d) r.key d (flood_add-IsValid now s r d pos v)

  Step-IsValid : {s t : Scheduler P} → Step s t → IsValid s → IsValid t
  Step-IsValid {s} (schedules now r) v = schedule-IsValid now s r v
  Step-IsValid {s} (gathers now) v = gather-IsValid now s v
  Step-IsValid {s} (nices k) v = nice-IsValid s k v
  Step-IsValid {s} (flood_adds now r d p) v = flood_add-IsValid now s r d p v
  Step-IsValid {s} (flood_moves now k d p) v = flood_move-IsValid now s k d v

  IsValid-Reach : {s t : Scheduler P} → IsValid s → Reach s t → IsValid t
  IsValid-Reach v here = v
  IsValid-Reach v (next r st) = Step-IsValid st (IsValid-Reach v r)

  -- In every state that calls reach from a new scheduler, where each flood wait is positive and
  -- other calls may come between the two steps of flood, the queue is a heap by send time and
  -- no delay is zero.
  pub Reach-IsValid : (dec : ℕ) {t : Scheduler P} → Reach (new_scheduler dec) t → IsValid t
  Reach-IsValid dec r = IsValid-Reach (new_scheduler-IsValid dec) r

  -- To the queue of a valid scheduler, schedule adds its request behind the delay of its key,
  -- or at once if there is none, and changes nothing else.
  pub schedule-perm :
      (now : ℕ) (s : Scheduler P) (r : Request P)
      → IsValid s
      → Perm (schedule now s r).queue (at r (now + delay_of (s.state r.key)) ∷ s.queue)
  unfolding schedule
  schedule-perm now s r v =
      rw (← send_at-delay_of now (s.state r.key)) (add-IsHeap s.queue r _ v.heap).1

  map-shift-others :
      (k d : ℕ) (q : Queue P)
      → ((y : Scheduled P) → Mem y q → y.request.key ≢ k)
      → map (shift k d) q ≡ q
  map-shift-others k d [] h = refl
  map-shift-others k d (s ∷ q) h =
      ground (arith, h s mem-cons_self, map-shift-others k d q (λ y t. h y (mem-cons_of_mem s t)))

  -- For a valid scheduler whose queue holds no other request of the key, a flood wait of d puts
  -- its own request off twice: it is due at now + d + d, and the others keep their times.
  pub flood_doubles :
      (now : ℕ) (s : Scheduler P) (r : Request P) (d : ℕ)
      → IsValid s
      → ((y : Scheduled P) → Mem y s.queue → y.request.key ≢ r.key)
      → Perm (flood now s r d).queue (at r (now + d + d) ∷ s.queue)
  unfolding flood move
  flood_doubles now s r d v others =
      let a = add s.queue r (now + d) in
      let x = at r (now + d) in
      let (heap, same) = add-IsHeap s.queue r (now + d) v.heap in
      let moved = move_loop-map r.key now d a (λ y t e.
        Or.elim le_prop (mem-cons.0 ((Perm.mem_iff same).0 t)) (λ eq. ground arith)
          (λ m. absurd (others y m e))) in
      let mapped : map (shift r.key d) (x ∷ s.queue) ≡ at r (now + d + d) ∷ s.queue =
        ground (arith, map-shift-others r.key d s.queue others) in
      Perm.trans (init-Mends time_of (move_loop r.key now d a)).1
        (rw moved (subst (Perm (map (shift r.key d) a)) mapped (Perm.map (shift r.key d) same)))
