-- ===== src/Flood/Queue/Order.antt =====
-- middleware/floodwait/queue.go: what `gather` takes out does not depend on the shape of the heap.
use mathlib.Core.List.{Perm, map-append, mem-cons_self, mem-cons_of_mem}
use mathlib.Core.List.Perm
use native.Mathlib.Decide.{dec_lt}
use tgcontrib.Base.{ℕ, suc, ◌+◌, ◌<◌, ◌≡◌, refl, List, [], ◌∷◌, map, arith}
use tgcontrib.Base.Counts.{count, count-append, count-perm, SortedFrom, sorted_unique}
use tgcontrib.Flood.Heap.Up.{IsHeap}
use tgcontrib.Flood.Heap.Ops.{AtLeast}
use tgcontrib.Flood.Queue.{Scheduled, Queue, time_of, gather}
use tgcontrib.Flood.Queue.Gather.{Due, Gathered, gather-Gathered}

module _ {P : Type 0} where
  abbrev pub times : List (Scheduled P) → List ℕ
  times l = map time_of l

  times-SortedFrom : (now m : ℕ) (l : List (Scheduled P)) → Due now m l → SortedFrom m (times l)
  times-SortedFrom now m [] d = tt
  times-SortedFrom now m (s ∷ l) d = (d.0, times-SortedFrom now (time_of s) l d.2)

  count-Due : (now m x : ℕ) (l : List (Scheduled P)) → Due now m l → now < x → count x (times l) ≡ 0
  count-Due now m x [] d h = refl
  count-Due now m x (s ∷ l) d h = ground (arith, count-Due now (time_of s) x l d.2 h)

  count-AtLeast : (n x : ℕ) (q : Queue P) → AtLeast time_of n q → x < n → count x (times q) ≡ 0
  count-AtLeast n x [] a h = refl
  count-AtLeast n x (s ∷ q) a h =
      ground (arith, a s mem-cons_self, count-AtLeast n x q (λ y t. a y (mem-cons_of_mem s t)) h)

  count-Gathered :
      (now x : ℕ) (q due rest : List (Scheduled P))
      → Gathered now q 0 due rest
      → count x (times due) + count x (times rest) ≡ count x (times q)
  count-Gathered now x q due rest g = omega (
    arith,
    count-append x (times due) (times rest),
    count-perm x (rw map-append at (Perm.map time_of g.same)),
  )

  -- Of two gatherings of the same entries, the due ones have the same times.
  same_counts :
      (now x : ℕ) (q r due due' rest rest' : List (Scheduled P))
      → Perm q r
      → Gathered now q 0 due rest
      → Gathered now r 0 due' rest'
      → (count x (times due) ≡ count x (times due'))
        × (count x (times rest) ≡ count x (times rest'))
  same_counts now x q r due due' rest rest' p g h =
      let a = count-Gathered now x q due rest g in
      let b = count-Gathered now x r due' rest' h in
      let c = count-perm x (Perm.map time_of p) in
      elim (dec_lt now x) [
        | yes l ↦
            let d = count-Due now 0 x due g.due_sorted l in
            let d' = count-Due now 0 x due' h.due_sorted l in
            (omega (arith, d, d'), omega (arith, a, b, c, d, d'))
        | no l ↦
            let d = count-AtLeast (suc now) x rest g.later (omega arith) in
            let d' = count-AtLeast (suc now) x rest' h.later (omega arith) in
            (omega (arith, a, b, c, d, d'), omega (arith, d, d'))
      ]

  -- From two heaps with the same entries, in whatever order their slices hold them, gather
  -- takes out the same times in the same order, and of the times that it leaves each is in both
  -- queues as often.
  pub gather_order :
      (now : ℕ) (q r : Queue P)
      → IsHeap time_of q
      → IsHeap time_of r
      → Perm q r
      → (times (gather q now []).0 ≡ times (gather r now []).0)
        × ((x : ℕ) → count x (times (gather q now []).1) ≡ count x (times (gather r now []).1))
  gather_order now q r hq hr p =
      let (due, rest, e, g) = gather-Gathered q now [] hq in
      let (due', rest', e', g') = gather-Gathered r now [] hr in
      rw (e, e')
        (
          sorted_unique 0 0 (times due) (times due') (times-SortedFrom now 0 due g.due_sorted)
              (times-SortedFrom now 0 due' g'.due_sorted)
              (λ x. (same_counts now x q r due due' rest rest' p g g').0),
          λ x. (same_counts now x q r due due' rest rest' p g g').1,
        )
