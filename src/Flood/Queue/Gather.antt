-- ===== src/Flood/Queue/Gather.antt =====
-- middleware/floodwait/queue.go: the loop of `gather` on a heap.
use mathlib.Core.List.{Perm, append_assoc, append-nil, not-mem-nil, mem-cons_self, mem-cons_of_mem}
use mathlib.Core.List.Perm
use tgcontrib.Base.{
  ℕ, zero, suc, ◌≤◌, ◌<◌, ◌≡◌, ◌∙◌, Bool-cases, inl, inr, List, [], ◌∷◌, ◌++◌, arith, ltb, ltb→lt,
  length,
}
use tgcontrib.Flood.Heap.{push}
use tgcontrib.Flood.Heap.Up.{IsHeap}
use tgcontrib.Flood.Heap.Ops.{AtLeast, AtLeast-perm, push-IsHeap, pop-Popped}
use tgcontrib.Flood.Queue.{Scheduled, Queue, time_of, after_pop, gather_loop, gather}

-- In the order of the times, none of them below `m` or after `now`.
abbrev pub Due : {P : Type 0} → ℕ → ℕ → List (Scheduled P) → Type 0
Due now m [] = Unit
Due now m (s ∷ l) = (m ≤ time_of s) × (time_of s ≤ now) × Due now (time_of s) l

module _ {P : Type 0} where
  -- What `gather` promises of the gathered part and of the queue that it leaves.
  pub record Gathered (now : ℕ) (q : Queue P) (m : ℕ) (due : List (Scheduled P)) (q' : Queue P)
      : Type 0 where
    pub heap : IsHeap time_of q'
    pub later : AtLeast time_of (suc now) q'
    pub due_sorted : Due now m due
    pub same : Perm (due ++ q') q

  gather_loop-Gathered :
      (f now m : ℕ) (q : Queue P) (req : List (Scheduled P))
      → length q < f
      → IsHeap time_of q
      → AtLeast time_of m q
      → (due : List (Scheduled P)) × (q' : Queue P) × (gather_loop f now q req ≡ (req ++ due, q'))
        × Gathered now q m due q'
  unfolding gather_loop
  gather_loop-Gathered zero now m q req h heap low = absurd (omega arith)
  gather_loop-Gathered (suc f) now m [] req h heap low = (
    [],
    [],
    rw append-nil,
    record {
      heap = λ c p l e. absurd (omega arith);
      later = λ y t. absurd (not-mem-nil t);
      due_sorted = tt;
      same = Perm.refl [];
    },
  )
  gather_loop-Gathered (suc f) now m (s ∷ q) req h heap low =
      let (q', x, popped, p) = pop-Popped time_of (s ∷ q) heap (omega arith) in
      elim (Bool-cases (ltb now (time_of x))) [
        | inl wait ↦
            let (heap', same') = push-IsHeap time_of q' x p.heap in
            (
              [],
              push time_of q' x,
              rw (popped, after_pop) (rw (wait, append-nil)),
              record {
                heap = heap';
                later =
                    AtLeast-perm time_of (suc now) (Perm.trans same' p.same)
                      (λ y t. omega (arith, p.least y t, ltb→lt now (time_of x) wait));
                due_sorted = tt;
                same = Perm.trans same' p.same;
              },
            )
        | inr ready ↦
            let (due, q'', e, g) =
              gather_loop-Gathered f now (time_of x) q' (req ++ x ∷ []) (omega (arith, p.size))
                p.heap (λ y t. p.least y ((Perm.mem_iff p.same).0 (mem-cons_of_mem x t))) in
            (
              x ∷ due,
              q'',
              rw (popped, after_pop) (rw ready (e ∙ rw append_assoc)),
              record {
                heap = g.heap;
                later = g.later;
                due_sorted =
                    (low x ((Perm.mem_iff p.same).0 mem-cons_self), ground arith, g.due_sorted);
                same = Perm.trans (Perm.cons x g.same) p.same;
              },
            )
      ]

  -- gather of a heap appends every request that is due, in the order of their times, to what it
  -- is given; the queue keeps all the others, each later than now, and is a heap again.
  pub gather-Gathered :
      (q : Queue P) (now : ℕ) (req : List (Scheduled P))
      → IsHeap time_of q
      → (due : List (Scheduled P)) × (q' : Queue P) × (gather q now req ≡ (req ++ due, q'))
        × Gathered now q 0 due q'
  unfolding gather
  gather-Gathered q now req h =
      gather_loop-Gathered (suc (length q)) now 0 q req (omega arith) h (λ y t. omega arith)
