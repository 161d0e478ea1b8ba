-- ===== src/Flood/Queue/Move.antt =====
-- middleware/floodwait/queue.go: the loop of `move` and the heap behind it.
use mathlib.Core.List.{Perm, Mem, mem-cons_self, mem-cons_of_mem}
use tgcontrib.Base.{
  ℕ, ◌+◌, ◌≤◌, ◌<◌, ◌≡◌, ◌≢◌, ◌⊎◌, inl, inr, refl, Bool-cases, false, [], ◌∷◌, ◌++◌, map, arith,
  ltb, ◌==◌, if◌then◌else◌,
}
use tgcontrib.Flood.Heap.Up.{IsHeap}
use tgcontrib.Flood.Heap.Ops.{init-Mends}
use tgcontrib.Flood.Queue.{Scheduled, Queue, time_of, move_loop, move}

module _ {P : Type 0} where
  -- The same requests in the same places; some of those of the key are later by `dur`.
  abbrev pub Moved : ℕ → ℕ → Queue P → Queue P → Type 0
  Moved k dur [] [] = Unit
  Moved k dur [] (t ∷ r) = ⊥
  Moved k dur (s ∷ q) [] = ⊥
  Moved k dur (s ∷ q) (t ∷ r) =
      (t.request ≡ s.request)
      × ((t.send_time ≡ s.send_time) ⊎ (s.request.key ≡ k) × (t.send_time ≡ s.send_time + dur))
      × Moved k dur q r

  Moved-refl : (k dur : ℕ) (q : Queue P) → Moved k dur q q
  Moved-refl k dur [] = tt
  Moved-refl k dur (s ∷ q) = (refl, inl refl, Moved-refl k dur q)

  move_loop-Moved : (k now dur : ℕ) (q : Queue P) → Moved k dur q (move_loop k now dur q)
  unfolding move_loop
  move_loop-Moved k now dur [] = tt
  move_loop-Moved k now dur (s ∷ q) = elim (Bool-cases (s.request.key == k)) [
    | inr other ↦ rw other (refl, inl refl, move_loop-Moved k now dur q)
    | inl same ↦ elim (Bool-cases (ltb (now + dur) s.send_time)) [
      | inl stop ↦ rw (same, stop) (refl, inl refl, Moved-refl k dur q)
      | inr late ↦ rw (same, late) (refl, inr (ground arith, refl), move_loop-Moved k now dur q)
    ]
  ]

  -- move leaves a heap of the requests of the queue, where only times of the key have changed,
  -- each by the duration.
  pub move-Moved :
      (q : Queue P) (k now dur : ℕ)
      → (r : Queue P) × Moved k dur q r
        × IsHeap time_of (move q k now dur)
        × Perm (move q k now dur) r
  unfolding move
  move-Moved q k now dur =
      let r = move_loop k now dur q in
      let (heap, same) = init-Mends time_of r in (r, move_loop-Moved k now dur q, heap, same)

  -- Nothing of the key is later than `m`.
  abbrev pub Within : ℕ → ℕ → Queue P → Type 0
  Within k m q = (y : Scheduled P) → Mem y q → y.request.key ≡ k → time_of y ≤ m

  abbrev pub shift : ℕ → ℕ → Scheduled P → Scheduled P
  shift k dur s = if s.request.key == k then record s { send_time = s.send_time + dur } else s

  -- Where nothing of the key is later than `now + dur` the loop does not break, and every request
  -- of the key is put off by `dur`.
  pub move_loop-map :
      (k now dur : ℕ) (q : Queue P)
      → Within k (now + dur) q
      → move_loop k now dur q ≡ map (shift k dur) q
  unfolding move_loop
  move_loop-map k now dur [] h = refl
  move_loop-map k now dur (s ∷ q) h =
      let rest = move_loop-map k now dur q (λ y t. h y (mem-cons_of_mem s t)) in
      elim (Bool-cases (s.request.key == k)) [
        | inr other ↦ rw (other, rest)
        | inl same ↦
            let le : time_of s ≤ now + dur = h s mem-cons_self (ground arith) in
            let late : ltb (now + dur) s.send_time ≡ false = ground arith in rw (same, late, rest)
      ]

  -- The loop of move breaks at the first request of the key that is later than now plus the
  -- duration, and leaves all that stands behind it in the slice as it is, also what is due
  -- before.
  pub move_loop_stops :
      (k now dur : ℕ) (front : Queue P) (s : Scheduled P) (back : Queue P)
      → ((y : Scheduled P) → Mem y front → y.request.key ≢ k)
      → s.request.key ≡ k
      → now + dur < time_of s
      → move_loop k now dur (front ++ s ∷ back) ≡ front ++ s ∷ back
  unfolding move_loop
  move_loop_stops k now dur [] s back h e late = ground arith
  move_loop_stops k now dur (x ∷ front) s back h e late = ground (
    arith,
    h x mem-cons_self,
    move_loop_stops k now dur front s back (λ y t. h y (mem-cons_of_mem x t)) e late,
  )
