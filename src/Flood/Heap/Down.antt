-- ===== src/Flood/Heap/Down.antt =====
-- container/heap: `down` on a heap whose entry at one place may be too large for it.
use mathlib.Core.List.{Perm}
use mathlib.Core.List.Perm
use tgcontrib.Base.{
  ℕ, zero, suc, ◌+◌, ◌-◌, ◌*◌, ◌/◌, ◌≤◌, ◌<◌, ◌≡◌, ◌≢◌, ◌⊎◌, ◌∙◌, refl, List, Bool-cases, inl, inr,
  arith, leb, length, get_elem?,
}
use tgcontrib.Flood.Heap.{parent, swap, key_at, less, child, down, init_loop, init}
use tgcontrib.Flood.Heap.Swap.{length-swap, get_elem?-swap, swap-perm}
use tgcontrib.Flood.Heap.Up.{Ordered, key_at-swap}

module _ {ℓ} {A : Type ℓ} (key : A → ℕ) where
  pub record Sinks (lo n : ℕ) (a : List A) (i : ℕ) : Type 0 where
    pub bound : n ≤ length a
    pub others :
        (c : ℕ)
        → 0 < c
        → c < n
        → lo ≤ parent c
        → parent c ≢ i
        → key_at key a (parent c) ≤ key_at key a c
    pub across :
        (c : ℕ)
        → 0 < c
        → c < n
        → parent c ≡ i
        → 0 < i
        → lo ≤ parent i
        → key_at key a (parent i) ≤ key_at key a c

  pub record Mended (lo n : ℕ) (a b : List A) : Type ℓ where
    pub ordered : Ordered key lo n b
    pub same : Perm b a
    pub size : length b ≡ length a
    pub rest : (c : ℕ) → n ≤ c → get_elem? b c ≡ get_elem? a c

  record IsLeastChild (a : List A) (i n j : ℕ) : Type 0 where
    place : (j ≡ 2 * i + 1) ⊎ (j ≡ 2 * i + 2)
    inside : j < n
    least : (c : ℕ) → 0 < c → c < n → parent c ≡ i → key_at key a j ≤ key_at key a c

  children : (c i : ℕ) → 0 < c → parent c ≡ i → (c ≡ 2 * i + 1) ⊎ (c ≡ 2 * i + 1 + 1)
  children c i p e = omega arith

  child-IsLeastChild : (a : List A) (i n : ℕ) → 2 * i + 1 < n → IsLeastChild a i n (child key a i n)
  unfolding child
  child-IsLeastChild a i n h = record {
    place = ground arith;
    inside = ground arith;
    least = λ c p q e. elim (children c i p e) [ inl l ↦ ground arith | inr r ↦ ground arith ];
  }

  swap-Sinks :
      (lo n : ℕ) (a : List A) (i j : ℕ)
      → Sinks lo n a i
      → IsLeastChild a i n j
      → key_at key a j < key_at key a i
      → Sinks lo n (swap a i j) j
  swap-Sinks lo n a i j s m below =
      let hj : j < length a = omega (arith, m.inside, s.bound) in
      let hi : i < length a = omega (arith, m.place) in
      let at = λ (c : ℕ). key_at-swap key a i j c hi hj in
      record {
        bound = omega (arith, length-swap a i j, s.bound);
        others = λ c p q l t. ground (
          arith,
          at c,
          at (parent c),
          s.others c,
          s.across j,
          s.across c,
          m.least c,
          m.place,
          m.inside,
        );
        across = λ c p q e u l. ground (arith, at c, at (parent j), s.others c, m.place, m.inside);
      }

  Mended-refl : (lo n : ℕ) (a : List A) → Ordered key lo n a → Mended lo n a a
  Mended-refl lo n a h = record { ordered = h; same = Perm.refl a; size = refl; rest = λ c p. refl }

  Mended-swap :
      (lo n : ℕ) (a : List A) (i j : ℕ) {b : List A}
      → i < length a
      → j < length a
      → i < n
      → j < n
      → Mended lo n (swap a i j) b
      → Mended lo n a b
  Mended-swap lo n a i j hi hj ni nj m = record {
    ordered = m.ordered;
    same = Perm.trans m.same (swap-perm a i j hi hj);
    size = m.size ∙ length-swap a i j;
    rest = λ c p. m.rest c p ∙ get_elem?-swap a i j hi hj c ∙ ground arith;
  }

  pub down-Mended :
      (f lo n : ℕ) (a : List A) (i : ℕ)
      → n - i < f
      → Sinks lo n a i
      → Mended lo n a (down key f a i n)
  unfolding down
  down-Mended zero lo n a i h s = absurd (omega arith)
  down-Mended (suc f) lo n a i h s = elim (Bool-cases (leb n (2 * i + 1))) [
    | inl leaf ↦ rw leaf (Mended-refl lo n a (λ c p q l. s.others c p q l (ground arith)))
    | inr inner ↦
        let j = child key a i n in
        let m = child-IsLeastChild a i n (ground arith) in
        elim (Bool-cases (less key a j i)) [
          | inl falls ↦
              let hj : j < length a = omega (arith, m.inside, s.bound) in
              let hi : i < length a = omega (arith, m.place) in
              rw (inner, falls)
                (Mended-swap lo n a i j hi hj (omega (arith, m.place)) m.inside (
                  down-Mended f lo n (swap a i j) j (omega (arith, m.place, m.inside))
                    (swap-Sinks lo n a i j s m (ground arith))))
          | inr stays ↦
              rw (inner, stays)
                (Mended-refl lo n a (λ c p q l. ground (arith, s.others c, m.least c)))
        ]
  ]

  -- Each round of `Init` puts one more parent in order, from the last one down to the root.
  init_loop-Mended :
      (n i : ℕ) (a : List A) → length a ≡ n → Ordered key i n a → Mended 0 n a (init_loop key n i a)
  unfolding init_loop
  init_loop-Mended n zero a e h = Mended-refl 0 n a h
  init_loop-Mended n (suc i) a e h =
      let d = down-Mended (suc n) i n a i (omega arith) (record {
        bound = omega arith;
        others = λ c p q l e. h c p q (omega arith);
        across = λ c p q e u l. absurd (omega arith);
      }) in
      let r = init_loop-Mended n i (down key (suc n) a i n) (d.size ∙ e) d.ordered in
      record {
        ordered = r.ordered;
        same = Perm.trans r.same d.same;
        size = r.size ∙ d.size;
        rest = λ c p. r.rest c p ∙ d.rest c p;
      }

  -- `Init` makes a heap of the same entries from any slice.
  pub init-Mended : (a : List A) → Mended 0 (length a) a (init key a)
  unfolding init
  init-Mended a =
      init_loop-Mended (length a) (length a / 2) a refl (λ c p q l. absurd (omega arith))
