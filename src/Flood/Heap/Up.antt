-- ===== src/Flood/Heap/Up.antt =====
-- container/heap: `up` on a heap whose entry at one place may be too small for it.
use mathlib.Core.List.{Perm}
use mathlib.Core.List.Perm
use tgcontrib.Base.{
  ℕ, zero, suc, ◌≤◌, ◌<◌, ◌≡◌, ◌≢◌, List, Bool-cases, inl, inr, not, ◌||◌, arith, ◌==◌,
  if◌then◌else◌, length,
}
use tgcontrib.Flood.Heap.{parent, swap, key_at, less, up}
use tgcontrib.Flood.Heap.Swap.{length-swap, get_elem?-swap, swap-perm}

module _ {ℓ} {A : Type ℓ} (key : A → ℕ) where
  -- Below `n`, every entry whose parent is at `lo` or later is no smaller than its parent.
  abbrev pub Ordered : ℕ → ℕ → List A → Type 0
  Ordered lo n a =
      (c : ℕ) → 0 < c → c < n → lo ≤ parent c → key_at key a (parent c) ≤ key_at key a c

  abbrev pub IsHeap : List A → Type 0
  IsHeap a = Ordered 0 (length a) a

  -- The keys behind a swap.
  pub key_at-swap :
      (a : List A) (i j c : ℕ)
      → i < length a
      → j < length a
      → key_at key (swap a i j) c
        ≡ (if j == c then key_at key a i else if i == c then key_at key a j else key_at key a c)
  key_at-swap a i j c hi hj = rw (get_elem?-swap a i j hi hj c) (ground arith)

  pub record Rises (a : List A) (j : ℕ) : Type 0 where
    pub inside : j < length a
    pub others : (c : ℕ) → 0 < c → c < length a → c ≢ j → key_at key a (parent c) ≤ key_at key a c
    pub across :
        (c : ℕ)
        → 0 < c
        → c < length a
        → parent c ≡ j
        → 0 < j
        → key_at key a (parent j) ≤ key_at key a c

  abbrev pub Mends : List A → List A → Type ℓ
  Mends a b = IsHeap b × Perm b a

  parent_lt : (c : ℕ) → 0 < c → parent c < c
  parent_lt c h = omega arith

  swap-Rises :
      (a : List A) (j : ℕ)
      → Rises a j
      → 0 < j
      → key_at key a j < key_at key a (parent j)
      → Rises (swap a (parent j) j) (parent j)
  swap-Rises a j r pos below =
      let i = parent j in
      let size = length-swap a i j in
      let hi : i < length a = omega (arith, r.inside) in
      let at = λ (c : ℕ). key_at-swap a i j c hi r.inside in
      record {
        inside = omega (arith, r.inside);
        others = λ c p q t. ground (arith, at c, at (parent c), r.others c, r.across c);
        across =
            λ c p q t u. ground (arith, at c, at (parent i), r.others c, r.others i, parent_lt c);
      }

  pub up-Mends : (f : ℕ) (a : List A) (j : ℕ) → j < f → Rises a j → Mends a (up key f a j)
  unfolding up
  up-Mends zero a j h r = absurd (omega arith)
  up-Mends (suc f) a j h r = elim (Bool-cases (parent j == j || not (less key a j (parent j)))) [
    | inl stop ↦ rw stop ((λ c p q l. ground (arith, r.others c)), Perm.refl a)
    | inr rise ↦
        let pos : 0 < j = ground arith in
        let hi : parent j < length a = omega (arith, r.inside) in
        let (ordered, same) =
          up-Mends f (swap a (parent j) j) (parent j) (omega arith)
            (swap-Rises a j r pos (ground arith)) in
        rw rise (ordered, Perm.trans same (swap-perm a (parent j) j hi r.inside))
  ]
