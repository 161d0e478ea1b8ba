-- ===== src/Flood/Heap/Swap.antt =====
-- A swap of two entries.
use mathlib.Core.List.{Perm}
use mathlib.Core.Option.{some-injective}
use mathlib.Core.Path.{subst}
use mathlib.Core.List.Perm
use tgcontrib.Base.{
  ℕ, zero, suc, ◌<◌, ◌≡◌, refl, sym, ap, ◌∙◌, List, [], ◌∷◌, Option, none, some, arith, ◌==◌,
  if◌then◌else◌, length, get_elem?, set, length-set,
}
use tgcontrib.Flood.Heap.{swap, put_both}

module _ {ℓ} {A : Type ℓ} where
  pub get_elem?-some : (a : List A) (i : ℕ) → i < length a → (x : A) × (get_elem? a i ≡ some x)
  get_elem?-some [] i h = absurd (omega arith)
  get_elem?-some (x ∷ a) zero h = (x, refl)
  get_elem?-some (x ∷ a) (suc i) h = get_elem?-some a i (omega arith)

  pub get_elem?-set :
      (a : List A) (i j : ℕ) (v : A)
      → i < length a
      → get_elem? (set a i v) j ≡ (if i == j then some v else get_elem? a j)
  get_elem?-set [] i j v h = absurd (omega arith)
  get_elem?-set (x ∷ a) zero zero v h = refl
  get_elem?-set (x ∷ a) zero (suc j) v h = ground arith
  get_elem?-set (x ∷ a) (suc i) zero v h = ground arith
  get_elem?-set (x ∷ a) (suc i) (suc j) v h = ground (arith, get_elem?-set a i j v)

  -- The written entry takes the place of the old one.
  set-perm : (a : List A) (i : ℕ) (x v : A) → get_elem? a i ≡ some x → Perm (x ∷ set a i v) (v ∷ a)
  set-perm [] i x v h = absurd (ground arith)
  set-perm (y ∷ a) zero x v h =
      subst (λ w. Perm (x ∷ v ∷ a) (v ∷ w ∷ a)) (some-injective x y (sym h)) (Perm.swap v x a)
  set-perm (y ∷ a) (suc i) x v h =
      Perm.trans (Perm.swap y x (set a i v))
        (Perm.trans (Perm.cons y (set-perm a i x v h)) (Perm.swap v y a))

  length-put_both : (a : List A) (i j : ℕ) (x y : Option A) → length (put_both a i j x y) ≡ length a
  unfolding put_both
  length-put_both a i j (some x) (some y) = length-set (set a i y) j x ∙ length-set a i y
  length-put_both a i j (some x) none = refl
  length-put_both a i j none y = refl

  pub length-swap : (a : List A) (i j : ℕ) → length (swap a i j) ≡ length a
  unfolding swap
  length-swap a i j = length-put_both a i j (get_elem? a i) (get_elem? a j)

  module _ (a : List A) (i j : ℕ) (hi : i < length a) (hj : j < length a) where
    pub get_elem?-swap :
        (c : ℕ)
        → get_elem? (swap a i j) c
          ≡ (if j == c then get_elem? a i else if i == c then get_elem? a j else get_elem? a c)
    unfolding swap
    get_elem?-swap c =
        let (x, ex) = get_elem?-some a i hi in
        let (y, ey) = get_elem?-some a j hj in
        let b = set a i y in
        rw (ex, ey, put_both)
          (get_elem?-set b j c x (omega (arith, length-set a i y))
            ∙ ap (λ o. if j == c then some x else o) (get_elem?-set a i c y hi))

    pub swap-perm : Perm (swap a i j) a
    unfolding swap
    swap-perm =
        let (x, ex) = get_elem?-some a i hi in
        let (y, ey) = get_elem?-some a j hj in
        let b = set a i y in
        let kept : get_elem? b j ≡ some y = ground (arith, get_elem?-set a i j y) in
        let both = Perm.trans (set-perm b j y x kept) (set-perm a i x y ex) in
        rw (ex, ey, put_both) (Perm.cons_inv both)
