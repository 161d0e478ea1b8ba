-- ===== src/Base/Counts.antt =====
-- How often a number stands in a list, and sorted lists by it.
use mathlib.Core.List.{Perm, Permᴰ, List, [], ◌∷◌, ◌++◌}
use mathlib.Core.Path.{◌≡◌, refl, sym}
use mathlib.Core.Logic.{∥∥₁_elim}
use native.Mathlib.Nat.{ℕ_set}
use native.Mathlib.Omega.{arith}
use native.Mathlib.Decide.{dec_lt}
use Prim.Native.Nat.{ℕ, suc, ◌+◌, ◌≤◌, ◌<◌}
use tgcontrib.Base.Tests.{◌==◌, if◌then◌else◌}

abbrev pub count : ℕ → List ℕ → ℕ
count x [] = 0
count x (y ∷ l) = (if x == y then 1 else 0) + count x l

pub count-append : (x : ℕ) (l m : List ℕ) → count x (l ++ m) ≡ count x l + count x m
count-append x [] m = omega arith
count-append x (y ∷ l) m = omega (arith, count-append x l m)

count-Permᴰ : (x : ℕ) {l m : List ℕ} → Permᴰ l m → count x l ≡ count x m
count-Permᴰ x Permᴰ.nil = refl
count-Permᴰ x (Permᴰ.cons e p) = ground (arith, e, count-Permᴰ x p)
count-Permᴰ x (Permᴰ.swap e f) = ground (arith, e, f)
count-Permᴰ x (Permᴰ.trans p q) = omega (arith, count-Permᴰ x p, count-Permᴰ x q)

pub count-perm : (x : ℕ) {l m : List ℕ} → Perm l m → count x l ≡ count x m
count-perm x p = ∥∥₁_elim p (ℕ_set _ _) (count-Permᴰ x)

pub count-middle :
    (x : ℕ) (a : List ℕ) (p : ℕ) (b : List ℕ)
    → count x (a ++ p ∷ b) ≡ count x (a ++ b) + count x (p ∷ [])
count-middle x a p b = ground (arith, count-append x a (p ∷ b), count-append x a b)

-- In order, none below `m`.
abbrev pub SortedFrom : ℕ → List ℕ → Type 0
SortedFrom m [] = Unit
SortedFrom m (x ∷ l) = (m ≤ x) × SortedFrom x l

count_below : (x m : ℕ) (l : List ℕ) → SortedFrom m l → x < m → count x l ≡ 0
count_below x m [] s h = refl
count_below x m (y ∷ l) s h = ground (arith, count_below x y l s.1 (omega (arith, s.0, h)))

count_self : (x : ℕ) (l : List ℕ) → count x (x ∷ l) ≡ suc (count x l)
count_self x l = ground arith

head-le :
    (x y m : ℕ) (l k : List ℕ) → SortedFrom m (y ∷ k) → count x (x ∷ l) ≡ count x (y ∷ k) → y ≤ x
head-le x y m l k s h = elim (dec_lt x y) [
  | yes p ↦ absurd (omega (arith, h, count_self x l, count_below x y (y ∷ k) (omega arith, s.1) p))
  | no p ↦ omega arith
]

-- A sorted list is known by its counts.
pub sorted_unique :
    (m n : ℕ) (l k : List ℕ)
    → SortedFrom m l
    → SortedFrom n k
    → ((x : ℕ) → count x l ≡ count x k)
    → l ≡ k
sorted_unique m n [] [] s t h = refl
sorted_unique m n [] (y ∷ k) s t h = absurd (omega (arith, h y, count_self y k))
sorted_unique m n (x ∷ l) [] s t h = absurd (omega (arith, h x, count_self x l))
sorted_unique m n (x ∷ l) (y ∷ k) s t h =
    let e : x ≡ y = omega (arith, head-le x y n l k t (h x), head-le y x m k l s (sym (h y))) in
    let rest = sorted_unique x y l k s.1 t.1 (λ z. ground (arith, h z, e)) in rw (e, rest) refl
