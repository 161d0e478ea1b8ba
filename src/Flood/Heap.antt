-- ===== src/Flood/Heap.antt =====
-- Go's container/heap over a slice, ordered by a number of each entry. `Less` of the slice compares
-- these numbers. The loops run on fuel; their callers give enough of it, and no index that they
-- reach is out of range.
pub mod Swap
pub mod Up
pub mod Down
pub mod Ops
use tgcontrib.Base.{
  ℕ, zero, suc, ◌+◌, ◌-◌, ◌*◌, ◌/◌, Bool, true, false, not, ◌&&◌, ◌||◌, List, [], ◌∷◌, ◌++◌, Option,
  none, some, ltb, leb, ◌==◌, if◌then◌else◌, length, get_elem?, set,
}

abbrev pub parent : ℕ → ℕ
parent j = (j - 1) / 2

-- `r[i], r[j] = r[j], r[i]`
put_both {ℓ} : {A : Type ℓ} → List A → ℕ → ℕ → Option A → Option A → List A
put_both a i j (some x) (some y) = set (set a i y) j x
put_both a i j _ _ = a

unfoldable pub swap {ℓ} : {A : Type ℓ} → List A → ℕ → ℕ → List A
unfolding put_both
swap a i j = put_both a i j (get_elem? a i) (get_elem? a j)

module _ {ℓ} {A : Type ℓ} (key : A → ℕ) where
  abbrev key_of : Option A → ℕ
  key_of none = 0
  key_of (some x) = key x

  abbrev pub key_at : List A → ℕ → ℕ
  key_at a i = key_of (get_elem? a i)

  abbrev pub less : List A → ℕ → ℕ → Bool
  less a i j = ltb (key_at a i) (key_at a j)

  unfoldable pub up : ℕ → List A → ℕ → List A
  up zero a j = a
  up (suc f) a j =
      let i = parent j in
      let rise = up f (swap a i j) i in if i == j || not (less a j i) then a else rise

  -- the smaller child of `i` below `n`, where the left one exists
  unfoldable pub child : List A → ℕ → ℕ → ℕ
  child a i n = let j1 = 2 * i + 1 in let j2 = j1 + 1 in if ltb j2 n && less a j2 j1 then j2 else j1

  unfoldable pub down : ℕ → List A → ℕ → ℕ → List A
  down zero a i n = a
  down (suc f) a i n =
      let j = child a i n in
      let sink = down f (swap a i j) j n in
      if leb n (2 * i + 1) then a else if not (less a j i) then a else sink

  -- `for i := n/2 - 1; i >= 0; i--`, with the rounds left
  unfoldable pub init_loop : ℕ → ℕ → List A → List A
  init_loop n zero a = a
  init_loop n (suc i) a = init_loop n i (down (suc n) a i n)

  unfoldable pub init : List A → List A
  unfolding init_loop down child
  init a = init_loop (length a) (length a / 2) a

  unfoldable pub push : List A → A → List A
  unfolding up
  push a x = let b = a ++ x ∷ [] in up (length b) b (length b - 1)

-- `old[0 : n-1]` and `old[n-1]`
unfoldable pub split_last {ℓ} : {A : Type ℓ} → List A → Option (List A × A)
split_last [] = none
split_last (x ∷ []) = some ([], x)
split_last (x ∷ y ∷ a) = elim (split_last (y ∷ a)) [ none ↦ none | some (b, z) ↦ some (x ∷ b, z) ]

-- `Pop`; `none` is the panic on an empty slice.
unfoldable pub pop {ℓ} : {A : Type ℓ} (key : A → ℕ) → List A → Option (List A × A)
unfolding swap down child split_last
pop key a = let n = length a - 1 in split_last (down key (suc n) (swap a 0 n) 0 n)
