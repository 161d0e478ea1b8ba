-- ===== src/Base/Slices.antt =====
-- Slices of a list: a window of it is dropped, taken or put back.
use native.Mathlib.Nat.{zero-add}
use tgcontrib.Base.{
  ℕ, zero, suc, ◌+◌, ◌≤◌, ◌≡◌, refl, ap, ◌∙◌, List, [], ◌∷◌, ◌++◌, arith, length, take, drop,
}

module _ {ℓ} {A : Type ℓ} where
  pub drop-nil : (n : ℕ) → drop {A = A} n [] ≡ []
  drop-nil zero = refl
  drop-nil (suc n) = refl

  pub drop-drop : (m n : ℕ) (xs : List A) → drop m (drop n xs) ≡ drop (n + m) xs
  drop-drop m zero xs = rw zero-add
  drop-drop zero (suc n) [] = ground (arith, drop-nil (suc n + 0))
  drop-drop (suc m) (suc n) [] = ground (arith, drop-nil (suc n + suc m))
  drop-drop m (suc n) (x ∷ xs) =
      let e : suc (n + m) ≡ suc n + m = omega arith in
      drop-drop m n xs ∙ ap (λ k. drop k (x ∷ xs)) e

  pub drop_past_end : (n : ℕ) (xs : List A) → length xs ≤ n → drop n xs ≡ []
  drop_past_end zero [] h = refl
  drop_past_end zero (x ∷ xs) h = absurd (omega arith)
  drop_past_end (suc n) [] h = refl
  drop_past_end (suc n) (x ∷ xs) h = drop_past_end n xs (omega arith)

  pub take_all : (n : ℕ) (xs : List A) → length xs ≤ n → take n xs ≡ xs
  take_all zero [] h = refl
  take_all zero (x ∷ xs) h = absurd (omega arith)
  take_all (suc n) [] h = refl
  take_all (suc n) (x ∷ xs) h = ap (◌∷◌ x) (take_all n xs (omega arith))

  -- A window and what follows it.
  pub window-append-drop :
      (s n : ℕ) (xs : List A) → s ≤ n → drop s (take n xs) ++ drop n xs ≡ drop s xs
  window-append-drop zero zero xs h = refl
  window-append-drop zero (suc n) [] h = refl
  window-append-drop zero (suc n) (x ∷ xs) h =
      ap (◌∷◌ x) (window-append-drop zero n xs (omega arith))
  window-append-drop (suc s) zero xs h = absurd (omega arith)
  window-append-drop (suc s) (suc n) [] h = refl
  window-append-drop (suc s) (suc n) (x ∷ xs) h = window-append-drop s n xs (omega arith)
