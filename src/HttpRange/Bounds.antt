-- ===== src/HttpRange/Bounds.antt =====
-- http_range/range.go: the bounds of the returned ranges.
use mathlib.Core.Path.{subst}
use tgcontrib.Base.{
  ℕ, ◌+◌, ◌≤◌, ◌≡◌, refl, Bool, true, false, Bool-cases, inl, inr, List, [], ◌∷◌, ◌++◌, arith,
  Bytes, length, drop,
}
use tgcontrib.Base.Text.{has_prefix}
use tgcontrib.HttpRange.{
  Range, ok, err, invalid, Outcome, skip, bad, outside, found, trim, parse_spec, parse_specs,
  finish, parse_range, split, bytes_unit,
}

-- Inside the content, and empty only at its end.
pub record IsWithin (size : ℕ) (r : Range) : Type 0 where
  pub inside : r.start + r.length ≤ size
  pub empty_at_end : r.length ≡ 0 → r.start ≡ size

abbrev pub All {ℓ κ} : {A : Type ℓ} → (A → Type κ) → List A → Type κ
All P [] = Unit
All P (x ∷ xs) = P x × All P xs

All-concat {ℓ κ} :
    {A : Type ℓ} (P : A → Type κ) (xs : List A) (x : A) → All P xs → P x → All P (xs ++ x ∷ [])
All-concat P [] x h p = (p, tt)
All-concat P (y ∷ xs) x h p = (h.0, All-concat P xs x h.1 p)

-- To split on an outcome and keep the equation.
data IsOutcome (o : Outcome) : Type 0 where
  skips : o ≡ skip → IsOutcome o
  fails : o ≡ bad → IsOutcome o
  misses : o ≡ outside → IsOutcome o
  finds : (r : Range) → o ≡ found r → IsOutcome o

Outcome-cases : (o : Outcome) → IsOutcome o
Outcome-cases skip = skips refl
Outcome-cases bad = fails refl
Outcome-cases outside = misses refl
Outcome-cases (found r) = finds r refl

ok_injective : {rs rs' : List Range} → ok rs ≡ ok rs' → rs ≡ rs'
ok_injective h = cc

invalid_not_ok : (rs : List Range) → err invalid ≡ ok rs → ⊥
invalid_not_ok rs h = cc

parse_spec-IsWithin :
    (size : ℕ) (ra : Bytes) (r : Range) → parse_spec size ra ≡ found r → IsWithin size r
unfolding parse_spec
parse_spec-IsWithin size [] r h = absurd (ground arith)
parse_spec-IsWithin size (c ∷ ra) r h = ground arith

finish-IsWithin :
    (size : ℕ) (missed : Bool) (ranges rs : List Range)
    → finish missed ranges ≡ ok rs
    → All (IsWithin size) ranges
    → All (IsWithin size) rs
finish-IsWithin size true [] rs h a = absurd (ground arith)
finish-IsWithin size true (r ∷ ranges) rs h a = subst (All (IsWithin size)) (ok_injective h) a
finish-IsWithin size false ranges rs h a = subst (All (IsWithin size)) (ok_injective h) a

parse_specs-IsWithin :
    (size : ℕ) (ras : List Bytes) (ranges : List Range) (missed : Bool) (rs : List Range)
    → All (IsWithin size) ranges
    → parse_specs size ras ranges missed ≡ ok rs
    → All (IsWithin size) rs
unfolding parse_specs
parse_specs-IsWithin size [] ranges missed rs a h = finish-IsWithin size missed ranges rs h a
parse_specs-IsWithin size (ra ∷ ras) ranges missed rs a h =
    elim (Outcome-cases (parse_spec size (trim ra))) [
      | skips e ↦ parse_specs-IsWithin size ras ranges missed rs a (rw (e, parse_specs) at h)
      | fails e ↦ absurd (invalid_not_ok rs (rw (e, parse_specs) at h))
      | misses e ↦ parse_specs-IsWithin size ras ranges true rs a (rw (e, parse_specs) at h)
      | finds r e ↦
          parse_specs-IsWithin size ras (ranges ++ r ∷ []) missed rs
            (All-concat (IsWithin size) ranges r a (parse_spec-IsWithin size (trim ra) r e))
            (rw (e, parse_specs) at h)
    ]

-- Each range of a parsed header lies in the content, and one of no bytes stands at its end.
pub parse_range-IsWithin :
    (s : Bytes) (size : ℕ) (rs : List Range) → parse_range s size ≡ ok rs → All (IsWithin size) rs
unfolding parse_range
parse_range-IsWithin [] size rs h = subst (All (IsWithin size)) (ok_injective {rs = []} h) tt
parse_range-IsWithin (c ∷ s) size rs h = elim (Bool-cases (has_prefix (c ∷ s) bytes_unit)) [
  | inl p ↦
      parse_specs-IsWithin size (split b',' (drop (length bytes_unit) (c ∷ s))) [] false rs tt
        (rw p at h)
  | inr p ↦ absurd (invalid_not_ok rs (rw p at h))
]
