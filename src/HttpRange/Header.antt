-- ===== src/HttpRange/Header.antt =====
-- http_range/range.go: the headers of RFC 7233, lists of byte-range-specs.
use mathlib.Core.List.{append_assoc, append-nil}
use tgcontrib.Base.{
  ℕ, ◌≡◌, refl, ◌∙◌, Bool, true, false, ◌||◌, List, [], ◌∷◌, ◌++◌, map, Option, none, some, arith,
  Option-cases, inl, inr, Bytes,
}
use tgcontrib.Base.Decimal.{Lacks}
use tgcontrib.Base.Text.{has_prefix-append}
use tgcontrib.HttpRange.{
  Range, make_range, Result, ok, err, no_overlap, found, trim, parse_spec, split, parse_specs,
  finish, parse_range, bytes_unit,
}
use tgcontrib.HttpRange.Specs.{
  ByteSpec, suffix, print_spec, IsSpec, resolve, IsPlain-Lacks, parse_spec_suffix, trim-IsPlain,
  print_spec-IsPlain, parse_spec-print,
}

-- The parts, with a comma between each two.
abbrev pub join : List Bytes → Bytes
join [] = []
join (w ∷ []) = w
join (w ∷ v ∷ ws) = w ++ b',' ∷ join (v ∷ ws)

split-Lacks : (w : Bytes) → Lacks b',' w → split b',' w ≡ w ∷ []
unfolding split
split-Lacks [] h = refl
split-Lacks (c ∷ w) h = ground (arith, split-Lacks w h.1)

split-append : (w s : Bytes) → Lacks b',' w → split b',' (w ++ b',' ∷ s) ≡ w ∷ split b',' s
unfolding split
split-append [] s h = refl
split-append (c ∷ w) s h = ground (arith, split-append w s h.1)

split-join :
    (p : ByteSpec) (ps : List ByteSpec)
    → split b',' (join (map print_spec (p ∷ ps))) ≡ map print_spec (p ∷ ps)
split-join p [] = split-Lacks _ (IsPlain-Lacks _ (print_spec-IsPlain p))
split-join p (q ∷ ps) =
    split-append (print_spec p) _ (IsPlain-Lacks _ (print_spec-IsPlain p)) ∙ rw (split-join q ps)

abbrev AreSpecs : ℕ → List ByteSpec → Type 0
AreSpecs size [] = Unit
AreSpecs size (p ∷ ps) = IsSpec size p × AreSpecs size ps

-- The header `bytes=…` of a list of specs.
abbrev pub header : List ByteSpec → Bytes
header ps = bytes_unit ++ join (map print_spec ps)

abbrev keep : Option Range → List Range → List Range
keep none rs = rs
keep (some r) rs = r ∷ rs

-- The ranges that the specs select, in their order.
abbrev pub select : ℕ → List ByteSpec → List Range
select size [] = []
select size (p ∷ ps) = keep (resolve size p) (select size ps)

abbrev misses : Option Range → Bool → Bool
misses none b = true
misses (some r) b = b

abbrev misses_one : ℕ → List ByteSpec → Bool
misses_one size [] = false
misses_one size (p ∷ ps) = misses (resolve size p) (misses_one size ps)

-- The answer to the selected ranges.
abbrev pub answer : List Range → Result
answer [] = err no_overlap
answer (r ∷ rs) = ok (r ∷ rs)

or_false : (b : Bool) → (b || false) ≡ b
or_false true = refl
or_false false = refl

or_true : (b : Bool) → (b || true) ≡ true
or_true true = refl
or_true false = refl

finish_missed : (rs : List Range) → finish true rs ≡ answer rs
finish_missed [] = refl
finish_missed (r ∷ rs) = refl

finish_found : (b : Bool) (r : Range) (rs : List Range) → finish b (r ∷ rs) ≡ ok (r ∷ rs)
finish_found true r rs = refl
finish_found false r rs = refl

parse_specs-print :
    (size : ℕ) (ps : List ByteSpec) (ranges : List Range) (missed : Bool)
    → AreSpecs size ps
    → parse_specs size (map print_spec ps) ranges missed
      ≡ finish (missed || misses_one size ps) (ranges ++ select size ps)
unfolding parse_specs
parse_specs-print size [] ranges missed h = rw (append-nil, or_false)
parse_specs-print size (p ∷ ps) ranges missed h =
    rw (trim-IsPlain _ (print_spec-IsPlain p), parse_spec-print size p h.0, parse_specs)
      (elim (Option-cases (resolve size p)) [
        | inl e ↦ rw (e, misses, or_true, keep) (parse_specs-print size ps ranges true h.1)
        | inr (r, e) ↦
            rw e (parse_specs-print size ps (ranges ++ r ∷ []) missed h.1 ∙ rw append_assoc)
      ])

finish-answer :
    (size : ℕ) (p : ByteSpec) (ps : List ByteSpec)
    → finish (misses_one size (p ∷ ps)) (select size (p ∷ ps)) ≡ answer (select size (p ∷ ps))
finish-answer size p ps = elim (Option-cases (resolve size p)) [
  | inl e ↦ rw e (finish_missed (select size ps))
  | inr (r, e) ↦ rw e (finish_found (misses_one size ps) r (select size ps))
]

-- Every header of one or more specs, whose numbers are int64, whose positions are in order and
-- whose suffixes are not zero and, where there is one, are of content that is not empty, is
-- accepted: the result is the ranges that the specs select of the content, in the order of the
-- header, or the error for no overlap if there are none.
pub parse_range-header :
    (size : ℕ) (p : ByteSpec) (ps : List ByteSpec)
    → AreSpecs size (p ∷ ps)
    → parse_range (header (p ∷ ps)) size ≡ answer (select size (p ∷ ps))
unfolding parse_range
parse_range-header size p ps h =
    rw (has_prefix-append bytes_unit (join (map print_spec (p ∷ ps))), split-join p ps)
      (parse_specs-print size (p ∷ ps) [] false h ∙ finish-answer size p ps)

parse_specs_one :
    (size : ℕ) (w : Bytes) (r : Range)
    → trim w ≡ w
    → parse_spec size w ≡ found r
    → parse_specs size (w ∷ []) [] false ≡ ok (r ∷ [])
unfolding parse_specs
parse_specs_one size w r t e = rw (t, e, parse_specs) refl

-- The text `bytes=-0` gives an empty range behind the last byte, of content of any size.
pub parse_range_zero_suffix :
    (size : ℕ) → parse_range (header (suffix 0 ∷ [])) size ≡ ok (make_range size 0 ∷ [])
unfolding parse_range
parse_range_zero_suffix size =
    let e : parse_spec size (print_spec (suffix 0)) ≡ found (make_range size 0) =
      parse_spec_suffix size 0 (omega arith) ∙ ground arith in
    rw
      (
        has_prefix-append bytes_unit (join (map print_spec (suffix 0 ∷ []))),
        split-join (suffix 0) [],
      )
      (parse_specs_one size _ _ (trim-IsPlain _ (print_spec-IsPlain (suffix 0))) e)
