-- ===== src/HttpRange/Specs.antt =====
-- http_range/range.go: one byte-range-spec of RFC 7233, its text and the parser.
use tgcontrib.Base.{
  ℕ, ◌+◌, ◌-◌, ◌≤◌, ◌<◌, ◌≡◌, ◌≢◌, refl, ap, ◌∙◌, false, [], ◌∷◌, ◌++◌, Option, none, some, arith,
  ltb, ◌==◌, if◌then◌else◌, length, Bytes,
}
use tgcontrib.Base.Decimal.{
  AllDigits, StartsDigit, Lacks, two_63, append_uint, parse_int, parse-append_uint,
  append_uint-AllDigits, append_uint-StartsDigit,
}
use tgcontrib.Base.Text.{index_byte, drop_past, take_append, index_byte-append}
use tgcontrib.HttpRange.{
  Range, make_range, Outcome, outside, found, is_space, trim, trim_left, trim_right, parse_spec,
  at_dash, dash_range, starts_minus, suffix_range, start_range, bounded_range, end_range,
}

-- A byte-range-spec: first and last position, a first position, or the length of a suffix.
pub data ByteSpec : Type 0 where
  from_to : ℕ → ℕ → ByteSpec
  from : ℕ → ByteSpec
  suffix : ℕ → ByteSpec

abbrev pub print_spec : ByteSpec → Bytes
print_spec (from_to a b) = append_uint a ++ b'-' ∷ append_uint b
print_spec (from a) = append_uint a ++ b'-' ∷ []
print_spec (suffix n) = b'-' ∷ append_uint n

-- A spec for content of a size: the numbers are int64, the positions are in order, and a suffix is
-- not zero and has content to be taken from.
abbrev pub IsSpec : ℕ → ByteSpec → Type 0
IsSpec size (from_to a b) = (a ≤ b) × (b < two_63)
IsSpec size (from a) = a < two_63
IsSpec size (suffix n) = (0 < n) × (0 < size) × (n < two_63)

-- The bytes that a spec selects of `size` bytes: none if it starts behind them, or is a suffix with no
-- bytes.
abbrev pub resolve : ℕ → ByteSpec → Option Range
resolve size (from_to a b) =
    if ltb a size then some (make_range a ((if ltb b size then b + 1 else size) - a)) else none
resolve size (from a) = if ltb a size then some (make_range a (size - a)) else none
resolve size (suffix n) =
    if n == 0
    then none
    else if size == 0
    then none
    else some (make_range (size - n) (if ltb size n then size else n))

-- What is selected is not empty and lies within the content.
pub resolve_within :
    (size : ℕ) (p : ByteSpec) (r : Range)
    → IsSpec size p
    → resolve size p ≡ some r
    → (0 < r.length) × (r.start + r.length ≤ size)
resolve_within size (from_to a b) r h e = ground arith
resolve_within size (from a) r h e = ground arith
resolve_within size (suffix n) r h e = ground arith

abbrev pub to_outcome : Option Range → Outcome
to_outcome none = outside
to_outcome (some r) = found r

-- A text with no blank and no comma.
abbrev pub IsPlain : Bytes → Type 0
IsPlain [] = Unit
IsPlain (c ∷ s) = (is_space c ≡ false) × (c ≢ b',') × IsPlain s

AllDigits-IsPlain : (s : Bytes) → AllDigits s → IsPlain s
AllDigits-IsPlain [] h = tt
AllDigits-IsPlain (c ∷ s) h = (ground arith, ground arith, AllDigits-IsPlain s h.1)

append-IsPlain : (s t : Bytes) → IsPlain s → IsPlain t → IsPlain (s ++ t)
append-IsPlain [] t hs ht = ht
append-IsPlain (c ∷ s) t hs ht = (hs.0, hs.1, append-IsPlain s t hs.2 ht)

pub IsPlain-Lacks : (s : Bytes) → IsPlain s → Lacks b',' s
IsPlain-Lacks [] h = tt
IsPlain-Lacks (c ∷ s) h = (h.1, IsPlain-Lacks s h.2)

AllDigits-Lacks : (s : Bytes) → AllDigits s → Lacks b'-' s
AllDigits-Lacks [] h = tt
AllDigits-Lacks (c ∷ s) h = (ground arith, AllDigits-Lacks s h.1)

trim_left-IsPlain : (s : Bytes) → IsPlain s → trim_left s ≡ s
unfolding trim_left
trim_left-IsPlain [] h = refl
trim_left-IsPlain (c ∷ s) h = ground arith

trim_right-IsPlain : (s : Bytes) → IsPlain s → trim_right s ≡ s
unfolding trim_right
trim_right-IsPlain [] h = refl
trim_right-IsPlain (c ∷ []) h = ground arith
trim_right-IsPlain (c ∷ d ∷ s) h = ground (arith, trim_right-IsPlain (d ∷ s) h.2)

pub trim-IsPlain : (s : Bytes) → IsPlain s → trim s ≡ s
trim-IsPlain s h = ap trim_right (trim_left-IsPlain s h) ∙ trim_right-IsPlain s h

pub print_spec-IsPlain : (p : ByteSpec) → IsPlain (print_spec p)
print_spec-IsPlain (from_to a b) =
    append-IsPlain (append_uint a) (b'-' ∷ append_uint b)
      (AllDigits-IsPlain _ (append_uint-AllDigits a))
      (refl, omega arith, AllDigits-IsPlain _ (append_uint-AllDigits b))
print_spec-IsPlain (from a) =
    append-IsPlain (append_uint a) (b'-' ∷ []) (AllDigits-IsPlain _ (append_uint-AllDigits a))
      (refl, omega arith, tt)
print_spec-IsPlain (suffix n) = (refl, omega arith, AllDigits-IsPlain _ (append_uint-AllDigits n))

-- The branches of the parser on a text that starts with a digit, past each match on its head.
parse_spec-ne-nil :
    (size : ℕ) (s : Bytes) → s ≢ [] → parse_spec size s ≡ at_dash size s (index_byte s b'-')
unfolding parse_spec
parse_spec-ne-nil size [] h = absurd (h refl)
parse_spec-ne-nil size (c ∷ s) h = refl

dash_range-StartsDigit :
    (size : ℕ) (s e : Bytes)
    → StartsDigit s
    → dash_range size s e ≡ start_range size (parse_int s) e
unfolding dash_range
dash_range-StartsDigit size [] e h = absurd h
dash_range-StartsDigit size (c ∷ s) e h = refl

dash_range_suffix :
    (size : ℕ) (e : Bytes) → StartsDigit e → dash_range size [] e ≡ suffix_range size (parse_int e)
unfolding dash_range starts_minus
dash_range_suffix size [] h = absurd h
dash_range_suffix size (c ∷ e) h = ground arith

bounded_range-StartsDigit :
    (size start : ℕ) (e : Bytes)
    → StartsDigit e
    → bounded_range size start e ≡ end_range size start (parse_int e)
unfolding bounded_range
bounded_range-StartsDigit size start [] h = absurd h
bounded_range-StartsDigit size start (c ∷ e) h = refl

append-ne-nil : (s : Bytes) (c : ℕ) (t : Bytes) → s ++ c ∷ t ≢ []
append-ne-nil [] c t = λ e. cc e
append-ne-nil (d ∷ s) c t = λ e. cc e

at_dash-append :
    (size : ℕ) (s t : Bytes)
    → IsPlain s
    → IsPlain t
    → at_dash size (s ++ b'-' ∷ t) (some (length s)) ≡ dash_range size s t
unfolding at_dash
at_dash-append size s t hs ht =
    rw (take_append s (b'-' ∷ t), drop_past s t b'-', trim-IsPlain s hs, trim-IsPlain t ht)

-- A part `s-t`, split at its dash.
parse_spec-dash :
    (size : ℕ) (s t : Bytes)
    → AllDigits s
    → IsPlain t
    → parse_spec size (s ++ b'-' ∷ t) ≡ dash_range size s t
parse_spec-dash size s t hs ht =
    parse_spec-ne-nil size (s ++ b'-' ∷ t) (append-ne-nil s b'-' t)
    ∙ ap (at_dash size (s ++ b'-' ∷ t)) (index_byte-append s t b'-' (AllDigits-Lacks s hs))
    ∙ at_dash-append size s t (AllDigits-IsPlain s hs) ht

-- The parser on any suffix, the zero one and those of empty content included.
pub parse_spec_suffix :
    (size n : ℕ)
    → n < two_63
    → parse_spec size (print_spec (suffix n))
      ≡ found (make_range (size - n) (if ltb size n then size else n))
unfolding suffix_range
parse_spec_suffix size n fits =
    parse_spec-dash size [] (append_uint n) tt (AllDigits-IsPlain _ (append_uint-AllDigits n))
    ∙ dash_range_suffix size _ (append_uint-StartsDigit n)
    ∙ rw (parse-append_uint n fits) (ground arith)

pub parse_spec-print :
    (size : ℕ) (p : ByteSpec)
    → IsSpec size p
    → parse_spec size (print_spec p) ≡ to_outcome (resolve size p)
unfolding start_range end_range bounded_range
parse_spec-print size (from_to a b) (le, fits) =
    parse_spec-dash size (append_uint a) (append_uint b) (append_uint-AllDigits a)
      (AllDigits-IsPlain _ (append_uint-AllDigits b))
    ∙ dash_range-StartsDigit size _ _ (append_uint-StartsDigit a)
    ∙ rw (parse-append_uint a (omega arith)) (
        ground (
          arith,
          bounded_range-StartsDigit size a (append_uint b) (append_uint-StartsDigit b),
          parse-append_uint b fits,
        ))
parse_spec-print size (from a) fits =
    parse_spec-dash size (append_uint a) [] (append_uint-AllDigits a) tt
    ∙ dash_range-StartsDigit size _ _ (append_uint-StartsDigit a)
    ∙ rw (parse-append_uint a fits) (ground arith)
parse_spec-print size (suffix n) (some_bytes, content, fits) =
    parse_spec_suffix size n fits ∙ ground arith
