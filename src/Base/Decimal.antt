-- ===== src/Base/Decimal.antt =====
-- Go's `strconv` on decimal text, as the program uses it: AppendInt and FormatInt print, Atoi and
-- ParseInt(s, 10, 64) read. A text is its bytes; `none` is any error of the parser.
use tgcontrib.Base.{
  ℕ, zero, suc, ◌+◌, ◌-◌, ◌*◌, ◌/◌, ◌%◌, ◌^◌, ◌<◌, ◌≡◌, ◌≢◌, refl, sym, Bool, true, false, ◌&&◌, [],
  ◌∷◌, Option, none, some, arith, ltb, leb, ◌==◌, if◌then◌else◌, Bytes,
}
use tgcontrib.Base.Int.{ℤ, pos, negsuc, sub_ℕ}

abbrev pub two_63 : ℕ
two_63 = 2 ^ 63

-- an `int64`, or an `int` of a 64-bit platform
abbrev pub IsInt64 : ℤ → Type 0
IsInt64 (pos n) = n < two_63
IsInt64 (negsuc n) = n < two_63

digits_onto : ℕ → ℕ → Bytes → Bytes
digits_onto zero n out = out
digits_onto (suc f) n out =
    let more = digits_onto f (n / 10) ((b'0' + n % 10) ∷ out) in
    if ltb n 10 then (b'0' + n) ∷ out else more

-- Each round divides by ten, so `n + 1` rounds are enough.
unfoldable pub append_uint : ℕ → Bytes
unfolding digits_onto
append_uint n = digits_onto (suc n) n []

unfoldable pub append_int : ℤ → Bytes
unfolding append_uint
append_int (pos n) = append_uint n
append_int (negsuc n) = b'-' ∷ append_uint (suc n)

abbrev pub is_digit : ℕ → Bool
is_digit c = leb b'0' c && leb c b'9'

digits_value : ℕ → Bytes → Option ℕ
digits_value n [] = some n
digits_value n (c ∷ cs) = if is_digit c then digits_value (n * 10 + (c - b'0')) cs else none

unfoldable pub parse_uint : Bytes → Option ℕ
unfolding digits_value
parse_uint [] = none
parse_uint (c ∷ cs) = digits_value 0 (c ∷ cs)

abbrev pub to_pos : Option ℕ → Option ℤ
to_pos none = none
to_pos (some n) = if ltb n two_63 then some (pos n) else none

abbrev pub to_neg : Option ℕ → Option ℤ
to_neg none = none
to_neg (some n) = if leb n two_63 then some (sub_ℕ 0 n) else none

unfoldable pub parse_int : Bytes → Option ℤ
unfolding parse_uint
parse_int [] = none
parse_int (c ∷ cs) =
    if c == b'-'
    then to_neg (parse_uint cs)
    else if c == b'+'
    then to_pos (parse_uint cs)
    else to_pos (parse_uint (c ∷ cs))

-- No byte of the text is `b`.
abbrev pub Lacks : ℕ → Bytes → Type 0
Lacks b [] = Unit
Lacks b (c ∷ cs) = (c ≢ b) × Lacks b cs

value-digits_onto :
    (f n : ℕ) (out : Bytes) → n < f → digits_value 0 (digits_onto f n out) ≡ digits_value n out
unfolding digits_onto digits_value
value-digits_onto zero n out h = absurd (omega arith)
value-digits_onto (suc f) n out h =
    ground (arith, value-digits_onto f (n / 10) ((b'0' + n % 10) ∷ out))

-- Every byte of the text is a digit.
abbrev pub AllDigits : Bytes → Type 0
AllDigits [] = Unit
AllDigits (c ∷ cs) = (is_digit c ≡ true) × AllDigits cs

-- The text starts with a digit.
abbrev pub StartsDigit : Bytes → Type 0
StartsDigit [] = ⊥
StartsDigit (c ∷ cs) = is_digit c ≡ true

digits_onto-StartsDigit : (f n : ℕ) (out : Bytes) → n < f → StartsDigit (digits_onto f n out)
unfolding digits_onto
digits_onto-StartsDigit zero n out h = absurd (omega arith)
digits_onto-StartsDigit (suc f) n out h =
    ground (arith, digits_onto-StartsDigit f (n / 10) ((b'0' + n % 10) ∷ out))

digits_onto-Lacks :
    (b f n : ℕ) (out : Bytes)
    → n < f
    → is_digit b ≡ false
    → Lacks b out
    → Lacks b (digits_onto f n out)
unfolding digits_onto
digits_onto-Lacks b zero n out h d l = absurd (omega arith)
digits_onto-Lacks b (suc f) n out h d l =
    ground (arith, digits_onto-Lacks b f (n / 10) ((b'0' + n % 10) ∷ out))

parse-StartsDigit : (s : Bytes) → StartsDigit s → parse_int s ≡ to_pos (digits_value 0 s)
unfolding parse_int
parse-StartsDigit [] h = absurd h
parse-StartsDigit (c ∷ s) h = ground arith

parse_uint-StartsDigit : (s : Bytes) → StartsDigit s → parse_uint s ≡ digits_value 0 s
unfolding parse_uint
parse_uint-StartsDigit [] h = absurd h
parse_uint-StartsDigit (c ∷ s) h = refl

value-append_uint : (n : ℕ) → digits_value 0 (append_uint n) ≡ some n
unfolding append_uint digits_value
value-append_uint n = value-digits_onto (suc n) n [] (omega arith)

digits_onto-AllDigits : (f n : ℕ) (out : Bytes) → AllDigits out → AllDigits (digits_onto f n out)
unfolding digits_onto
digits_onto-AllDigits zero n out h = h
digits_onto-AllDigits (suc f) n out h =
    ground (arith, digits_onto-AllDigits f (n / 10) ((b'0' + n % 10) ∷ out))

pub append_uint-AllDigits : (n : ℕ) → AllDigits (append_uint n)
unfolding append_uint
append_uint-AllDigits n = digits_onto-AllDigits (suc n) n [] tt

pub append_uint-StartsDigit : (n : ℕ) → StartsDigit (append_uint n)
unfolding append_uint
append_uint-StartsDigit n = digits_onto-StartsDigit (suc n) n [] (omega arith)

parse_minus : (s : Bytes) → parse_int (b'-' ∷ s) ≡ to_neg (parse_uint s)
unfolding parse_int
parse_minus s = refl

-- An int64 is read back from its print.
pub parse-append_int : (z : ℤ) → IsInt64 z → parse_int (append_int z) ≡ some z
unfolding append_int
parse-append_int (pos n) h =
    rw (parse-StartsDigit _ (append_uint-StartsDigit n), value-append_uint n) (ground arith)
parse-append_int (negsuc n) h =
    rw
      (
        parse_minus,
        parse_uint-StartsDigit _ (append_uint-StartsDigit (suc n)),
        value-append_uint (suc n),
      )
      (ground arith)

-- A print holds digits and a minus sign, and nothing else.
pub append_int-Lacks : (b : ℕ) (z : ℤ) → is_digit b ≡ false → b ≢ b'-' → Lacks b (append_int z)
unfolding append_int append_uint
append_int-Lacks b (pos n) d m = digits_onto-Lacks b (suc n) n [] (omega arith) d tt
append_int-Lacks b (negsuc n) d m =
    (λ e. m (sym e), digits_onto-Lacks b (suc (suc n)) (suc n) [] (omega arith) d tt)

StartsDigit-ne-nil : (s : Bytes) → StartsDigit s → s ≢ []
StartsDigit-ne-nil [] h = absurd h
StartsDigit-ne-nil (c ∷ s) h = λ e. cc e

pub append_int-ne-nil : (z : ℤ) → append_int z ≢ []
unfolding append_int
append_int-ne-nil (pos n) = StartsDigit-ne-nil _ (append_uint-StartsDigit n)
append_int-ne-nil (negsuc n) = λ e. cc e

pub parse-append_uint : (n : ℕ) → n < two_63 → parse_int (append_uint n) ≡ some (pos n)
unfolding append_int
parse-append_uint n h = parse-append_int (pos n) h
