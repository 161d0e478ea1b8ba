-- ===== src/HttpRange.antt =====
-- http_range/range.go: the parser of the `Range` header. The size of the content is a natural
-- number, and so are the parsed positions behind their sign tests, so every difference that the
-- code takes is exact; all of them stay below 2^63.
pub mod Bounds
pub mod Header
pub mod Specs
use tgcontrib.Base.{
  ℕ, zero, suc, ◌+◌, ◌-◌, Bool, true, false, not, ◌&&◌, ◌||◌, List, [], ◌∷◌, ◌++◌, Option, none,
  some, ltb, leb, ◌==◌, if◌then◌else◌, length, take, drop, Bytes,
}
use tgcontrib.Base.Decimal.{append_uint, append_int, parse_int}
use tgcontrib.Base.Int.{ℤ, pos, negsuc, sub_ℕ}
use tgcontrib.Base.Text.{codes, has_prefix, index_byte}

pub record Range : Type 0 where
  pub start : ℕ
  pub length : ℕ

-- The last position is `Start + Length - 1`, which is -1 for an empty range at 0.
unfoldable pub content_range : Range → ℕ → Bytes
content_range r size =
    codes "bytes "
    ++ (append_uint r.start
        ++ (b'-' ∷ (append_int (sub_ℕ (r.start + r.length) 1) ++ (b'/' ∷ append_uint size))))

pub data RangeError : Type 0 where
  no_overlap invalid : RangeError

pub data Result : Type 0 where
  ok : List Range → Result
  err : RangeError → Result

-- `textproto.TrimString`
abbrev pub is_space : ℕ → Bool
is_space c = c == b' ' || c == b'\t' || c == b'\n' || c == b'\r'

unfoldable pub trim_left : Bytes → Bytes
trim_left [] = []
trim_left (c ∷ s) = let rest = trim_left s in if is_space c then rest else c ∷ s

abbrev cons_unless_blank : ℕ → Bytes → Bytes
cons_unless_blank c [] = if is_space c then [] else c ∷ []
cons_unless_blank c (d ∷ s) = c ∷ d ∷ s

unfoldable pub trim_right : Bytes → Bytes
trim_right [] = []
trim_right (c ∷ s) = cons_unless_blank c (trim_right s)

abbrev pub trim : Bytes → Bytes
trim s = trim_right (trim_left s)

abbrev cons_head : ℕ → List Bytes → List Bytes
cons_head c [] = (c ∷ []) ∷ []
cons_head c (w ∷ ws) = (c ∷ w) ∷ ws

-- `strings.Split` at one byte
unfoldable pub split : ℕ → Bytes → List Bytes
split b [] = [] ∷ []
split b (c ∷ s) = let ws = split b s in if c == b then [] ∷ ws else cons_head c ws

-- One round of the loop: `continue`, a return of `ErrInvalid`, a range past the end, or a range.
pub data Outcome : Type 0 where
  skip bad outside : Outcome
  found : Range → Outcome

abbrev pub make_range : ℕ → ℕ → Range
make_range start length = record { start = start; length = length }

starts_minus : Bytes → Bool
starts_minus [] = true
starts_minus (c ∷ s) = c == b'-'

-- `start == ""`: the last `i` bytes
suffix_range : ℕ → Option ℤ → Outcome
suffix_range size none = bad
suffix_range size (some (negsuc n)) = bad
suffix_range size (some (pos i)) =
    let i' = if ltb size i then size else i in
    let start = size - i' in found (make_range start (size - start))

-- the bound behind the `-`, at a start below the size
end_range : ℕ → ℕ → Option ℤ → Outcome
end_range size start none = bad
end_range size start (some (negsuc n)) = bad
end_range size start (some (pos i)) =
    if ltb i start
    then bad
    else let i' = if leb size i then size - 1 else i in found (make_range start (i' - start + 1))

bounded_range : ℕ → ℕ → Bytes → Outcome
bounded_range size start [] = found (make_range start (size - start))
bounded_range size start (c ∷ e) = end_range size start (parse_int (c ∷ e))

start_range : ℕ → Option ℤ → Bytes → Outcome
start_range size none e = bad
start_range size (some (negsuc n)) e = bad
start_range size (some (pos i)) e = if leb size i then outside else bounded_range size i e

dash_range : ℕ → Bytes → Bytes → Outcome
dash_range size [] e = if starts_minus e then bad else suffix_range size (parse_int e)
dash_range size (c ∷ s) e = start_range size (parse_int (c ∷ s)) e

at_dash : ℕ → Bytes → Option ℕ → Outcome
at_dash size ra none = bad
at_dash size ra (some i) = dash_range size (trim (take i ra)) (trim (drop (i + 1) ra))

-- the body of the loop, on a trimmed part
unfoldable pub parse_spec : ℕ → Bytes → Outcome
unfolding at_dash dash_range starts_minus suffix_range start_range bounded_range end_range
parse_spec size [] = skip
parse_spec size (c ∷ ra) = at_dash size (c ∷ ra) (index_byte (c ∷ ra) b'-')

abbrev finish : Bool → List Range → Result
finish true [] = err no_overlap
finish _ ranges = ok ranges

unfoldable pub parse_specs : ℕ → List Bytes → List Range → Bool → Result
parse_specs size [] ranges missed = finish missed ranges
parse_specs size (ra ∷ ras) ranges missed = elim (parse_spec size (trim ra)) [
  | skip ↦ parse_specs size ras ranges missed
  | bad ↦ err invalid
  | outside ↦ parse_specs size ras ranges true
  | found r ↦ parse_specs size ras (ranges ++ r ∷ []) missed
]

abbrev pub bytes_unit : Bytes
bytes_unit = codes "bytes="

unfoldable pub parse_range : Bytes → ℕ → Result
unfolding parse_specs parse_spec
parse_range [] size = ok []
parse_range (c ∷ s) size =
    if not (has_prefix (c ∷ s) bytes_unit)
    then err invalid
    else parse_specs size (split b',' (drop (length bytes_unit) (c ∷ s))) [] false
