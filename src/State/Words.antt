-- ===== src/State/Words.antt =====
-- bbolt/state_storage.go: the keys and values, 64-bit words in little-endian order.
-- `none` is the panic of `binary.LittleEndian.Uint64` on fewer than eight bytes.
use native.Mathlib.Nat.{pow-succ'}
use mathlib.Core.List.{append-nil}
use tgcontrib.Base.{
  ℕ, zero, suc, ◌+◌, ◌-◌, ◌*◌, ◌/◌, ◌%◌, ◌^◌, ◌<◌, ◌≡◌, refl, sym, ap, ◌∙◌, [], ◌∷◌, ◌++◌, Option,
  none, some, arith, ltb, if◌then◌else◌, replicate, Bytes,
}
use tgcontrib.Base.Int.{ℤ, pos, negsuc}
use tgcontrib.Base.Decimal.{two_63, IsInt64}
use mathlib.Core.Option

abbrev pub two_64 : ℕ
two_64 = 2 ^ 64

-- `uint64(v)`
unfoldable pub to_word : ℤ → ℕ
to_word (pos n) = n % two_64
to_word (negsuc n) = two_64 - 1 - n % two_64

-- `int64(w)`, and `int(w)` on a 64-bit platform
unfoldable pub of_word : ℕ → ℤ
of_word w = if ltb w two_63 then pos w else negsuc (two_64 - 1 - w)

-- the lowest `n` bytes of a word, the lowest first
unfoldable pub little_endian : ℕ → ℕ → Bytes
little_endian zero w = []
little_endian (suc n) w = (w % 256) ∷ little_endian n (w / 256)

-- the word of the first `n` bytes
unfoldable pub from_bytes : ℕ → Bytes → Option ℕ
from_bytes zero s = some 0
from_bytes (suc n) [] = none
from_bytes (suc n) (c ∷ s) = Option.map (λ w. c + 256 * w) (from_bytes n s)

unfoldable pub i2b : ℤ → Bytes
unfolding to_word little_endian
i2b v = little_endian 8 (to_word v)

unfoldable pub b2i : Bytes → Option ℤ
unfolding of_word from_bytes
b2i b = Option.map of_word (from_bytes 8 b)

-- sixteen bytes, of which the last eight stay zero
unfoldable pub i642b : ℤ → Bytes
unfolding to_word little_endian
i642b v = little_endian 8 (to_word v) ++ replicate 8 0

unfoldable pub b2i64 : Bytes → Option ℤ
unfolding of_word from_bytes
b2i64 b = Option.map of_word (from_bytes 8 b)

of-to_word : (v : ℤ) → IsInt64 v → of_word (to_word v) ≡ v
unfolding of_word to_word
of-to_word (pos n) h = ground arith
of-to_word (negsuc n) h = ground arith

to_word-lt : (v : ℤ) → to_word v < two_64
unfolding to_word
to_word-lt (pos n) = omega arith
to_word-lt (negsuc n) = omega arith

digit-lt : (w p : ℕ) → w < 256 * p → w / 256 < p
digit-lt w p h = omega arith

from-little_endian :
    (n w : ℕ) (rest : Bytes) → w < 256 ^ n → from_bytes n (little_endian n w ++ rest) ≡ some w
unfolding from_bytes little_endian
from-little_endian zero w rest h = ground arith
from-little_endian (suc n) w rest h =
    let small = digit-lt w (256 ^ n) (rw (pow-succ' 256 n) at h) in
    let value : w % 256 + 256 * (w / 256) ≡ w = omega arith in
    rw (from-little_endian n (w / 256) rest small) (ap some value)

-- The value of eight bytes is read back, whatever follows them.
pub b2i-word : (v : ℤ) (rest : Bytes) → IsInt64 v → b2i (i2b v ++ rest) ≡ some v
unfolding b2i i2b
b2i-word v rest h =
    ap (Option.map of_word) (from-little_endian 8 (to_word v) rest (to_word-lt v))
    ∙ ap some (of-to_word v h)

pub b2i-i2b : (v : ℤ) → IsInt64 v → b2i (i2b v) ≡ some v
b2i-i2b v h = ap b2i (sym (append-nil (i2b v))) ∙ b2i-word v [] h

-- An int64 is read back from its key.
pub b2i64-i642b : (v : ℤ) → IsInt64 v → b2i64 (i642b v) ≡ some v
unfolding b2i64 i642b b2i i2b
b2i64-i642b v h = b2i-word v (replicate 8 0) h

pub i642b_injective : (u v : ℤ) → IsInt64 u → IsInt64 v → i642b u ≡ i642b v → u ≡ v
i642b_injective u v hu hv e = cc (b2i64-i642b u hu, b2i64-i642b v hv, ap b2i64 e)

-- The bytes of an int64 are not empty.
pub i2b-cons : (v : ℤ) → (c : ℕ) × (s : Bytes) × (i2b v ≡ c ∷ s)
unfolding i2b
i2b-cons v = (_, _, refl)

pub i2b_injective : (u v : ℤ) → IsInt64 u → IsInt64 v → i2b u ≡ i2b v → u ≡ v
i2b_injective u v hu hv e = cc (b2i-i2b u hu, b2i-i2b v hv, ap b2i e)
