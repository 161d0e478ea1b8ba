-- ===== src/Base/Text.antt =====
-- Go's `bytes` and `strings` on byte lists: HasPrefix, IndexByte.
use tgcontrib.Base.{
  ℕ, zero, suc, ◌+◌, ◌<◌, ◌≡◌, refl, ap, Bool, true, false, ◌&&◌, ◌↔◌, [], ◌∷◌, ◌++◌, Option, none,
  some, arith, ◌==◌, if◌then◌else◌, length, take, drop, Bytes,
}
use tgcontrib.Base.Decimal.{Lacks}
use Prim.Native.Char.{code}
use Prim.Native.String.{String}
use mathlib.Core.Option

-- The bytes of an ASCII text.
abbrev pub codes : String → Bytes
codes String.[] = []
codes (String.◌∷◌ c s) = code c ∷ codes s

unfoldable pub has_prefix : Bytes → Bytes → Bool
has_prefix s [] = true
has_prefix [] (p ∷ ps) = false
has_prefix (c ∷ s) (p ∷ ps) = c == p && has_prefix s ps

-- `none` is the result -1.
unfoldable pub index_byte : Bytes → ℕ → Option ℕ
index_byte [] b = none
index_byte (c ∷ s) b = if c == b then some 0 else Option.map suc (index_byte s b)

abbrev pub equal : Bytes → Bytes → Bool
equal [] [] = true
equal (c ∷ s) (d ∷ t) = c == d && equal s t
equal _ _ = false

pub equal_iff : (s t : Bytes) → (equal s t ≡ true) ↔ (s ≡ t)
equal_iff (c ∷ s) (d ∷ t) = ground (arith, equal_iff s t)
equal_iff _ _ = ground arith

pub has_prefix-append : (p s : Bytes) → has_prefix (p ++ s) p ≡ true
unfolding has_prefix
has_prefix-append [] s = refl
has_prefix-append (c ∷ p) s = ground (arith, has_prefix-append p s)

pub has_prefix_sound : (s p : Bytes) → has_prefix s p ≡ true → p ++ drop (length p) s ≡ s
unfolding has_prefix
has_prefix_sound s [] h = refl
has_prefix_sound [] (p ∷ ps) h = absurd (ground arith)
has_prefix_sound (c ∷ s) (p ∷ ps) h = ground (arith, has_prefix_sound s ps)

pub drop_append : (p s : Bytes) → drop (length p) (p ++ s) ≡ s
drop_append [] s = refl
drop_append (c ∷ p) s = drop_append p s

pub take_append : (p s : Bytes) → take (length p) (p ++ s) ≡ p
take_append [] s = refl
take_append (c ∷ p) s = ap (◌∷◌ c) (take_append p s)

pub drop_past : (p s : Bytes) (b : ℕ) → drop (length p + 1) (p ++ b ∷ s) ≡ s
drop_past [] s b = refl
drop_past (c ∷ p) s b = ground (arith, drop_past p s b)

pub index_byte-append :
    (p s : Bytes) (b : ℕ) → Lacks b p → index_byte (p ++ b ∷ s) b ≡ some (length p)
unfolding index_byte
index_byte-append [] s b l = ground arith
index_byte-append (c ∷ p) s b l = ground (arith, index_byte-append p s b l.1)

-- What a hit at `i` says: the text splits there, and no `b` stands before.
pub index_byte_sound :
    (s : Bytes) (b i : ℕ)
    → index_byte s b ≡ some i
    → (take i s ++ b ∷ drop (suc i) s ≡ s) × Lacks b (take i s) × (i < length s)
unfolding index_byte
index_byte_sound [] b i h = absurd (ground arith)
index_byte_sound (c ∷ s) b zero h = ground arith
index_byte_sound (c ∷ s) b (suc i) h = ground (arith, index_byte_sound s b i)
