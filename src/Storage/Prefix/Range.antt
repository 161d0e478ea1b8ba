-- ===== src/Storage/Prefix/Range.antt =====
-- pebble/peer_storage.go: the keys between a prefix and its upper bound.
use native.Mathlib.Decide.{dec_le}
use tgcontrib.Base.{
  ℕ, ◌+◌, ◌%◌, ◌<◌, ◌≡◌, refl, sym, false, not, ◌&&◌, [], ◌∷◌, Option, none, some, ◌==◌, Bytes,
  arith,
}
use tgcontrib.Base.Text.{has_prefix}
use tgcontrib.Storage.Prefix.{less, carry, key_upper_bound, below, visits}

-- Every element is a byte.
abbrev pub AreBytes : Bytes → Type 0
AreBytes [] = Unit
AreBytes (c ∷ s) = (c < 256) × AreBytes s

less-nil : (t : Bytes) → less t [] ≡ false
unfolding less
less-nil [] = refl
less-nil (d ∷ t) = refl

has_prefix-carry :
    (c d : ℕ) (s t : Bytes) (o : Option Bytes)
    → d < 256
    → c < 256
    → has_prefix t s ≡ (not (less t s) && below t o)
    → (d == c && has_prefix t s) ≡ (not (less (d ∷ t) (c ∷ s)) && below (d ∷ t) (carry c o))
unfolding carry below less
has_prefix-carry c d s t none hd hc ih = elim (dec_le 255 c) [
  | yes last ↦ let wraps : (c + 1) % 256 ≡ 0 = omega arith in ground (arith, wraps)
  | no small ↦ let next : (c + 1) % 256 ≡ c + 1 = omega arith in ground (arith, next, less-nil t)
]
has_prefix-carry c d s t (some e) hd hc ih = ground arith

-- The bounds that pebble is given for a prefix visit exactly the keys that begin with it:
-- keyUpperBound is an upper bound of these keys and of no other that is at or above the prefix,
-- also where its last bytes are 255 or there is no bound.
pub visits-has_prefix :
    (prefix k : Bytes) → AreBytes prefix → AreBytes k → visits prefix k ≡ has_prefix k prefix
unfolding visits key_upper_bound below less has_prefix
visits-has_prefix [] [] hp hk = refl
visits-has_prefix [] (d ∷ t) hp hk = refl
visits-has_prefix (c ∷ s) [] hp hk = refl
visits-has_prefix (c ∷ s) (d ∷ t) hp hk =
    sym (
      has_prefix-carry c d s t (key_upper_bound s) hk.0 hp.0
        (sym (visits-has_prefix s t hp.1 hk.1)))
