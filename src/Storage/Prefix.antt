-- ===== src/Storage/Prefix.antt =====
-- pebble/peer_storage.go: the bounds of an iteration over the keys with a prefix.
pub mod Range
use tgcontrib.Base.{
  ℕ, ◌+◌, ◌%◌, Bool, true, false, not, ◌&&◌, ◌||◌, [], ◌∷◌, Option, none, some, ltb, ◌==◌,
  if◌then◌else◌, Bytes,
}

-- `bytes.Compare`, as less than
unfoldable pub less : Bytes → Bytes → Bool
less [] [] = false
less [] (d ∷ t) = true
less (c ∷ s) [] = false
less (c ∷ s) (d ∷ t) = ltb c d || (c == d && less s t)

-- one round of the loop at the byte `c`, behind the rounds at the bytes that follow it
carry : ℕ → Option Bytes → Option Bytes
carry c (some e) = some (c ∷ e)
carry c none = let c' = (c + 1) % 256 in if not (c' == 0) then some (c' ∷ []) else none

-- `keyUpperBound`; the loop runs from the last byte to the first.
unfoldable pub key_upper_bound : Bytes → Option Bytes
unfolding carry
key_upper_bound [] = none
key_upper_bound (c ∷ s) = carry c (key_upper_bound s)

below : Bytes → Option Bytes → Bool
below k none = true
below k (some e) = less k e

-- `prefixIterOptions`: whether an iteration with these bounds visits a key
unfoldable pub visits : Bytes → Bytes → Bool
unfolding below
visits prefix k = not (less k prefix) && below k (key_upper_bound prefix)
