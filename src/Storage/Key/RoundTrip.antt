-- ===== src/Storage/Key/RoundTrip.antt =====
-- storage/key.go: the text of a key and its parser.
use mathlib.Core.List.{append_assoc}
use native.Mathlib.Numerals.{add-one}
use tgcontrib.Base.{
  ℕ, ◌+◌, ◌<◌, ◌≡◌, ◌≢◌, refl, sym, ap, ◌∙◌, Bool-cases, ◌⊎◌, inl, inr, [], ◌∷◌, ◌++◌, Option, none,
  some, arith, length, length-append, take, drop, Option-cases, Bytes,
}
use tgcontrib.Base.Decimal.{
  IsInt64, Lacks, append_int, parse_int, parse-append_int, append_int-Lacks, append_int-ne-nil,
}
use tgcontrib.Base.Int.{ℤ, ◌≤ℤ◌}
use tgcontrib.Base.Text.{
  has_prefix, index_byte, has_prefix-append, has_prefix_sound, drop_past, take_append,
  index_byte-append, index_byte_sound,
}
use tgcontrib.Storage.Key.{
  PeerKey, peer_key_prefix, key_separator, bytes, string, parse, parse_id_part, parse_kind_part,
  split_key, ParseError, parse_id,
}

-- A key as the program makes it: both numbers are int64, and the kind is at most the last one.
pub record IsKey (channel : ℤ) (k : PeerKey) : Type 0 where
  pub kind_fits : IsInt64 k.kind
  pub id_fits : IsInt64 k.id
  pub kind_known : k.kind ≤ℤ channel

length-pos : (s : Bytes) → s ≢ [] → 0 < length s
length-pos [] h = absurd (h refl)
length-pos (c ∷ s) h = omega arith

split_key-append :
    (channel : ℤ) (k : PeerKey) (a b : Bytes)
    → a ≢ []
    → b ≢ []
    → split_key channel k (a ++ key_separator ∷ b) (some (length a))
      ≡ parse_kind_part channel k (parse_int a) b
unfolding split_key
split_key-append channel k a b p q =
    rw (take_append a (key_separator ∷ b), drop_past a b key_separator)
      (ground (arith, length-pos a p, length-pos b q, length-append a (key_separator ∷ b)))

parse_kind_part-known :
    (channel : ℤ) (k k0 : PeerKey)
    → IsKey channel k
    → parse_kind_part channel k0 (parse_int (append_int k.kind)) (append_int k.id) ≡ (k, none)
unfolding parse_kind_part parse_id_part
parse_kind_part-known channel k k0 h =
    rw (parse-append_int k.kind h.kind_fits, parse-append_int k.id h.id_fits)
      (ground (arith, h.kind_known))

-- The builder of `String` and the appends of `Bytes` make the same text.
pub bytes-string : (k : PeerKey) (r : Bytes) → bytes k r ≡ r ++ string k
unfolding bytes string
bytes-string k r = simp append_assoc

-- Every key whose numbers are int64 and whose kind is at most the last one is read back from
-- its bytes, whatever the receiver held.
pub parse-bytes :
    (channel : ℤ) (k k0 : PeerKey) → IsKey channel k → parse channel k0 (bytes k []) ≡ (k, none)
unfolding parse string
parse-bytes channel k k0 h =
    let a = append_int k.kind in
    let b = append_int k.id in
    rw
      (
        bytes-string,
        has_prefix-append peer_key_prefix (a ++ key_separator ∷ b),
        index_byte-append a b key_separator
            (append_int-Lacks key_separator k.kind refl (omega arith)),
        split_key-append channel k0 a b (append_int-ne-nil k.kind) (append_int-ne-nil k.id),
      )
      (parse_kind_part-known channel k k0 h)

-- Keys that have int64 numbers and a kind that is at most the last one, and that differ, have
-- different texts.
pub bytes_injective :
    (channel : ℤ) (k k' : PeerKey)
    → IsKey channel k
    → IsKey channel k'
    → bytes k [] ≡ bytes k' []
    → k ≡ k'
bytes_injective channel k k' h h' e =
    let read : parse channel k (bytes k []) ≡ (k, none) = parse-bytes channel k k h in
    ap (λ p. p.0) (sym read ∙ ap (parse channel k) e ∙ parse-bytes channel k' k h')

-- What an accepted text is made of.
pub record IsKeyText (channel : ℤ) (r : Bytes) (k : PeerKey) : Type 0 where
  pub kind_text : Bytes
  pub id_text : Bytes
  pub parts : r ≡ peer_key_prefix ++ (kind_text ++ key_separator ∷ id_text)
  pub first : Lacks key_separator kind_text
  pub kind_read : parse_int kind_text ≡ some k.kind
  pub id_read : parse_int id_text ≡ some k.id
  pub kind_known : k.kind ≤ℤ channel

-- The two numbers, behind the split.
parse_kind_part_sound :
    (channel : ℤ) (k0 k : PeerKey) (v : Option ℤ) (s : Bytes)
    → parse_kind_part channel k0 v s ≡ (k, none)
    → (v ≡ some k.kind) × (parse_int s ≡ some k.id) × (k.kind ≤ℤ channel)
unfolding parse_kind_part parse_id_part
parse_kind_part_sound channel k0 k v s h = ground arith

split_key-none :
    (channel : ℤ) (k0 k : PeerKey) (s : Bytes) → split_key channel k0 s none ≡ (k, none) → ⊥
unfolding split_key
split_key-none channel k0 k s h = ground arith

split_key_sound :
    (channel : ℤ) (k0 k : PeerKey) (s : Bytes) (i : ℕ)
    → split_key channel k0 s (some i) ≡ (k, none)
    → parse_kind_part channel k0 (parse_int (take i s)) (drop (i + 1) s) ≡ (k, none)
unfolding split_key
split_key_sound channel k0 k s i h = ground arith

-- An accepted text is the prefix, a number of the kind with no separator in it, the separator
-- and a number of the id; the key holds these numbers, and the kind is at most the last one.
pub parse_sound :
    (channel : ℤ) (k0 k : PeerKey) (r : Bytes)
    → parse channel k0 r ≡ (k, none)
    → IsKeyText channel r k
unfolding parse
parse_sound channel k0 k r h = elim (Bool-cases (has_prefix r peer_key_prefix)) [
  | inl p ↦ elim (Option-cases (index_byte (drop 4 r) key_separator)) [
    | inl m ↦ absurd (split_key-none channel k0 k (drop 4 r) (rw (p, m) at h))
    | inr (i, e) ↦
        let (v, s, c) =
          parse_kind_part_sound channel k0 k _ _
            (split_key_sound channel k0 k (drop 4 r) i (rw (p, e) at h)) in
        let (text, lacks, inside) = index_byte_sound (drop 4 r) key_separator i e in
        record {
          kind_text = take i (drop 4 r);
          id_text = drop (i + 1) (drop 4 r);
          parts =
              sym (has_prefix_sound r peer_key_prefix p)
              ∙ ap (◌++◌ peer_key_prefix) (sym text ∙ rw add-one);
          first = lacks;
          kind_read = v;
          id_read = s;
          kind_known = c;
        }
  ]
  | inr p ↦ absurd (ground arith)
]

-- A refusal of Parse leaves the id of the receiver alone, and changes its kind only where the
-- id is refused.
pub parse-error_keeps :
    (channel : ℤ) (k0 k : PeerKey) (r : Bytes) (e : ParseError)
    → parse channel k0 r ≡ (k, some e)
    → (k.id ≡ k0.id) × ((k ≡ k0) ⊎ (e ≡ parse_id))
unfolding parse split_key parse_kind_part parse_id_part
parse-error_keeps channel k0 k r e h = ground arith
