-- ===== src/Storage/Json/Steps.antt =====
-- storage/peer.go: the fields of a marshaled peer, read one by one.
use tgcontrib.Base.{
  ◌≡◌, refl, sym, ap, ◌∙◌, Option-cases, inl, inr, true, Option, none, some, Bytes,
}
use tgcontrib.Base.Int.{ℤ}
use tgcontrib.Base.Text.{codes}
use tgcontrib.Storage.Key.{DialogKey}
use tgcontrib.Storage.Peer.{Api, Peer}
use tgcontrib.Storage.Json.{
  Json, number, Fields, field, bin_value, Wire, fits, unix, from_unix, int_of, stepped, set_int,
  and_then, set_key_field, key_fields, read_key, bin_step, decode_object, set_metadata, set_field,
  set_fields, encoded, value_field, key_json,
}

-- What the libraries have written of a peer is read back: any bytes from Base64, the peer's metadata
-- from its JSON, and its objects from their binary encodings.
pub record IsWire {api : Api} (wire : Wire api) (p : Peer api) : Type 0 where
  pub base64_back : (b : Bytes) → wire.from_base64 (wire.base64 b) ≡ some b
  pub metadata_back :
      (j : Json) → wire.metadata_json p.metadata ≡ some j → wire.json_metadata j ≡ some p.metadata
  pub user_back :
      (u : api.User) (b : Bytes)
      → p.user ≡ some u
      → wire.encode_user u ≡ some b
      → wire.decode_user b ≡ bin_value u
  pub chat_back :
      (c : api.Chat) (b : Bytes)
      → p.chat ≡ some c
      → wire.encode_chat c ≡ some b
      → wire.decode_chat b ≡ bin_value c
  pub channel_back :
      (c : api.Channel) (b : Bytes)
      → p.channel ≡ some c
      → wire.encode_channel c ≡ some b
      → wire.decode_channel b ≡ bin_value c

-- The numbers of a peer are int64, the second of its time among them.
pub record HasInts {api : Api} (p : Peer api) : Type 0 where
  pub kind : fits p.key.kind ≡ true
  pub id : fits p.key.id ≡ true
  pub access_hash : fits p.key.access_hash ≡ true
  pub created_at : fits (unix p.created_at) ≡ true

pub int_of-number : (z : ℤ) → fits z ≡ true → int_of (number z) ≡ some z
unfolding int_of
int_of-number z h = rw h refl

read_key-key_json :
    (api : Api) (wire : Wire api) (k k0 : DialogKey)
    → fits k.kind ≡ true
    → fits k.id ≡ true
    → fits k.access_hash ≡ true
    → read_key (key_json api wire k) k0 ≡ stepped k
unfolding read_key key_json key_fields set_key_field set_int int_of and_then
read_key-key_json api wire k k0 a b c = rw (a, b, c) refl

some-ne-none : {A : Type 0} {a : A} → some a ≡ none → ⊥
some-ne-none h = cc

some_injective : {A : Type 0} {a b : A} → some a ≡ some b → a ≡ b
some_injective h = cc

module _ (api : Api) (wire : Wire api) where
  encoded-none :
      {A : Type 0} (encode : A → Option Bytes) (b : Bytes)
      → encoded api wire encode none ≡ some (some b)
      → ⊥
  unfolding encoded
  encoded-none encode b h = some-ne-none (sym (some_injective h))

  encoded-some :
      {A : Type 0} (encode : A → Option Bytes) (a : A) (o : Option Bytes)
      → encoded api wire encode (some a) ≡ some o
      → (b : Bytes) × (o ≡ some b) × (encode a ≡ some b)
  unfolding encoded
  encoded-some encode a o h = elim (Option-cases (encode a)) [
    | inl e ↦ absurd (some-ne-none (sym (rw (e, encoded) at h)))
    | inr (b, e) ↦ (b, sym (some_injective (rw (e, encoded) at h)), e)
  ]

module _ (api : Api) (wire : Wire api) (p : Peer api) (laws : IsWire wire p) where
  pub step_version :
      (z : ℤ) (fs : Fields) (q : Peer api)
      → fits z ≡ true
      → set_fields api wire (field (codes "Version") (number z) fs) q
        ≡ set_fields api wire fs (record q { version = z })
  unfolding set_fields set_field set_int and_then int_of
  step_version z fs q h = rw h refl

  pub step_created :
      (z : ℤ) (fs : Fields) (q : Peer api)
      → fits z ≡ true
      → set_fields api wire (field (codes "CreatedAt") (number z) fs) q
        ≡ set_fields api wire fs (record q { created_at = from_unix z })
  unfolding set_fields set_field set_int and_then int_of
  step_created z fs q h = rw h refl

  pub step_key :
      (k : DialogKey) (fs : Fields) (q : Peer api)
      → fits k.kind ≡ true
      → fits k.id ≡ true
      → fits k.access_hash ≡ true
      → set_fields api wire (field (codes "Key") (key_json api wire k) fs) q
        ≡ set_fields api wire fs (record q { key = k })
  unfolding set_fields set_field and_then
  step_key k fs q a b c = rw (read_key-key_json api wire k q.key a b c, and_then) refl

  pub step_metadata :
      (j : Json) (fs : Fields) (q : Peer api)
      → wire.metadata_json p.metadata ≡ some j
      → set_fields api wire (field (codes "Metadata") j fs) q
        ≡ set_fields api wire fs (record q { metadata = p.metadata })
  unfolding set_fields set_field and_then set_metadata
  step_metadata j fs q h = rw (laws.metadata_back j h, set_metadata) refl

  pub step_user :
      (o : Option (api.User)) (b : Option Bytes) (fs : Fields) (q : Peer api)
      → p.user ≡ o
      → encoded api wire wire.encode_user o ≡ some b
      → q.user ≡ none
      → set_fields api wire (value_field api wire (codes "User") b fs) q
        ≡ set_fields api wire fs (record q { user = o })
  unfolding value_field set_fields set_field and_then decode_object bin_step
  step_user none none fs q i h e = ap (λ u. set_fields api wire fs (record q { user = u })) e
  step_user none (some b) fs q i h e = absurd (encoded-none api wire wire.encode_user b h)
  step_user (some u) none fs q i h e =
      let (b, same, made) = encoded-some api wire wire.encode_user u none h in
      absurd (some-ne-none (sym same))
  step_user (some u) (some b) fs q i h e =
      let (b', same, made) = encoded-some api wire wire.encode_user u (some b) h in
      let back : wire.decode_user b ≡ bin_value u = laws.user_back u b i (made ∙ sym same) in
      rw (laws.base64_back b, decode_object) (rw (back, bin_step) refl)

  pub step_chat :
      (o : Option (api.Chat)) (b : Option Bytes) (fs : Fields) (q : Peer api)
      → p.chat ≡ o
      → encoded api wire wire.encode_chat o ≡ some b
      → q.chat ≡ none
      → set_fields api wire (value_field api wire (codes "Chat") b fs) q
        ≡ set_fields api wire fs (record q { chat = o })
  unfolding value_field set_fields set_field and_then decode_object bin_step
  step_chat none none fs q i h e = ap (λ u. set_fields api wire fs (record q { chat = u })) e
  step_chat none (some b) fs q i h e = absurd (encoded-none api wire wire.encode_chat b h)
  step_chat (some u) none fs q i h e =
      let (b, same, made) = encoded-some api wire wire.encode_chat u none h in
      absurd (some-ne-none (sym same))
  step_chat (some u) (some b) fs q i h e =
      let (b', same, made) = encoded-some api wire wire.encode_chat u (some b) h in
      let back : wire.decode_chat b ≡ bin_value u = laws.chat_back u b i (made ∙ sym same) in
      rw (laws.base64_back b, decode_object) (rw (back, bin_step) refl)

  pub step_channel :
      (o : Option (api.Channel)) (b : Option Bytes) (fs : Fields) (q : Peer api)
      → p.channel ≡ o
      → encoded api wire wire.encode_channel o ≡ some b
      → q.channel ≡ none
      → set_fields api wire (value_field api wire (codes "Channel") b fs) q
        ≡ set_fields api wire fs (record q { channel = o })
  unfolding value_field set_fields set_field and_then decode_object bin_step
  step_channel none none fs q i h e = ap (λ u. set_fields api wire fs (record q { channel = u })) e
  step_channel none (some b) fs q i h e = absurd (encoded-none api wire wire.encode_channel b h)
  step_channel (some u) none fs q i h e =
      let (b, same, made) = encoded-some api wire wire.encode_channel u none h in
      absurd (some-ne-none (sym same))
  step_channel (some u) (some b) fs q i h e =
      let (b', same, made) = encoded-some api wire wire.encode_channel u (some b) h in
      let back : wire.decode_channel b ≡ bin_value u = laws.channel_back u b i (made ∙ sym same) in
      rw (laws.base64_back b, decode_object) (rw (back, bin_step) refl)
