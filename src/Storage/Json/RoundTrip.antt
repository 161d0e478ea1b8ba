-- ===== src/Storage/Json/RoundTrip.antt =====
-- storage/peer.go: a peer that is marshaled and read again.
use tgcontrib.Base.{
  ◌≡◌, refl, ap, ◌∙◌, arith, Option-cases, inl, inr, true, false, Option, none, some, Bytes,
}
use tgcontrib.Base.Int.{ℤ, pos, negsuc}
use tgcontrib.Base.Text.{codes, equal}
use tgcontrib.Storage.Peer.{Api, Peer, latest_version, int_eq}
use tgcontrib.Storage.Peer.Views.{int_eq_iff}
use tgcontrib.Storage.Store.{decoded}
use tgcontrib.Storage.Json.{
  Json, number, object, Fields, field, no_fields, Wire, fits, unix, from_unix, stepped, version_of,
  set_fields, reset, end_decode, check_version, unmarshal, encoded, value_field, key_json,
  marshal_fields, marshal,
}
use tgcontrib.Storage.Json.Steps.{
  IsWire, HasInts, int_of-number, step_version, step_key, step_created, step_metadata, step_user,
  step_chat, step_channel,
}

none-ne-some : {A : Type 0} {a : A} → none ≡ some a → ⊥
none-ne-some h = cc

some_injective : {A : Type 0} {a b : A} → some a ≡ some b → a ≡ b
some_injective h = cc

-- A peer with the second that its time lies in.
abbrev pub to_seconds : {api : Api} → Peer api → Peer api
to_seconds p = record p { created_at = from_unix (unix p.created_at) }

unix-from_unix : (z : ℤ) → unix (from_unix z) ≡ z
unix-from_unix (pos n) = ap pos (omega arith)
unix-from_unix (negsuc n) = ap negsuc (omega arith)

-- What is read back is read back again as it is.
to_seconds_again : {api : Api} (p : Peer api) → to_seconds (to_seconds p) ≡ to_seconds p
to_seconds_again {api} p =
    ap (λ z. record p { created_at = from_unix z }) (unix-from_unix (unix p.created_at))

module _ (api : Api) (wire : Wire api) where
  -- The parts of a marshaled peer.
  pub record Marshaled (p : Peer api) (j : Json) : Type 0 where
    pub user : Option Bytes
    pub chat : Option Bytes
    pub channel : Option Bytes
    pub metadata : Json
    pub user_made : encoded api wire wire.encode_user p.user ≡ some user
    pub chat_made : encoded api wire wire.encode_chat p.chat ≡ some chat
    pub channel_made : encoded api wire wire.encode_channel p.channel ≡ some channel
    pub metadata_made : wire.metadata_json p.metadata ≡ some metadata
    pub whole : object (marshal_fields api wire p metadata user chat channel) ≡ j

  pub marshal-Marshaled : (p : Peer api) (j : Json) → marshal api wire p ≡ some j → Marshaled p j
  unfolding marshal
  marshal-Marshaled p j h = elim (Option-cases (encoded api wire wire.encode_user p.user)) [
    | inl u ↦ absurd (none-ne-some (rw (u, marshal) at h))
    | inr (user, u) ↦ elim (Option-cases (encoded api wire wire.encode_chat p.chat)) [
      | inl c ↦ absurd (none-ne-some (rw (u, c, marshal) at h))
      | inr (chat, c) ↦ elim (Option-cases (encoded api wire wire.encode_channel p.channel)) [
        | inl d ↦ absurd (none-ne-some (rw (u, c, d, marshal) at h))
        | inr (channel, d) ↦ elim (Option-cases (wire.metadata_json p.metadata)) [
          | inl m ↦ absurd (none-ne-some (rw (u, c, d, m, marshal) at h))
          | inr (metadata, m) ↦ record {
            user = user;
            chat = chat;
            channel = channel;
            metadata = metadata;
            user_made = u;
            chat_made = c;
            channel_made = d;
            metadata_made = m;
            whole = some_injective (rw (u, c, d, m, marshal) at h);
          }
        ]
      ]
    ]
  ]

  version_of-value_field :
      (name : Bytes) (b : Option Bytes) (fs : Fields) (v : ℤ)
      → equal name (codes "Version") ≡ false
      → version_of (value_field api wire name b fs) v ≡ version_of fs v
  unfolding version_of value_field
  version_of-value_field name none fs v h = refl
  version_of-value_field name (some b) fs v h = rw h refl

  pub version_of-marshal_fields :
      (p : Peer api) (m : Json) (u c d : Option Bytes)
      → fits p.version ≡ true
      → version_of (marshal_fields api wire p m u c d) (pos 0) ≡ some p.version
  unfolding marshal_fields version_of
  version_of-marshal_fields p m u c d h =
      rw (int_of-number p.version h, version_of)
        (version_of-value_field (codes "User") u _ p.version refl
          ∙ version_of-value_field (codes "Chat") c _ p.version refl
          ∙ version_of-value_field (codes "Channel") d no_fields p.version refl)

  set_fields-marshal_fields :
      (p q : Peer api) (j : Json)
      → IsWire wire p
      → HasInts p
      → fits p.version ≡ true
      → q.user ≡ none
      → q.chat ≡ none
      → q.channel ≡ none
      → (s : Marshaled p j)
      → set_fields api wire (marshal_fields api wire p s.metadata s.user s.chat s.channel) q
        ≡ stepped (to_seconds p)
  unfolding marshal_fields set_fields
  set_fields-marshal_fields p q j laws ints v nu nc nd s =
      let channels = value_field api wire (codes "Channel") s.channel no_fields in
      let chats = value_field api wire (codes "Chat") s.chat channels in
      let users = value_field api wire (codes "User") s.user chats in
      let metadata = field (codes "Metadata") s.metadata users in
      let created = field (codes "CreatedAt") (number (unix p.created_at)) metadata in
      let keyed = field (codes "Key") (key_json api wire p.key) created in
      let q1 : Peer api = record q { version = p.version } in
      let q2 : Peer api = record q1 { key = p.key } in
      let q3 : Peer api = record q2 { created_at = from_unix (unix p.created_at) } in
      let q4 : Peer api = record q3 { metadata = p.metadata } in
      let q5 : Peer api = record q4 { user = p.user } in
      let q6 : Peer api = record q5 { chat = p.chat } in
      step_version api wire p laws p.version keyed q v
      ∙ step_key api wire p laws p.key created q1 ints.kind ints.id ints.access_hash
      ∙ step_created api wire p laws (unix p.created_at) metadata q2 ints.created_at
      ∙ step_metadata api wire p laws s.metadata users q3 s.metadata_made
      ∙ step_user api wire p laws p.user s.user chats q4 refl s.user_made nu
      ∙ step_chat api wire p laws p.chat s.chat channels q5 refl s.chat_made nc
      ∙ step_channel api wire p laws p.channel s.channel no_fields q6 refl s.channel_made nd

  -- A peer of the latest version whose numbers are int64 is read back from its JSON up to the second
  -- of its time, whatever the receiver held.
  pub unmarshal-marshal :
      (zero_time : ℤ) (p p0 : Peer api) (j : Json)
      → IsWire wire p
      → HasInts p
      → p.version ≡ latest_version
      → marshal api wire p ≡ some j
      → unmarshal api wire zero_time p0 j ≡ decoded (to_seconds p)
  unfolding unmarshal check_version reset end_decode
  unmarshal-marshal zero_time p p0 j laws ints latest h =
      let s = marshal-Marshaled p j h in
      let fs = marshal_fields api wire p s.metadata s.user s.chat s.channel in
      let v : fits p.version ≡ true = rw latest refl in
      let version = version_of-marshal_fields p s.metadata s.user s.chat s.channel v in
      let current : int_eq p.version latest_version ≡ true =
        (int_eq_iff p.version latest_version).1 latest in
      let read =
        set_fields-marshal_fields p (reset api wire zero_time p0) j laws ints v refl refl refl s in
      rw (← s.whole, unmarshal)
        (rw (version, check_version) (rw current (rw (read, end_decode) refl)))
