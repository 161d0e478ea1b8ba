-- ===== src/Storage/Json/Texts.antt =====
-- storage/peer.go: the JSON of a peer as the storages use it.
use tgcontrib.Base.{
  ◌≡◌, ◌≢◌, refl, ◌∙◌, Bool-cases, Option-cases, inl, inr, true, false, [], Option, none, some,
  Bytes, ℕ,
}
use tgcontrib.Base.Int.{ℤ}
use tgcontrib.Storage.Key.{bytes, key_from_peer}
use tgcontrib.Storage.Peer.{Api, Peer, latest_version, int_eq, keys}
use tgcontrib.Storage.Peer.Views.{int_eq_iff}
use tgcontrib.Storage.Store.{decoded, must_invalidate, Found, Batch, ok}
use tgcontrib.Storage.Written.{Absent}
use tgcontrib.Storage.Pebble.{add, find}
use tgcontrib.Storage.Pebble.Reads.{IsDatabase, find-add}
use tgcontrib.Storage.Json.{
  Json, Wire, fits, check_version, unmarshal, marshal, unmarshal_json, marshal_json, peer_codec,
}
use tgcontrib.Storage.Json.Steps.{IsWire, HasInts}
use tgcontrib.Storage.Json.RoundTrip.{
  to_seconds, marshal-Marshaled, version_of-marshal_fields, unmarshal-marshal,
}

some-ne-none : {A : Type 0} {a : A} → none ≡ some a → ⊥
some-ne-none h = cc

some_injective : {A : Type 0} {a b : A} → some a ≡ some b → a ≡ b
some_injective h = cc

module _ (api : Api) (wire : Wire api) where
  -- The JSON library parses what it has printed of the peer.
  abbrev pub Parses : Peer api → Type 0
  Parses p = (j : Json) → marshal api wire p ≡ some j → wire.parse (wire.print j) ≡ some j

  marshal_json-some :
      (p : Peer api) (s : Bytes)
      → marshal_json api wire p ≡ some s
      → (j : Json) × (marshal api wire p ≡ some j) × (wire.print j ≡ s)
  unfolding marshal_json
  marshal_json-some p s h = elim (Option-cases (marshal api wire p)) [
    | inl e ↦ absurd (some-ne-none (rw (e, marshal_json) at h))
    | inr (j, e) ↦ (j, e, some_injective (rw (e, marshal_json) at h))
  ]

  unmarshal_json-print :
      (zero_time : ℤ) (p0 : Peer api) (j : Json)
      → wire.parse (wire.print j) ≡ some j
      → unmarshal_json api wire zero_time p0 (wire.print j) ≡ unmarshal api wire zero_time p0 j
  unfolding unmarshal_json
  unmarshal_json-print zero_time p0 j parses = rw (parses, unmarshal_json) refl

  -- A peer of the latest version whose numbers and whose second of creation are int64 is read
  -- back from its text with its time of creation cut to the second it lies in, whatever the
  -- receiver held, where the libraries read back what they have written of this peer.
  pub unmarshal_json-marshal_json :
      (zero_time : ℤ) (p p0 : Peer api) (s : Bytes)
      → IsWire wire p
      → Parses p
      → HasInts p
      → p.version ≡ latest_version
      → marshal_json api wire p ≡ some s
      → unmarshal_json api wire zero_time p0 s ≡ decoded (to_seconds p)
  unmarshal_json-marshal_json zero_time p p0 s laws parses ints latest h =
      let (j, made, printed) = marshal_json-some p s h in
      rw (← printed) (
        unmarshal_json-print zero_time p0 j (parses j made)
        ∙ unmarshal-marshal api wire zero_time p p0 j laws ints latest made)

  -- The text of a peer of any other version that is an int64 is outdated, where the JSON
  -- library parses what it has printed of it.
  pub unmarshal_json_outdated :
      (zero_time : ℤ) (p p0 : Peer api) (s : Bytes)
      → Parses p
      → fits p.version ≡ true
      → p.version ≢ latest_version
      → marshal_json api wire p ≡ some s
      → unmarshal_json api wire zero_time p0 s ≡ must_invalidate
  unfolding unmarshal check_version
  unmarshal_json_outdated zero_time p p0 s parses v old h =
      let (j, made, printed) = marshal_json-some p s h in
      let m = marshal-Marshaled api wire p j made in
      let version = version_of-marshal_fields api wire p m.metadata m.user m.chat m.channel v in
      let other : int_eq p.version latest_version ≡ false =
        elim (Bool-cases (int_eq p.version latest_version)) [
          | inl e ↦ absurd (old ((int_eq_iff p.version latest_version).0 e))
          | inr e ↦ e
        ] in
      rw (← printed) (
        unmarshal_json-print zero_time p0 j (parses j made)
        ∙ rw (← m.whole, unmarshal) (rw (version, check_version) (rw other refl)))

  -- On pebble, a peer of the latest version whose numbers and whose second of creation are
  -- int64, and that Add stores without an error, is found by its key with its time of creation
  -- cut to the second it lies in, where none of its associated keys is the text of its key and
  -- the libraries read back what they have written of this peer.
  pub find-add_peer :
      {D : Type 0} (get : D → Bytes → Found) (commit : D → Batch → D × Option ℕ) (zero_time : ℤ)
      (zero_peer p : Peer api) (d : D)
      → IsDatabase get commit
      → IsWire wire p
      → Parses p
      → HasInts p
      → p.version ≡ latest_version
      → Absent (bytes (key_from_peer p.key) []) (keys api p)
      → (add (peer_codec api wire zero_time zero_peer) get commit p d).1 ≡ none
      → find
          (peer_codec api wire zero_time zero_peer)
          get
          commit
          (key_from_peer p.key)
          (add (peer_codec api wire zero_time zero_peer) get commit p d).0
        ≡ ok (to_seconds p)
  find-add_peer get commit zero_time zero_peer p d db laws parses ints latest absent h =
      find-add (peer_codec api wire zero_time zero_peer) get commit p (to_seconds p) d db
        (λ s made. unmarshal_json-marshal_json zero_time p zero_peer s laws parses ints latest made)
        absent h
