-- ===== src/Storage/Clients/Resolver.antt =====
-- storage/resolver_cache.go: a key before and after it is resolved.
use tgcontrib.Base.{◌≡◌, ◌≢◌, refl, sym, ap, ◌∙◌, [], Option, none, some, Bytes, ℕ}
use tgcontrib.Base.Int.{ℤ}
use tgcontrib.Storage.Key.{DialogKey, bytes, key_from_peer}
use tgcontrib.Storage.Peer.{
  Api, Peer, InputPeer, input_peer_other, bare, from_input_peer, as_input_peer, keys,
}
use tgcontrib.Storage.Peer.Views.{KindsDiffer, Unpacks, as_input_peer-from_input_peer}
use tgcontrib.Storage.Store.{Error, peer_not_found, ok, err, PeerStorage, Found, Batch}
use tgcontrib.Storage.Written.{Absent}
use tgcontrib.Storage.Pebble.{pebble_storage, resolve}
use tgcontrib.Storage.Pebble.Reads.{IsDatabase, resolve-assign_back}
use tgcontrib.Storage.Json.{Wire, peer_codec}
use tgcontrib.Storage.Json.Steps.{IsWire, HasInts}
use tgcontrib.Storage.Json.RoundTrip.{to_seconds}
use tgcontrib.Storage.Json.Texts.{Parses, unmarshal_json-marshal_json}
use tgcontrib.Storage.Clients.{
  Reply, value, storage_error, Given, given, after_assign, assign_peer, not_found, input_reply,
  after_resolve, try_resolve,
}

some_injective : {A : Type 0} {a b : A} → some a ≡ some b → a ≡ b
some_injective h = cc

storage_error-ne-value : {A : Type 0} {e : Error} {a : A} → storage_error e ≡ value a → ⊥
storage_error-ne-value h = cc

module _ {S : Type 0} (api : Api) (storage : PeerStorage S (Peer api))
    (unpack : InputPeer → Option DialogKey) (now : ℤ) where
  after_assign_ok :
      (i : InputPeer) (r : S × Option Error)
      → (after_assign api storage unpack now i r).1 ≡ value i
      → (r.1 ≡ none) × ((after_assign api storage unpack now i r).0 ≡ r.0)
  unfolding after_assign
  after_assign_ok i (s, none) h = (refl, refl)
  after_assign_ok i (s, some e) h = absurd (storage_error-ne-value h)

  -- Over a storage in which the peer that is made of the input peer and assigned to the key is
  -- resolved by it as `q`, of which the same input peer is made.
  try_resolve_remembered :
      (later : ℤ) (key : Bytes) (f g : Bytes → Given InputPeer) (s : S) (i : InputPeer)
      (p q : Peer api)
      → from_input_peer api unpack now i ≡ some p
      → as_input_peer api q ≡ some i
      → ((storage.assign key p s).1 ≡ none → storage.resolve key (storage.assign key p s).0 ≡ ok q)
      → storage.resolve key s ≡ err peer_not_found
      → f key ≡ given i
      → (try_resolve api storage unpack now key f s).1 ≡ value i
      → try_resolve api storage unpack later key g (try_resolve api storage unpack now key f s).0
        ≡ ((try_resolve api storage unpack now key f s).0, value i)
  unfolding try_resolve after_resolve not_found assign_peer input_reply
  try_resolve_remembered later key f g s i p q made back memory miss next h =
      let state : try_resolve api storage unpack now key f s
          ≡ after_assign api storage unpack now i (storage.assign key p s) =
        rw (miss, after_resolve) (rw (next, not_found) (rw (made, assign_peer) refl)) in
      let (stored, same) = after_assign_ok i (storage.assign key p s) (rw state at h) in
      let hit = memory stored in
      rw (state, same) (rw (hit, after_resolve) (rw (back, input_reply) refl))

module _ (api : Api) where
  as_input_peer-to_seconds : (p : Peer api) → as_input_peer api (to_seconds p) ≡ as_input_peer api p
  unfolding as_input_peer
  as_input_peer-to_seconds p = refl

  -- The peer that is made of an input peer with a known key.
  made_of :
      (unpack : InputPeer → Option DialogKey) (now : ℤ) (i : InputPeer) (k : DialogKey)
      → unpack i ≡ some k
      → from_input_peer api unpack now i ≡ some (bare api now k)
  unfolding from_input_peer
  made_of unpack now i k h = rw (h, from_input_peer) refl

  -- It has no associated keys.
  bare-Absent : (now : ℤ) (k : DialogKey) (id : Bytes) → Absent id (keys api (bare api now k))
  unfolding keys
  bare-Absent now k id = tt

module _ {D : Type 0} (api : Api) (wire : Wire api) (get : D → Bytes → Found)
    (commit : D → Batch → D × Option ℕ) (zero_time : ℤ) (zero_peer : Peer api)
    (unpack : InputPeer → Option DialogKey) where
  -- The resolver cache over the peer storage of pebble, at a time.
  abbrev pub try_resolve_pebble : ℤ → Bytes → (Bytes → Given InputPeer) → D → D × Reply InputPeer
  try_resolve_pebble now =
      try_resolve api (pebble_storage (peer_codec api wire zero_time zero_peer) get commit) unpack
        now

  -- On pebble, where the three kinds differ and the dialog key is unpacked as documented: once
  -- a key that is not there has been resolved to a user, chat or channel and stored, it
  -- resolves to the same input peer from the database, at any later time and whatever the next
  -- resolver says from then on, and the database is left as it is. The numbers of the peer that
  -- is made and its second of creation are int64, the key is not the text of the peer's own
  -- key, and the libraries read back what they have written of this peer.
  pub try_resolve_cached :
      (now later : ℤ) (key : Bytes) (f g : Bytes → Given InputPeer) (d : D) (i : InputPeer)
      (k : DialogKey)
      → KindsDiffer api
      → Unpacks api unpack
      → IsDatabase get commit
      → i ≢ input_peer_other
      → unpack i ≡ some k
      → IsWire wire (bare api now k)
      → Parses api wire (bare api now k)
      → HasInts (bare api now k)
      → key ≢ bytes (key_from_peer k) []
      → resolve (peer_codec api wire zero_time zero_peer) get commit key d ≡ err peer_not_found
      → f key ≡ given i
      → (try_resolve_pebble now key f d).1 ≡ value i
      → try_resolve_pebble later key g (try_resolve_pebble now key f d).0
        ≡ ((try_resolve_pebble now key f d).0, value i)
  try_resolve_cached now later key f g d i k kinds unpacks db n unpacked laws parses ints apart =
      let codec = peer_codec api wire zero_time zero_peer in
      let p = bare api now k in
      let (p', made, back) = as_input_peer-from_input_peer api unpack now i kinds unpacks n in
      let same : p' ≡ p = some_injective (sym made ∙ made_of api unpack now i k unpacked) in
      let input : as_input_peer api (to_seconds p) ≡ some i =
        as_input_peer-to_seconds api p ∙ ap (as_input_peer api) (sym same) ∙ back in
      try_resolve_remembered api (pebble_storage codec get commit) unpack now later key f g d i p
        (to_seconds p) (made_of api unpack now i k unpacked) input
        (resolve-assign_back codec get commit p (to_seconds p) key d db
          (λ s m.
            unmarshal_json-marshal_json api wire zero_time p zero_peer s laws parses ints refl m)
          (bare-Absent api now k (bytes (key_from_peer k) [])) apart)
