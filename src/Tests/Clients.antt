-- ===== src/Tests/Clients.antt =====
-- storage/resolver_cache.go and storage/collector.go at concrete storages.
use mathlib.Core.List.{Mem, mem-cons_self, mem-cons_of_mem}
use tgcontrib.Base.{◌≡◌, ◌≢◌, refl, List, [], ◌∷◌, map, Option, none, some, Bytes, arith}
use tgcontrib.Base.Int.{ℤ, pos}
use tgcontrib.Base.Text.{codes}
use tgcontrib.Storage.Key.{DialogKey, PeerKey, key_from_peer}
use tgcontrib.Storage.Peer.{
  Peer, bare, InputPeer, input_peer_user, input_peer_chat, input_peer_channel, input_peer_other,
  UserClass, user_full, user_empty, from_user, from_input_peer,
}
use tgcontrib.Storage.Peer.Views.{KindsDiffer, Unpacks}
use tgcontrib.Storage.Store.{peer_not_found, missing, err, PeerStorage}
use tgcontrib.Storage.Clients.{Reply, value, Given, given, fails, try_resolve, add_each, contacts}
use tgcontrib.Storage.Clients.Resolver.{try_resolve_pebble, try_resolve_cached}
use tgcontrib.Storage.Clients.Collector.{Holds, AllHeld, contacts-AllHeld}
use tgcontrib.Storage.Pebble
use tgcontrib.Storage.Json.{marshal, marshal_json, peer_codec}
use tgcontrib.Storage.Json.Steps.{HasInts}
use tgcontrib.Tests.Peers.{
  api, peer_of, wire_for, wire_for-IsWire, bare-Parses, not_name, Store, get, commit,
  IsDatabase-laws,
}

abbrev pub unpack : InputPeer → Option DialogKey
unpack (input_peer_user id h) = some (record { kind = pos 0; id = id; access_hash = h })
unpack (input_peer_chat id) = some (record { kind = pos 1; id = id; access_hash = pos 0 })
unpack (input_peer_channel id h) = some (record { kind = pos 2; id = id; access_hash = h })
unpack input_peer_other = none

kinds : KindsDiffer api
kinds = record {
  user_chat = λ e. absurd (ground arith);
  user_channel = λ e. absurd (ground arith);
  chat_channel = λ e. absurd (ground arith);
}

unpacks : Unpacks api unpack
unpacks = record { users = λ id h. refl; chats = λ id. refl; channels = λ id h. refl }

abbrev gotd : InputPeer
gotd = input_peer_user (pos 10) (pos 7)

not_other : gotd ≢ input_peer_other
not_other = λ e. cc e

abbrev resolver : Bytes → Given InputPeer
resolver key = given gotd

abbrev offline : Bytes → Given InputPeer
offline key = fails 1

abbrev gotd_key : DialogKey
gotd_key = record { kind = pos 0; id = pos 10; access_hash = pos 7 }

abbrev made : Peer api
made = bare api (pos 99) gotd_key

gotd_ints : HasInts made
gotd_ints = record { kind = refl; id = refl; access_hash = refl; created_at = refl }

-- An empty database of pebble.
abbrev empty : Store
empty k = missing

-- The cache at a time, on the library that knows the text of the peer.
abbrev cache : ℤ → (Bytes → Given InputPeer) → Store → Store × Reply InputPeer
cache now f =
    try_resolve_pebble api (wire_for made) get commit (pos 0) (peer_of (pos 0)) unpack now
      (codes "gotd") f

resolved : (cache (pos 99) resolver empty).1 ≡ value gotd
unfolding try_resolve from_input_peer Pebble.resolve Pebble.assign Pebble.add_all marshal_json
    marshal
resolved = refl

nothing_stored :
    Pebble.resolve
      (peer_codec api (wire_for made) (pos 0) (peer_of (pos 0)))
      get
      commit
      (codes "gotd")
      empty
    ≡ err peer_not_found
unfolding Pebble.resolve
nothing_stored = refl

try_resolve_cached_example :
    cache (pos 200) offline (cache (pos 99) resolver empty).0
    ≡ ((cache (pos 99) resolver empty).0, value gotd)
try_resolve_cached_example =
    try_resolve_cached api (wire_for made) get commit (pos 0) (peer_of (pos 0)) unpack (pos 99)
      (pos 200) (codes "gotd") resolver offline empty gotd gotd_key kinds unpacks IsDatabase-laws
      not_other refl (wire_for-IsWire made) (bare-Parses (pos 99) gotd_key) gotd_ints not_name
      nothing_stored refl resolved

-- A storage that is the list of its keys.
abbrev log : PeerStorage (List PeerKey) (Peer api)
log = record {
  add = λ p s. (key_from_peer p.key ∷ s, none);
  find = λ k s. err peer_not_found;
  assign = λ key p s. (s, none);
  resolve = λ key s. err peer_not_found;
}

abbrev Has : PeerKey → List PeerKey → Type 0
Has k s = Mem k s

log-Holds : Holds api log Has
log-Holds = record {
  added = λ p s h. mem-cons_self;
  kept = λ p k s h. mem-cons_of_mem (key_from_peer p.key) h;
}

abbrev users : List (UserClass api)
users = user_full tt ∷ user_empty ∷ []

collected : (contacts api log (pos 99) users []).1 ≡ none
unfolding contacts add_each from_user
collected = refl

contacts-AllHeld_run :
    AllHeld api Has (map (from_user api (pos 99)) users) (contacts api log (pos 99) users []).0
contacts-AllHeld_run = contacts-AllHeld api log Has log-Holds (pos 99) users [] collected
