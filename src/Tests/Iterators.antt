-- ===== src/Tests/Iterators.antt =====
-- The iterators of the peer storages on lists of entries.
use tgcontrib.Base.{
  ℕ, ◌≡◌, refl, false, List, [], ◌∷◌, map, Option, none, some, Bytes, if◌then◌else◌, ◌==◌,
}
use tgcontrib.Base.Text.{codes, has_prefix}
use tgcontrib.Base.Int.{ℤ, pos}
use tgcontrib.Storage.Peer.{Peer}
use tgcontrib.Storage.Json.{Json, object, number, field, no_fields, Wire, unmarshal, unmarshal_json}
use tgcontrib.Tests.Peers.{api, peer_of, wire}
use tgcontrib.Storage.Store
use tgcontrib.Storage.Store.{Decoded, decoded, outdated, database, Found, found, missing}
use tgcontrib.Storage.Iterate.{
  Ending, read, must_invalidate, malformed, for_each, Entry, Item, pebble_iterator, bbolt_iterator,
  redis_iterator, iterator_failed,
}
use tgcontrib.Storage.Iterate.Loops.{over}
use tgcontrib.Storage.Iterate.Backends.{item_texts, read_over, for_each-bbolt_peers}
use tgcontrib.Storage.Iterate.Strict.{
  entry_texts, read_strict, redis_peers, for_each-pebble_peers, for_each-redis_peers,
}

-- A library that reads three texts: a peer of the version 2, the version 2 alone, and a peer of the
-- version 1.
abbrev reads : Bytes → Option Json
reads [] = none
reads (c ∷ s) =
    if c == 0
    then some (object (field (codes "Version") (number (pos 1)) no_fields))
    else if c == 1
    then some (object (field (codes "Version") (number (pos 2)) no_fields))
    else some (
        object (
          field (codes "Version") (number (pos 2)) (
            field (codes "Key") (object (field (codes "ID") (number (pos c)) no_fields))
              no_fields)))

abbrev library : Wire api
library = record (wire (pos 2)) { parse = reads }

-- `json.Unmarshal` with the receiver that is left where the version does not fit.
abbrev ended : Peer api → Decoded (Peer api) → Peer api × Ending
ended q (decoded p) = (p, read)
ended q Store.must_invalidate = (q, must_invalidate)
ended q Store.malformed = (q, malformed)

abbrev into : Peer api → Bytes → Peer api × Ending
into q v = ended q (unmarshal_json api library (pos 0) q v)

abbrev note : Peer api → List ℤ → List ℤ × Option ℕ
note p w = (p.key.id ∷ w, none)

abbrev fresh : Peer api
fresh = record (peer_of (pos 0)) { key = record { kind = pos 0; id = pos 0; access_hash = pos 0 } }

abbrev items : List Item
items =
    (codes "peer1_1", some (5 ∷ []))
    ∷ (codes "peer1_2", some (0 ∷ []))
    ∷ (codes "user", some (9 ∷ []))
    ∷ (codes "peer1_3", some (7 ∷ []))
    ∷ []

for_each-bbolt_peers_example :
    for_each
      (bbolt_iterator into)
      note
      5
      (record { rest = items; last_err = none; last = fresh })
      []
    ≡ some (pos 7 ∷ pos 5 ∷ [], none)
unfolding over read_over item_texts has_prefix unmarshal_json unmarshal
for_each-bbolt_peers_example = for_each-bbolt_peers into note items fresh []

abbrev pairs : List Entry
pairs =
    (codes "peer1_1", 5 ∷ [])
    ∷ (codes "user", 9 ∷ [])
    ∷ (codes "peer1_2", 0 ∷ [])
    ∷ (codes "peer1_3", 7 ∷ [])
    ∷ []

for_each-pebble_peers_example :
    for_each
      (pebble_iterator into)
      note
      5
      (record { rest = pairs; last_err = none; last = fresh })
      []
    ≡ some (pos 5 ∷ [], some (iterator_failed outdated []))
unfolding over read_strict entry_texts has_prefix unmarshal_json unmarshal
for_each-pebble_peers_example = for_each-pebble_peers into note pairs fresh []

-- A text without a key is read with the key of the peer before it.
keys_kept :
    map (λ p. p.key.id) (read_over into ((5 ∷ []) ∷ (1 ∷ []) ∷ []) fresh).0 ≡ pos 5 ∷ pos 5 ∷ []
unfolding read_over unmarshal_json unmarshal
keys_kept = refl

abbrev get : Bytes → Found
get [] = missing
get (c ∷ k) = found (c ∷ [])

for_each-redis_peers_run :
    for_each
      (redis_iterator into get 5 none)
      note
      3
      (record { keys = (4 ∷ []) ∷ [] ∷ []; ended = false; failed = none; peer = fresh })
      []
    ≡ some (pos 4 ∷ [], some (iterator_failed (database 5) []))
unfolding over redis_peers unmarshal_json unmarshal
for_each-redis_peers_run = for_each-redis_peers into get 5 none note ((4 ∷ []) ∷ [] ∷ []) fresh []
