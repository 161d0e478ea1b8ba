-- ===== src/Storage/Pebble.antt =====
-- pebble/peer_storage.go: the peer storage on pebble; its iterator is in Iterate.
-- `get` and `commit` are the database's: `commit` takes the writes of a batch in their order. The
-- snapshot of `Resolve` is the state that it is given; errors of `Close` are left out.
pub mod Reads
pub mod Holds
use tgcontrib.Base.{ℕ, List, [], ◌∷◌, ◌++◌, Option, none, some, Bytes}
use tgcontrib.Storage.Key.{PeerKey, bytes}
use tgcontrib.Storage.Store.{
  Error, peer_not_found, marshal_failed, unmarshal_failed, database, Result, ok, err, Decoded,
  decoded, must_invalidate, malformed, Codec, PeerStorage, Found, found, missing, broken, Batch,
  entries,
}

pub wrap : Option ℕ → Option Error
wrap none = none
wrap (some e) = some (database e)

module _ {P D : Type 0} (codec : Codec P) (get : D → Bytes → Found)
    (commit : D → Batch → D × Option ℕ) where
  unfoldable pub add_all : List Bytes → P → D → D × Option Error
  unfolding wrap
  add_all associated value d = elim (codec.marshal value) [
    | none ↦ (d, some marshal_failed)
    | some text ↦
        let id = bytes (codec.key value) [] in
        let r = commit d (entries id text associated) in (r.0, wrap r.1)
  ]

  unfoldable pub add : P → D → D × Option Error
  add value d = add_all (codec.keys value) value d

  unfoldable pub assign : Bytes → P → D → D × Option Error
  assign key value d = add_all (codec.keys value ++ key ∷ []) value d

  decode : Decoded P → Result P
  decode (decoded p) = ok p
  decode must_invalidate = err peer_not_found
  decode malformed = err unmarshal_failed

  -- the end of `Find` and of `Resolve`, from the read of the data on
  unfoldable pub read_data : Found → Result P
  unfolding decode
  read_data missing = err peer_not_found
  read_data (broken e) = err (database e)
  read_data (found text) = decode (codec.unmarshal text)

  unfoldable pub find : PeerKey → D → Result P
  find key d = read_data (get d (bytes key []))

  read_id : D → Found → Result P
  read_id d missing = err peer_not_found
  read_id d (broken e) = err (database e)
  read_id d (found id) = read_data (get d id)

  unfoldable pub resolve : Bytes → D → Result P
  unfolding read_id
  resolve key d = read_id d (get d key)

  -- `PeerStorage`
  abbrev pub pebble_storage : PeerStorage D P
  pebble_storage = record { add = add; find = find; assign = assign; resolve = resolve }
