-- ===== src/Storage/Redis.antt =====
-- redis/peer_storage.go: the peer storage on redis; its iterator is in Iterate.
-- `get`, `set` and `exec` are the database's: `exec` takes the commands of a pipeline in their order,
-- and a queued command has no error of its own. Errors of `Close` are left out.
pub mod Reads
use tgcontrib.Base.{ℕ, List, [], ◌∷◌, ◌++◌, Option, none, some, Bytes}
use tgcontrib.Storage.Key.{PeerKey, string}
use tgcontrib.Storage.Store.{
  Error, peer_not_found, marshal_failed, unmarshal_failed, outdated, database, Result, ok, err,
  Decoded, decoded, must_invalidate, malformed, Codec, PeerStorage, Found, found, missing, broken,
  Batch, entries,
}

wrap : Option ℕ → Option Error
wrap none = none
wrap (some e) = some (database e)

module _ {P D : Type 0} (codec : Codec P) (get : D → Bytes → Found)
    (set : D → Bytes → Bytes → D × Option ℕ) (exec : D → Batch → D × Option ℕ) where
  -- with no associated key one `Set`, or else a pipeline
  store : D → Bytes → Bytes → List Bytes → D × Option ℕ
  store d id text [] = set d id text
  store d id text (k ∷ ks) = exec d (entries id text (k ∷ ks))

  unfoldable pub add_all : List Bytes → P → D → D × Option Error
  unfolding wrap store
  add_all associated value d = elim (codec.marshal value) [
    | none ↦ (d, some marshal_failed)
    | some text ↦ let r = store d (string (codec.key value)) text associated in (r.0, wrap r.1)
  ]

  unfoldable pub add : P → D → D × Option Error
  add value d = add_all (codec.keys value) value d

  unfoldable pub assign : Bytes → P → D → D × Option Error
  assign key value d = add_all (codec.keys value ++ key ∷ []) value d

  decode : Decoded P → Result P
  decode (decoded p) = ok p
  decode must_invalidate = err outdated
  decode malformed = err unmarshal_failed

  -- the end of `Find` and of `Resolve`, from the read of the data on
  unfoldable pub read_data : Found → Result P
  unfolding decode
  read_data missing = err peer_not_found
  read_data (broken e) = err (database e)
  read_data (found text) = decode (codec.unmarshal text)

  unfoldable pub find : PeerKey → D → Result P
  find key d = read_data (get d (string key))

  read_id : D → Found → Result P
  read_id d missing = err peer_not_found
  read_id d (broken e) = err (database e)
  read_id d (found id) = read_data (get d id)

  unfoldable pub resolve : Bytes → D → Result P
  unfolding read_id
  resolve key d = read_id d (get d key)

  -- `PeerStorage`
  abbrev pub redis_storage : PeerStorage D P
  redis_storage = record { add = add; find = find; assign = assign; resolve = resolve }
