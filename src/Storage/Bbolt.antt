-- ===== src/Storage/Bbolt.antt =====
-- bbolt/peer_storage.go: the peer storage on bbolt; its iterator is in Iterate.
-- The operations of the database are a parameter: `D` is the state of a database, `B` that of the
-- storage's bucket in a transaction. A transaction whose function fails is rolled back.
pub mod Atomic
pub mod Reads
use tgcontrib.Base.{ℕ, List, [], ◌∷◌, ◌++◌, Option, none, some, Bytes}
use tgcontrib.Storage.Key.{PeerKey, bytes}
use tgcontrib.Storage.Store.{
  Error, peer_not_found, no_bucket, marshal_failed, unmarshal_failed, database, Result, ok, err,
  Decoded, decoded, must_invalidate, malformed, Codec, PeerStorage,
}

pub data Tried (B : Type 0) : Type 0 where
  done : B → Tried B
  refused : ℕ → Tried B

pub record Bolt (D B : Type 0) : Type 0 where
  pub bucket : D → Option B
  pub create : D → Tried B
  pub put : B → Bytes → Bytes → Tried B
  pub lookup : B → Bytes → Option Bytes
  pub commit : D → B → D × Option ℕ

module _ {P D B : Type 0} (codec : Codec P) (bolt : Bolt D B) where
  -- the loop over the associated keys, behind the bucket so far
  put_links : Bytes → List Bytes → Tried B → Tried B
  put_links id ks (refused e) = refused e
  put_links id [] (done b) = done b
  put_links id (k ∷ ks) (done b) = put_links id ks (bolt.put b k id)

  finish : D × Option ℕ → D × Option Error
  finish (d', none) = (d', none)
  finish (d', some e) = (d', some (database e))

  end_batch : D → Tried B → D × Option Error
  end_batch d (refused e) = (d, some (database e))
  end_batch d (done b) = finish (bolt.commit d b)

  -- the function of the transaction, behind the bucket
  fill : List Bytes → P → D → Tried B → D × Option Error
  fill associated value d (refused e) = (d, some (database e))
  fill associated value d (done b) = elim (codec.marshal value) [
    | none ↦ (d, some marshal_failed)
    | some text ↦
        let id = bytes (codec.key value) [] in
        end_batch d (put_links id associated (bolt.put b id text))
  ]

  unfoldable pub add_all : List Bytes → P → D → D × Option Error
  unfolding put_links finish end_batch fill
  add_all associated value d = fill associated value d (bolt.create d)

  unfoldable pub add : P → D → D × Option Error
  add value d = add_all (codec.keys value) value d

  unfoldable pub assign : Bytes → P → D → D × Option Error
  assign key value d = add_all (codec.keys value ++ key ∷ []) value d

  decode : Decoded P → Result P
  decode (decoded p) = ok p
  decode must_invalidate = err peer_not_found
  decode malformed = err unmarshal_failed

  -- the end of `Find` and of `Resolve`, from the read of the data on
  read_data : Option Bytes → Result P
  read_data none = err peer_not_found
  read_data (some text) = decode (codec.unmarshal text)

  unfoldable pub find : PeerKey → D → Result P
  unfolding read_data decode
  find key d = elim (bolt.bucket d) [
    | none ↦ err no_bucket
    | some b ↦ read_data (bolt.lookup b (bytes key []))
  ]

  read_id : B → Option Bytes → Result P
  read_id b none = err peer_not_found
  read_id b (some id) = read_data (bolt.lookup b id)

  unfoldable pub resolve : Bytes → D → Result P
  unfolding read_id read_data decode
  resolve key d = elim (bolt.bucket d) [
    | none ↦ err no_bucket
    | some b ↦ read_id b (bolt.lookup b key)
  ]

  -- `PeerStorage`
  abbrev pub bbolt_storage : PeerStorage D P
  bbolt_storage = record { add = add; find = find; assign = assign; resolve = resolve }
