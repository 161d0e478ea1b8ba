-- ===== src/Auth/Bucket.antt =====
-- bbolt/client.go: the key-value storage on a bucket of bbolt, on the operations of Storage/Bbolt.
-- The error of a missing bucket has the number 0.
pub mod Sets
use tgcontrib.Base.{ℕ, Option, none, some, Bytes}
use tgcontrib.Storage.Bbolt.{Tried, done, refused, Bolt}
use tgcontrib.Auth.Kv.{KvError, key_not_found, kv_failed, Got, got, refused as kv_refused, Kv}

module _ {D B : Type 0} (bolt : Bolt D B) where
  committed : D × Option ℕ → D × Option KvError
  committed (d, none) = (d, none)
  committed (d, some e) = (d, some (kv_failed e))

  after_put : D → Tried B → D × Option KvError
  after_put d (refused e) = (d, some (kv_failed e))
  after_put d (done b) = committed (bolt.commit d b)

  after_create : Bytes → Bytes → D → Tried B → D × Option KvError
  after_create k v d (refused e) = (d, some (kv_failed e))
  after_create k v d (done b) = after_put d (bolt.put b k v)

  -- `Set`
  unfoldable pub bucket_set : Bytes → Bytes → D → D × Option KvError
  unfolding after_create after_put committed
  bucket_set k v d = after_create k v d (bolt.create d)

  value_reply : Option Bytes → Got
  value_reply none = kv_refused key_not_found
  value_reply (some v) = got v

  -- `Get`
  unfoldable pub bucket_get : Bytes → D → Got
  unfolding value_reply
  bucket_get k d = elim (bolt.bucket d) [
    | none ↦ kv_refused (kv_failed 0)
    | some b ↦ value_reply (bolt.lookup b k)
  ]

  abbrev pub bucket_client : Kv D
  bucket_client = record { set = bucket_set; get = bucket_get }
