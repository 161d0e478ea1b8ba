-- ===== src/Auth/Clients.antt =====
-- pebble/client.go, redis/client.go, s3/session.go, and the sessions and credentials that each
-- package makes of its client (session.go, auth.go). The databases' operations are parameters.
pub mod Sessions
use tgcontrib.Base.{ℕ, [], ◌∷◌, Option, none, some, Bytes}
use mathlib.Core.Option
use tgcontrib.Storage.Bbolt.{Bolt}
use tgcontrib.Storage.Store.{Batch, Found, found, missing, broken}
use tgcontrib.Auth.Kv.{
  KvError, key_not_found, kv_failed, Got, got, refused, Kv, Credentials, new_credentials, Session,
}
use tgcontrib.Auth.Bucket.{bucket_client}
use tgcontrib.Auth.Vault.{Fetched, Secret, vault_client}

module _ {D : Type 0} where
  pub to_reply : D × Option ℕ → D × Option KvError
  to_reply (d, none) = (d, none)
  to_reply (d, some e) = (d, some (kv_failed e))

  -- redis: `get` gives missing for `redis.Nil`
  module _ (get : D → Bytes → Found) (set : D → Bytes → Bytes → D × Option ℕ) where
    pub reply_of : Found → Got
    reply_of (found v) = got v
    reply_of missing = refused key_not_found
    reply_of (broken e) = refused (kv_failed e)

    unfoldable pub redis_set : Bytes → Bytes → D → D × Option KvError
    unfolding to_reply
    redis_set k v d = to_reply (set d k v)

    unfoldable pub redis_get : Bytes → D → Got
    unfolding reply_of
    redis_get k d = reply_of (get d k)

    abbrev pub redis_client : Kv D
    redis_client = record { set = redis_set; get = redis_get }

  -- pebble: `close_batch` and `close_value` are the errors of closing a batch and a value that was
  -- read; of two errors that are joined, the first is kept here.
  module _ (get : D → Bytes → Found) (commit : D → Batch → D × Option ℕ)
      (close_batch : D → Option ℕ) (close_value : D → Option ℕ) where
    pub closed : D × Option KvError → D × Option KvError
    closed (d, some e) = (d, some e)
    closed (d, none) = (d, Option.map kv_failed (close_batch d))

    unfoldable pub pebble_set : Bytes → Bytes → D → D × Option KvError
    unfolding to_reply closed
    pebble_set k v d = closed (to_reply (commit d ((k, v) ∷ [])))

    pub value_reply : Bytes → Option ℕ → Got
    value_reply v none = got v
    value_reply v (some e) = refused (kv_failed e)

    pub pebble_reply : D → Found → Got
    unfolding value_reply
    pebble_reply d (found v) = value_reply v (close_value d)
    pebble_reply d missing = refused key_not_found
    pebble_reply d (broken e) = refused (kv_failed e)

    unfoldable pub pebble_get : Bytes → D → Got
    unfolding pebble_reply
    pebble_get k d = pebble_reply d (get d k)

    abbrev pub pebble_storage : Kv D
    pebble_storage = record { set = pebble_set; get = pebble_get }

-- `kv.NewSession`
unfoldable pub new_session : {S : Type 0} → Kv S → Bytes → Session S
new_session s key = record { storage = s; key = key }

-- `NewSessionStorage` and `NewCredentials` of the packages bbolt, vault, pebble and redis
unfoldable pub bbolt_session : {D B : Type 0} → Bolt D B → Bytes → Session D
unfolding new_session
bbolt_session bolt key = new_session (bucket_client bolt) key

unfoldable pub bbolt_credentials : {D B : Type 0} → Bolt D B → Credentials D
bbolt_credentials bolt = new_credentials (bucket_client bolt)

unfoldable pub vault_session :
    {S : Type 0} → (S → Fetched) → (S → Secret → S × Option ℕ) → Bytes → Session S
unfolding new_session
vault_session fetch send key = new_session (vault_client fetch send) key

unfoldable pub vault_credentials :
    {S : Type 0} → (S → Fetched) → (S → Secret → S × Option ℕ) → Credentials S
vault_credentials fetch send = new_credentials (vault_client fetch send)

unfoldable pub redis_session :
    {D : Type 0} → (D → Bytes → Found) → (D → Bytes → Bytes → D × Option ℕ) → Bytes → Session D
unfolding new_session
redis_session get set key = new_session (redis_client get set) key

unfoldable pub redis_credentials :
    {D : Type 0} → (D → Bytes → Found) → (D → Bytes → Bytes → D × Option ℕ) → Credentials D
redis_credentials get set = new_credentials (redis_client get set)

module _ {D : Type 0} (get : D → Bytes → Found) (commit : D → Batch → D × Option ℕ)
    (close_batch : D → Option ℕ) (close_value : D → Option ℕ) where
  unfoldable pub pebble_session : Bytes → Session D
  unfolding new_session
  pebble_session key = new_session (pebble_storage get commit close_batch close_value) key

  unfoldable pub pebble_credentials : Credentials D
  pebble_credentials = new_credentials (pebble_storage get commit close_batch close_value)

-- The errors of the session storage on S3, by the call of the client that fails.
pub data S3Error : Type 0 where
  get_failed read_failed create_failed put_failed : ℕ → S3Error

-- The client of S3 (github.com/minio/minio-go) on one bucket and one object. `GetObject` gives a
-- reader, whose own error shows when it is read.
pub record S3 (D : Type 0) : Type 0 where
  pub get_object : D → Option ℕ
  pub read_all : D → Found
  pub make_bucket : D → D × Option ℕ
  pub put_object : Bytes → D → D × Option ℕ

pub data S3Loaded : Type 0 where
  s3_loaded : Bytes → S3Loaded
  s3_failed : S3Error → S3Loaded

module _ {D : Type 0} (s3 : S3 D) (no_such_key : ℕ) where
  pub s3_read : Found → S3Loaded
  s3_read (found v) = s3_loaded v
  s3_read missing = s3_failed (read_failed no_such_key)
  s3_read (broken e) = s3_failed (read_failed e)

  unfoldable pub s3_load_session : D → S3Loaded
  unfolding s3_read
  s3_load_session d = elim (s3.get_object d) [
    | some e ↦ s3_failed (get_failed e)
    | none ↦ s3_read (s3.read_all d)
  ]

  pub s3_put : D × Option ℕ → D × Option S3Error
  s3_put (d, none) = (d, none)
  s3_put (d, some e) = (d, some (put_failed e))

  pub s3_made : Bytes → D × Option ℕ → D × Option S3Error
  unfolding s3_put
  s3_made v (d, some e) = (d, some (create_failed e))
  s3_made v (d, none) = s3_put (s3.put_object v d)

  unfoldable pub s3_store_session : Bytes → D → D × Option S3Error
  unfolding s3_made
  s3_store_session v d = s3_made v (s3.make_bucket d)
