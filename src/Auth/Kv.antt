-- ===== src/Auth/Kv.antt =====
-- auth/kv: the credentials and the session of a user over a key-value storage.
pub mod Saved
use tgcontrib.Base.{ℕ, Option, none, some, Bytes}
use tgcontrib.Base.Text.{codes}

-- `ErrKeyNotFound`, the errors of the storage by a number, and a panic of the storage, which ends the
-- caller's call too.
pub data KvError : Type 0 where
  key_not_found kv_panics : KvError
  kv_failed : ℕ → KvError

pub data Got : Type 0 where
  got : Bytes → Got
  refused : KvError → Got

-- `Storage`, on its state `S`.
pub record Kv (S : Type 0) : Type 0 where
  pub set : Bytes → Bytes → S → S × Option KvError
  pub get : Bytes → S → Got

pub record Credentials (S : Type 0) : Type 0 where
  pub storage : Kv S
  pub phone_key : Bytes
  pub password_key : Bytes

-- What `Password` returns; `not_provided` is `ErrPasswordNotProvided`.
pub data Password : Type 0 where
  provided : Bytes → Password
  not_provided : Password
  password_failed : KvError → Password

-- What `LoadSession` returns; `no_session` is `session.ErrNotFound`.
pub data Loaded : Type 0 where
  loaded : Bytes → Loaded
  no_session : Loaded
  load_failed : KvError → Loaded

pub record Session (S : Type 0) : Type 0 where
  pub storage : Kv S
  pub key : Bytes

password_reply : Got → Password
password_reply (got v) = provided v
password_reply (refused key_not_found) = not_provided
password_reply (refused e) = password_failed e

session_reply : Got → Loaded
session_reply (got v) = loaded v
session_reply (refused key_not_found) = no_session
session_reply (refused e) = load_failed e

module _ {S : Type 0} where
  unfoldable pub new_credentials : Kv S → Credentials S
  new_credentials s = record {
    storage = s;
    phone_key = codes "phone";
    password_key = codes "password";
  }

  unfoldable pub with_phone_key : Credentials S → Bytes → Credentials S
  with_phone_key c k = record c { phone_key = k }

  unfoldable pub with_password_key : Credentials S → Bytes → Credentials S
  with_password_key c k = record c { password_key = k }

  unfoldable pub phone : Credentials S → S → Got
  phone c s = c.storage.get c.phone_key s

  unfoldable pub password : Credentials S → S → Password
  unfolding password_reply
  password c s = password_reply (c.storage.get c.password_key s)

  unfoldable pub save_phone : Credentials S → Bytes → S → S × Option KvError
  save_phone c v s = c.storage.set c.phone_key v s

  unfoldable pub save_password : Credentials S → Bytes → S → S × Option KvError
  save_password c v s = c.storage.set c.password_key v s

  unfoldable pub load_session : Session S → S → Loaded
  unfolding session_reply
  load_session x s = session_reply (x.storage.get x.key s)

  unfoldable pub store_session : Session S → Bytes → S → S × Option KvError
  store_session x v s = x.storage.set x.key v s
