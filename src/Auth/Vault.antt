-- ===== src/Auth/Vault.antt =====
-- vault/client.go: the key-value storage on one secret of Vault.
-- The requests are a parameter: `fetch` is `getAll` and `send` is `putAll`. `Set` reads the secret,
-- changes one field and writes all of it.
pub mod Fields
pub mod Requests
use tgcontrib.Base.{ℕ, Option, none, some, if◌then◌else◌, Bytes}
use tgcontrib.Base.Text.{equal}
use tgcontrib.Auth.Kv.{KvError, key_not_found, kv_panics, kv_failed, Got, got, refused, Kv}

-- A field of a secret.
pub data Value : Type 0 where
  string_value : Bytes → Value
  other_value : Value

abbrev pub Secret : Type 0
Secret = Bytes → Option Value

-- What `getAll` returns: a secret, one whose `Data` is a nil map, no secret at all, which is what an
-- empty body is parsed to, ErrKeyNotFound, or an error.
pub data Fetched : Type 0 where
  fetched : Secret → Fetched
  without_data no_secret absent : Fetched
  fetch_failed : ℕ → Fetched

module _ {S : Type 0} (fetch : S → Fetched) (send : S → Secret → S × Option ℕ) where
  sent : S × Option ℕ → S × Option KvError
  sent (s, none) = (s, none)
  sent (s, some e) = (s, some (kv_failed e))

  with_field : Bytes → Bytes → Secret → Secret
  with_field k v d j = if equal k j then some (string_value v) else d j

  -- `add`; a field of a nil map cannot be set
  unfoldable pub vault_add : Bytes → Bytes → S → S × Option KvError
  unfolding sent with_field
  vault_add k v s = elim (fetch s) [
    | fetch_failed e ↦ (s, some (kv_failed e))
    | absent ↦ sent (send s (with_field k v (λ j. none)))
    | fetched d ↦ sent (send s (with_field k v d))
    | without_data ↦ (s, some kv_panics)
    | no_secret ↦ (s, some kv_panics)
  ]

  -- The error of a field that is no string has the number 0.
  field_reply : Option Value → Got
  field_reply none = refused key_not_found
  field_reply (some (string_value v)) = got v
  field_reply (some other_value) = refused (kv_failed 0)

  -- `get`
  unfoldable pub vault_get : Bytes → S → Got
  unfolding field_reply
  vault_get k s = elim (fetch s) [
    | fetch_failed e ↦ refused (kv_failed e)
    | absent ↦ refused key_not_found
    | fetched d ↦ field_reply (d k)
    | without_data ↦ refused key_not_found
    | no_secret ↦ refused kv_panics
  ]

  -- `Set` and `Get`
  abbrev pub vault_client : Kv S
  vault_client = record { set = vault_add; get = vault_get }
