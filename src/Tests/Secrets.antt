-- ===== src/Tests/Secrets.antt =====
-- auth/kv and vault/client.go at concrete storages.
use tgcontrib.Base.{◌≡◌, ◌≢◌, refl, ℕ, Option, none, some, ap, sym, if◌then◌else◌, Bytes, arith}
use tgcontrib.Base.Text.{codes, equal}
use tgcontrib.Auth.Kv.{
  key_not_found, Got, got, refused, Kv, Credentials, new_credentials, provided, phone, password,
  save_phone, save_password,
}
use tgcontrib.Auth.Kv.Saved.{IsKv, saved_credentials}
use tgcontrib.Auth.Vault.{Secret, Fetched, fetched, vault_client}
use tgcontrib.Auth.Vault.Requests.{
  Response, response, encoded, parsed, IsServer, get_all, put_all, raw_vault-IsKv,
}
use tgcontrib.Auth.Vault.Fields.{Keeps, vault_client-IsKv}

abbrev Memory : Type 0
Memory = Bytes → Got

abbrev memory : Kv Memory
memory = record { set = λ k v s. (λ j. if equal k j then got v else s j, none); get = λ k s. s k }

abbrev empty : Memory
empty k = refused key_not_found

memory-IsKv : IsKv memory
memory-IsKv k v j s h = refl

abbrev credentials : Credentials Memory
credentials = new_credentials memory

credentials-IsKv : IsKv credentials.storage
unfolding new_credentials
credentials-IsKv = memory-IsKv

two_keys : credentials.phone_key ≢ credentials.password_key
unfolding new_credentials
two_keys = λ e. absurd (ground arith)

phone_saved : (save_phone credentials (codes "42") empty).1 ≡ none
unfolding save_phone new_credentials
phone_saved = refl

password_saved :
    (save_password credentials (codes "pw") (save_phone credentials (codes "42") empty).0).1 ≡ none
unfolding save_password new_credentials
password_saved = refl

saved_credentials_run :
    (phone credentials
        (save_password credentials (codes "pw") (save_phone credentials (codes "42") empty).0).0
      ≡ got (codes "42"))
    × (password credentials
          (save_password credentials (codes "pw") (save_phone credentials (codes "42") empty).0).0
        ≡ provided (codes "pw"))
saved_credentials_run =
    saved_credentials credentials (codes "42") (codes "pw") empty credentials-IsKv two_keys
      phone_saved password_saved

-- A server that holds one secret.
abbrev fetch : Fetched → Fetched
fetch s = s

abbrev put_secret : Fetched → Secret → Fetched × Option ℕ
put_secret s d = (fetched d, none)

put_secret-Keeps : Keeps fetch put_secret
put_secret-Keeps s d h = refl

vault_client-IsKv_run : IsKv (vault_client fetch put_secret)
vault_client-IsKv_run = vault_client-IsKv fetch put_secret put_secret-Keeps

-- A server that answers with the body that was put, and with 404 before.
abbrev get_body : Option Secret → Response Secret
get_body none = response 404 (λ k. none) (some 1)
get_body (some d) = response 200 d none

abbrev put_body : Option Secret → Secret → Option Secret × Response Secret
put_body s d = (some d, response 204 d none)

encoded_injective : {a b : Secret} → encoded a ≡ encoded b → a ≡ b
encoded_injective h = cc

body_server : IsServer get_body put_body encoded parsed
body_server s d body e h = (200, body, refl, refl, ap parsed (encoded_injective (sym e)))

raw_vault-IsKv_example : IsKv (
    vault_client
      (get_all get_body put_body encoded parsed)
      (put_all get_body put_body encoded parsed))
raw_vault-IsKv_example = raw_vault-IsKv get_body put_body encoded parsed body_server
