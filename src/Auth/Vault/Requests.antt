-- ===== src/Auth/Vault/Requests.antt =====
-- vault/client.go: `getAll` and `putAll`, the requests behind the secret.
-- The HTTP client and the JSON of a secret (github.com/hashicorp/vault/api) are parameters,
-- as is the type `B` of a body. The path of the secret is part of `get_raw` and `put_raw`; the errors are not wrapped, and one of
-- closing a body is lost, since it is put into a variable that has been returned already.
use tgcontrib.Base.{ℕ, ◌≡◌, refl, ◌==◌, false, Option, none, some, if◌then◌else◌}
use tgcontrib.Auth.Kv.Saved.{IsKv}
use tgcontrib.Auth.Vault.{
  Secret, Fetched, fetched, without_data, no_secret, absent, fetch_failed, vault_client,
}
use tgcontrib.Auth.Vault.Fields.{vault_client-IsKv}

-- What `RawRequestWithContext` returns: a response, by its status and its body, and maybe an error
-- too, or an error alone.
pub data Response (B : Type 0) : Type 0 where
  response : ℕ → B → Option ℕ → Response B
  no_response : ℕ → Response B

pub data Encoded (B : Type 0) : Type 0 where
  encoded : B → Encoded B
  not_encoded : ℕ → Encoded B

-- What `ParseSecret` gives: a secret, one with a nil map, no secret, for an empty body, or an error.
pub data Parsed : Type 0 where
  parsed : Secret → Parsed
  parsed_without_data parsed_nothing : Parsed
  not_parsed : ℕ → Parsed

unfoldable pub error_of : {B : Type 0} → Response B → Option ℕ
error_of (response status body err) = err
error_of (no_response e) = some e

module _ {S B : Type 0} (get_raw : S → Response B) (put_raw : S → B → S × Response B)
    (encode : Secret → Encoded B) (parse : B → Parsed) where
  -- the end of `getAll`
  parsed_secret : Parsed → Fetched
  parsed_secret (parsed d) = fetched d
  parsed_secret parsed_without_data = without_data
  parsed_secret parsed_nothing = no_secret
  parsed_secret (not_parsed e) = fetch_failed e

  without_error : Option ℕ → B → Fetched
  unfolding parsed_secret
  without_error none body = parsed_secret (parse body)
  without_error (some e) body = fetch_failed e

  fetched_by : Response B → Fetched
  unfolding without_error
  fetched_by (response status body err) = if status == 404 then absent else without_error err body
  fetched_by (no_response e) = fetch_failed e

  unfoldable pub get_all : S → Fetched
  unfolding fetched_by
  get_all s = fetched_by (get_raw s)

  -- the end of `putAll`: the status of the response is not looked at
  put_body : Encoded B → S → S × Option ℕ
  unfolding error_of
  put_body (encoded body) s = let (s', r) = put_raw s body in (s', error_of r)
  put_body (not_encoded e) s = (s, some e)

  unfoldable pub put_all : S → Secret → S × Option ℕ
  unfolding put_body
  put_all s d = put_body (encode d) s

  -- A secret that was put without an error is read, by a response that is no error and not 404.
  abbrev pub IsServer : Type 0
  IsServer =
      (s : S) (d : Secret) (body : B)
      → encode d ≡ encoded body
      → error_of (put_raw s body).1 ≡ none
      → (status : ℕ) × (answer : B) × (get_raw (put_raw s body).0 ≡ response status answer none)
        × ((status == 404) ≡ false)
        × (parse answer ≡ parsed d)

  some-ne-none : {e : ℕ} → some e ≡ none → ⊥
  some-ne-none h = cc

  put_body-Keeps :
      (o : Encoded B) (s : S) (d : Secret)
      → encode d ≡ o
      → IsServer
      → (put_body o s).1 ≡ none
      → get_all (put_body o s).0 ≡ fetched d
  unfolding put_body get_all
  put_body-Keeps (not_encoded e) s d o server h = absurd (some-ne-none h)
  put_body-Keeps (encoded body) s d o server h =
      let (status, answer, got, found, same) = server s d body o h in
      rw (got, fetched_by) (rw found (rw (same, parsed_secret) refl))

  -- Where the server answers a request behind a put without an error by a response that is no
  -- error, not 404 and parses to the secret that was put, Set on Vault without an error makes
  -- its value readable and leaves the answer for every other key, also where the answer before
  -- was 404.
  pub raw_vault-IsKv : IsServer → IsKv (vault_client get_all put_all)
  unfolding put_all
  raw_vault-IsKv server =
      vault_client-IsKv get_all put_all (λ s d h. put_body-Keeps (encode d) s d refl server h)
