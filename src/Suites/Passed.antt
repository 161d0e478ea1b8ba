-- ===== src/Suites/Passed.antt =====
-- internal/tests/storage.go: the suites of a session and of credentials over a key-value storage.
use tgcontrib.Base.{◌≡◌, ◌≢◌, refl, Bool, true, false, ◌&&◌, Option, none, some}
use tgcontrib.Base.Text.{codes}
use tgcontrib.Auth.Kv.{
  Session, load_session, store_session, save_phone, save_password, Credentials, phone, password,
}
use tgcontrib.Auth.Kv.Saved.{IsKv, load_session-store_session, saved_credentials}
use tgcontrib.Suites.{load_fails, no_error, loads, gets, provides, test_session, test_credentials}

false-ne-true : false ≡ true → ⊥
false-ne-true h = cc

-- A last requirement that the first two bring with them.
and_when : (a b c : Bool) → (a ≡ true → b ≡ true → c ≡ true) → (a && (b && c)) ≡ (a && b)
and_when false b c h = refl
and_when true false c h = refl
and_when true true c h = h refl refl

no_error-none : {E : Type 0} (o : Option E) → no_error o ≡ true → o ≡ none
unfolding no_error
no_error-none none h = refl
no_error-none (some e) h = absurd (false-ne-true h)

module _ {S : Type 0} (s : S) where
  session_decides :
      (x : Session S)
      → IsKv x.storage
      → test_session x s
        ≡ (load_fails (load_session x s) && no_error (store_session x (codes "mytoken") s).1)
  unfolding test_session loads
  session_decides x kv =
      let data' = codes "mytoken" in
      let r = store_session x data' s in
      and_when (load_fails (load_session x s)) (no_error r.1) (loads data' (load_session x r.0))
        (λ f h. rw (load_session-store_session x data' s kv (no_error-none r.1 h)) refl)

  credentials_decide :
      (c : Credentials S)
      → IsKv c.storage
      → c.phone_key ≢ c.password_key
      → test_credentials c s ≡ (
          no_error (save_phone c (codes "phone") s).1
          && no_error (save_password c (codes "password") (save_phone c (codes "phone") s).0).1)
  unfolding test_credentials gets provides
  credentials_decide c kv n =
      let p = save_phone c (codes "phone") s in
      let q = save_password c (codes "password") p.0 in
      and_when (no_error p.1) (no_error q.1)
        (gets (codes "phone") (phone c q.0) && provides (codes "password") (password c q.0))
        (λ h g.
          let (e, f) =
            saved_credentials c (codes "phone") (codes "password") s kv n (no_error-none p.1 h)
              (no_error-none q.1 g) in
          rw (e, f) refl)

  -- Over key-value storages, the suite of a session passes exactly where no session can be
  -- loaded before and the session is stored without an error, and the suite of credentials
  -- under two keys exactly where the phone and then the password are saved without an error:
  -- all their other requirements follow.
  pub suites_decide :
      (x : Session S) (c : Credentials S)
      → IsKv x.storage
      → IsKv c.storage
      → c.phone_key ≢ c.password_key
      → (test_session x s
          ≡ (load_fails (load_session x s) && no_error (store_session x (codes "mytoken") s).1))
        × (test_credentials c s ≡ (
            no_error (save_phone c (codes "phone") s).1
            && no_error (save_password c (codes "password") (save_phone c (codes "phone") s).0).1))
  suites_decide x c kx kc n = (session_decides x kx, credentials_decide c kc n)
