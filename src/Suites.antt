-- ===== src/Suites.antt =====
-- internal/tests/storage.go: the suites that each storage is tested by, as Boolean tests.
-- A suite that stops at a failed requirement is false. The timeout of the context is left out.
pub mod Passed
use tgcontrib.Base.{
  ℕ, ◌+◌, Bool, true, false, ◌&&◌, ◌||◌, List, [], ◌∷◌, Option, none, some, leb, if◌then◌else◌,
  Bytes, length,
}
use tgcontrib.Base.Int.{ℤ, pos, equal_ℤ}
use tgcontrib.Base.Text.{codes, equal}
use tgcontrib.Auth.Kv.{
  KvError, Got, got, refused, Credentials, Password, provided, not_provided, password_failed,
  Loaded, loaded, no_session, load_failed, Session, load_session, store_session, phone, password,
  save_phone, save_password,
}
use tgcontrib.Storage.Key.{DialogKey, PeerKey, key_from_peer}
use tgcontrib.Storage.Peer.{Api, Peer, InputPeer, input_peer_user, from_input_peer}
use tgcontrib.Storage.Store.{Error, peer_not_found, Result, ok, err, PeerStorage}

-- `a.NoError`
pub no_error : {E : Type 0} → Option E → Bool
no_error none = true
no_error (some e) = false

pub load_fails : Loaded → Bool
load_fails (loaded v) = false
load_fails no_session = true
load_fails (load_failed e) = true

loads : Bytes → Loaded → Bool
loads v (loaded w) = equal v w
loads v no_session = false
loads v (load_failed e) = false

gets : Bytes → Got → Bool
gets v (got w) = equal v w
gets v (refused e) = false

provides : Bytes → Password → Bool
provides v (provided w) = equal v w
provides v not_provided = false
provides v (password_failed e) = false

module _ {S : Type 0} where
  -- `TestSessionStorage`
  unfoldable pub test_session : Session S → S → Bool
  unfolding load_fails no_error loads
  test_session x s =
      let data' = codes "mytoken" in
      let r = store_session x data' s in
      load_fails (load_session x s) && (no_error r.1 && loads data' (load_session x r.0))

  -- `TestCredentials`
  unfoldable pub test_credentials : Credentials S → S → Bool
  unfolding no_error gets provides
  test_credentials c s =
      let p = save_phone c (codes "phone") s in
      let q = save_password c (codes "password") p.0 in
      no_error p.1
      && (no_error q.1
          && (gets (codes "phone") (phone c q.0) && provides (codes "password") (password c q.0)))

is_not_found : {P : Type 0} → Result P → Bool
is_not_found (ok p) = false
is_not_found (err peer_not_found) = true
is_not_found (err e) = false

is_ok : {P : Type 0} → Result P → Bool
is_ok (ok p) = true
is_ok (err e) = false

same_key : DialogKey → DialogKey → Bool
same_key a b = equal_ℤ a.kind b.kind && (equal_ℤ a.id b.id && equal_ℤ a.access_hash b.access_hash)

-- What a loop over the iterator gives: the peers, and the error behind it.
pub data Walk (P : Type 0) : Type 0 where
  walked : List P → Option ℕ → Walk P
  not_started : Walk P

module _ {S : Type 0} (api : Api) (storage : PeerStorage S (Peer api))
    (iterate : S → Walk (Peer api)) (unpack : InputPeer → Option DialogKey) (now : ℤ) where
  -- the peer of a user whose access hash is its id
  user : ℤ → Option (Peer api)
  user i = from_input_peer api unpack now (input_peer_user i i)

  -- the search for the last peer
  contains : DialogKey → List (Peer api) → Bool
  unfolding same_key
  contains k [] = false
  contains k (p ∷ l) = same_key p.key k || contains k l

  walk_has : DialogKey → Walk (Peer api) → Bool
  unfolding no_error contains
  walk_has k not_started = false
  walk_has k (walked l e) = no_error e && (leb 6 (length l) && contains k l)

  -- the loop over five more users, with the test of the iteration behind it
  add_users : List ℤ → DialogKey → S → Bool
  add_users [] last s = walk_has last (iterate s)
  add_users (i ∷ l) last s = elim (user i) [
    | none ↦ false
    | some p ↦ let r = storage.add p s in no_error r.1 && add_users l p.key r.0
  ]

  with_user : Peer api → S → Bool
  unfolding no_error is_ok is_not_found add_users walk_has user
  with_user p s =
      let r = storage.add p s in
      let q = storage.assign (codes "abc") p r.0 in
      is_not_found (storage.find (key_from_peer p.key) s)
      && (no_error r.1
          && (is_ok (storage.find (key_from_peer p.key) r.0)
              && (no_error q.1
                  && (is_ok (storage.resolve (codes "abc") q.0)
                      && add_users (pos 11 ∷ pos 12 ∷ pos 13 ∷ pos 14 ∷ pos 15 ∷ []) p.key q.0))))

  -- `TestPeerStorage`
  unfoldable pub test_peers : S → Bool
  unfolding with_user is_not_found user
  test_peers s =
      is_not_found (storage.resolve (codes "abc") s)
      && elim (user (pos 10)) [ none ↦ false | some p ↦ with_user p s ]
