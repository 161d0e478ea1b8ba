-- ===== src/Tests/Suites.antt =====
-- internal/tests/storage.go: the suites at storages in memory.
use tgcontrib.Base.{◌≡◌, ◌≢◌, refl, true, ◌&&◌, List, [], ◌∷◌, none, if◌then◌else◌, Bytes, arith}
use tgcontrib.Base.Int.{pos, equal_ℤ}
use tgcontrib.Base.Text.{codes, equal}
use tgcontrib.Auth.Kv.{
  key_not_found, Got, got, refused, Kv, Credentials, Session, load_session, store_session,
  save_phone, save_password,
}
use tgcontrib.Auth.Kv.Saved.{IsKv}
use tgcontrib.Storage.Key.{PeerKey, key_from_peer}
use tgcontrib.Storage.Peer.{Peer, from_input_peer}
use tgcontrib.Storage.Store.{peer_not_found, Result, ok, err, PeerStorage}
use tgcontrib.Suites.{walked, load_fails, no_error, test_session, test_credentials, test_peers}
use tgcontrib.Suites.Passed.{suites_decide}
use tgcontrib.Tests.Peers.{api}
use tgcontrib.Tests.Clients.{unpack}

abbrev Memory : Type 0
Memory = Bytes → Got

abbrev memory : Kv Memory
memory = record { set = λ k v s. (λ j. if equal k j then got v else s j, none); get = λ k s. s k }

abbrev empty : Memory
empty k = refused key_not_found

memory-IsKv : IsKv memory
memory-IsKv k v j s h = refl

abbrev session : Session Memory
session = record { storage = memory; key = codes "session" }

abbrev credentials : Credentials Memory
credentials = record {
  storage = memory;
  phone_key = codes "phone";
  password_key = codes "password";
}

two_keys : credentials.phone_key ≢ credentials.password_key
two_keys e = absurd (ground arith)

session_passes : test_session session empty ≡ true
unfolding test_session load_session store_session
session_passes = refl

suites_decide_example :
    (test_session session empty ≡ (
      load_fails (load_session session empty)
      && no_error (store_session session (codes "mytoken") empty).1))
    × (test_credentials credentials empty ≡ (
        no_error (save_phone credentials (codes "phone") empty).1
        && no_error
            (save_password credentials
              (codes "password")
              (save_phone credentials (codes "phone") empty).0).1))
suites_decide_example = suites_decide empty session credentials memory-IsKv memory-IsKv two_keys

-- A storage of two lists: the peers, and the peer of each name.
abbrev Shelf : Type 0
Shelf = List (Peer api) × List (Bytes × Peer api)

abbrev by_key : PeerKey → List (Peer api) → Result (Peer api)
by_key k [] = err peer_not_found
by_key k (p ∷ l) =
    let rest = by_key k l in if equal_ℤ k.id (key_from_peer p.key).id then ok p else rest

abbrev by_name : Bytes → List (Bytes × Peer api) → Result (Peer api)
by_name k [] = err peer_not_found
by_name k ((n, p) ∷ l) = let rest = by_name k l in if equal n k then ok p else rest

abbrev shelf : PeerStorage Shelf (Peer api)
shelf = record {
  add = λ p s. ((p ∷ s.0, s.1), none);
  find = λ k s. by_key k s.0;
  assign = λ n p s. ((s.0, (n, p) ∷ s.1), none);
  resolve = λ n s. by_name n s.1;
}

shelf_passes : test_peers api shelf (λ s. walked s.0 none) unpack (pos 99) ([], []) ≡ true
unfolding test_peers from_input_peer key_from_peer
shelf_passes = refl
