-- ===== src/Tests/Hooks.antt =====
-- storage/hook.go on pebble, with an update of one user.
use tgcontrib.Base.{ℕ, ◌≡◌, refl, List, [], ◌∷◌, ◌++◌, map, Option, none, some}
use tgcontrib.Base.Int.{pos}
use tgcontrib.Storage.Peer.{Peer, ChatClass, UserClass, user_full, user_empty, from_user, from_chat}
use tgcontrib.Storage.Json.{marshal, marshal_json, peer_codec}
use tgcontrib.Storage.Store.{Codec, missing}
use tgcontrib.Storage.Pebble
use tgcontrib.Storage.Pebble.{pebble_storage}
use tgcontrib.Storage.Pebble.Holds.{HasData, handle-pebble}
use tgcontrib.Storage.Clients.{handle}
use tgcontrib.Storage.Clients.Collector.{AllHeld}
use tgcontrib.Tests.Peers.{api, wire, peer_of, Store, get, commit, IsDatabase-laws}

abbrev codec : Codec (Peer api)
codec = peer_codec api (wire (pos 2)) (pos 0) (peer_of (pos 0))

abbrev next : Store → Store × Option ℕ
next d = (d, none)

abbrev chats : List (ChatClass api)
chats = []

abbrev users : List (UserClass api)
users = user_full tt ∷ user_empty ∷ []

abbrev empty : Store
empty k = missing

no_errors :
    (handle api (pebble_storage codec get commit) next (pos 99) (some (chats, users)) empty).1 ≡ []
unfolding handle from_user Pebble.add Pebble.add_all marshal_json marshal
no_errors = refl

handle-pebble_example :
    AllHeld api
      (HasData get)
      (map (from_chat api (pos 99)) chats ++ map (from_user api (pos 99)) users)
      (handle api (pebble_storage codec get commit) next (pos 99) (some (chats, users)) empty).0
handle-pebble_example =
    handle-pebble api codec get commit IsDatabase-laws (λ p. refl) next (pos 99) chats users empty
      (λ k t h. h) no_errors
