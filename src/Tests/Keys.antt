-- ===== src/Tests/Keys.antt =====
-- storage/key.go and storage/peer_as.go at concrete keys and peers.
use tgcontrib.Base.{◌≡◌, ◌≢◌, ◌⊎◌, refl, false, [], ◌++◌, Option, none, some, arith}
use tgcontrib.Base.Int.{pos}
use tgcontrib.Base.Text.{codes, has_prefix}
use tgcontrib.Storage.Key.{DialogKey, PeerKey, invalid_key, parse_id, bytes, string, parse}
use tgcontrib.Storage.Key.RoundTrip.{
  IsKey, IsKeyText, bytes-string, parse-bytes, bytes_injective, parse_sound, parse-error_keeps,
}
use tgcontrib.Storage.Prefix.{visits}
use tgcontrib.Storage.Prefix.Range.{visits-has_prefix}
use tgcontrib.Storage.Peer.{
  Api, Peer, InputPeer, input_peer_user, input_peer_chat, input_peer_channel, input_peer_other,
  from_input_peer, as_input_peer,
}
use tgcontrib.Storage.Peer.Views.{KindsDiffer, Unpacks, as_input_peer-from_input_peer}

abbrev user_key : PeerKey
user_key = record { kind = pos 0; id = pos 10 }

user_key-IsKey : IsKey (pos 2) user_key
user_key-IsKey = record { kind_fits = omega arith; id_fits = omega arith; kind_known = omega arith }

bytes-string_example : bytes user_key (codes "> ") ≡ codes "> " ++ string user_key
bytes-string_example = bytes-string user_key (codes "> ")

parse-bytes_example :
    parse (pos 2) (record { kind = pos 1; id = pos 1 }) (bytes user_key []) ≡ (user_key, none)
parse-bytes_example =
    parse-bytes (pos 2) user_key (record { kind = pos 1; id = pos 1 }) user_key-IsKey

bytes_injective_run : user_key ≡ user_key
bytes_injective_run = bytes_injective (pos 2) user_key user_key user_key-IsKey user_key-IsKey refl

parse_sound_example : IsKeyText (pos 2) (bytes user_key []) user_key
parse_sound_example =
    parse_sound (pos 2) user_key user_key (bytes user_key [])
      (parse-bytes (pos 2) user_key user_key user_key-IsKey)

parse_empty : parse (pos 2) user_key [] ≡ (user_key, some invalid_key)
unfolding parse has_prefix
parse_empty = refl

parse-error_keeps_run :
    (user_key.id ≡ user_key.id) × ((user_key ≡ user_key) ⊎ (invalid_key ≡ parse_id))
parse-error_keeps_run = parse-error_keeps (pos 2) user_key user_key [] invalid_key parse_empty

abbrev api : Api
api = record {
  User = Unit;
  Chat = Unit;
  Channel = Unit;
  Metadata = Unit;
  user_id = λ u. pos 0;
  user_access_hash = λ u. pos 0;
  user_username = λ u. [];
  user_phone = λ u. [];
  chat_id = λ c. pos 0;
  channel_id = λ c. pos 0;
  channel_access_hash = λ c. pos 0;
  channel_username = λ c. [];
  channel_min = λ c. false;
  user_kind = pos 0;
  chat_kind = pos 1;
  channel_kind = pos 2;
}

abbrev unpack : InputPeer → Option DialogKey
unpack (input_peer_user id h) = some (record { kind = pos 0; id = id; access_hash = h })
unpack (input_peer_chat id) = some (record { kind = pos 1; id = id; access_hash = pos 0 })
unpack (input_peer_channel id h) = some (record { kind = pos 2; id = id; access_hash = h })
unpack input_peer_other = none

kinds : KindsDiffer api
kinds = record {
  user_chat = λ e. absurd (ground arith);
  user_channel = λ e. absurd (ground arith);
  chat_channel = λ e. absurd (ground arith);
}

unpacks : Unpacks api unpack
unpacks = record { users = λ id h. refl; chats = λ id. refl; channels = λ id h. refl }

not_other : input_peer_user (pos 10) (pos 7) ≢ input_peer_other
not_other = λ e. cc e

as_input_peer-from_input_peer_run :
    (p : Peer api) × (from_input_peer api unpack (pos 99) (input_peer_user (pos 10) (pos 7))
      ≡ some p)
    × (as_input_peer api p ≡ some (input_peer_user (pos 10) (pos 7)))
as_input_peer-from_input_peer_run =
    as_input_peer-from_input_peer api unpack (pos 99) (input_peer_user (pos 10) (pos 7)) kinds
      unpacks not_other

visits-has_prefix_example :
    visits (codes "peer") (codes "peer0_1") ≡ has_prefix (codes "peer0_1") (codes "peer")
visits-has_prefix_example =
    visits-has_prefix (codes "peer") (codes "peer0_1")
      (omega arith, (omega arith, (omega arith, (omega arith, tt))))
      (
        omega arith,
        (
          omega arith,
          (omega arith, (omega arith, (omega arith, (omega arith, (omega arith, tt))))),
        ),
      )
