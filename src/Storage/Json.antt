-- ===== src/Storage/Json.antt =====
-- storage/peer.go: `Marshal` and `Unmarshal` of a peer.
-- The JSON library, Base64, the JSON of the metadata and the binary encoding of Telegram's objects are
-- the parameter `Wire`. What `Unmarshal` leaves in its receiver where it fails is left out: `Find` and
-- `Resolve` drop it, and the iterators, which read the next text into it, take reading as a parameter.
pub mod Texts
mod Values
pub mod Steps
pub mod RoundTrip
use tgcontrib.Base.{
  ℕ, ◌+◌, ◌-◌, ◌*◌, ◌/◌, Bool, [], ◌∷◌, Option, none, some, ltb, if◌then◌else◌, not, Bytes,
}
use tgcontrib.Base.Decimal.{two_63}
use tgcontrib.Base.Int.{ℤ, pos, negsuc}
use tgcontrib.Base.Text.{codes, equal}
use tgcontrib.Storage.Key.{DialogKey, key_from_peer}
use tgcontrib.Storage.Peer.{Api, Peer, latest_version, int_eq, keys}
pub use Values.*
use tgcontrib.Storage.Store.{Decoded, decoded, must_invalidate, malformed, Codec}

abbrev pub fits : ℤ → Bool
fits (pos n) = ltb n two_63
fits (negsuc n) = ltb n two_63

abbrev pub second : ℕ
second = 1000000000

-- `CreatedAt.Unix()`: a time, in nanoseconds, as the second it lies in.
abbrev pub unix : ℤ → ℤ
unix (pos n) = pos (n / second)
unix (negsuc n) = negsuc (n / second)

-- `time.Unix(v, 0)`
abbrev pub from_unix : ℤ → ℤ
from_unix (pos n) = pos (n * second)
from_unix (negsuc n) = negsuc ((n + 1) * second - 1)

-- `Int` and `Int64` of the decoder
pub int_of : Json → Option ℤ
int_of (number z) = if fits z then some z else none
int_of (text s) = none
int_of (object fs) = none
int_of other = none

-- A step of the decoder.
pub data Step (A : Type 0) : Type 0 where
  stepped : A → Step A
  fails : Step A
  unexpected : Step A

set_int : {A : Type 0} → Option ℤ → (ℤ → A) → Step A
set_int none f = fails
set_int (some z) f = stepped (f z)

and_then : {A B : Type 0} → Step A → (A → Step B) → Step B
and_then (stepped a) f = f a
and_then fails f = fails
and_then unexpected f = unexpected

-- the first pass: the last field `Version` counts
pub version_of : Fields → ℤ → Option ℤ
version_of no_fields v = some v
version_of (field name j fs) v =
    let skipped = version_of fs v in
    let read : Option ℤ = elim (int_of j) [ none ↦ none | some z ↦ version_of fs z ] in
    if equal name (codes "Version") then read else skipped

-- the fields of `Key`
set_key_field : Bytes → Json → DialogKey → Step DialogKey
set_key_field name j k =
    if equal name (codes "Kind")
    then set_int (int_of j) (λ z. record k { kind = z })
    else if equal name (codes "ID")
    then set_int (int_of j) (λ z. record k { id = z })
    else if equal name (codes "AccessHash")
    then set_int (int_of j) (λ z. record k { access_hash = z })
    else stepped k

key_fields : Fields → DialogKey → Step DialogKey
key_fields no_fields k = stepped k
key_fields (field name j fs) k = and_then (set_key_field name j k) (λ k'. key_fields fs k')

pub read_key : Json → DialogKey → Step DialogKey
read_key (object fs) k = key_fields fs k
read_key (number z) k = fails
read_key (text s) k = fails
read_key other k = fails

bin_step : {A : Type 0} → Bin A → Step A
bin_step (bin_value a) = stepped a
bin_step unexpected_id = unexpected
bin_step bin_error = fails

-- `decodeObject`
decode_object : {A : Type 0} → (Bytes → Bin A) → Option Bytes → Step A
decode_object decode none = fails
decode_object decode (some b) = bin_step (decode b)

module _ (api : Api) (wire : Wire api) where
  set_metadata : Option (Option (api.Metadata)) → Peer api → Step (Peer api)
  set_metadata none p = fails
  set_metadata (some m) p = stepped (record p { metadata = m })

  -- one field of the second pass
  set_field : Bytes → Json → Peer api → Step (Peer api)
  set_field name j p =
      if equal name (codes "Version")
      then set_int (int_of j) (λ z. record p { version = z })
      else if equal name (codes "CreatedAt")
      then set_int (int_of j) (λ z. record p { created_at = from_unix z })
      else if equal name (codes "Key")
      then and_then (read_key j p.key) (λ k. stepped (record p { key = k }))
      else if equal name (codes "Metadata")
      then set_metadata (wire.json_metadata j) p
      else if equal name (codes "User")
      then and_then (decode_object wire.decode_user (wire.from_base64 j))
          (λ u. stepped (record p { user = some u }))
      else if equal name (codes "Chat")
      then and_then (decode_object wire.decode_chat (wire.from_base64 j))
          (λ c. stepped (record p { chat = some c }))
      else if equal name (codes "Channel")
      then and_then (decode_object wire.decode_channel (wire.from_base64 j))
          (λ c. stepped (record p { channel = some c }))
      else stepped p

  pub set_fields : Fields → Peer api → Step (Peer api)
  set_fields no_fields p = stepped p
  set_fields (field name j fs) p = and_then (set_field name j p) (λ q. set_fields fs q)

  -- The version and the key of the receiver stay as they are, and `zero_time` is `time.Time{}`.
  reset : ℤ → Peer api → Peer api
  reset zero_time p = record p {
    metadata = none;
    user = none;
    chat = none;
    channel = none;
    created_at = zero_time;
  }

  end_decode : Step (Peer api) → Decoded (Peer api)
  end_decode (stepped p) = decoded p
  end_decode unexpected = must_invalidate
  end_decode fails = malformed

  check_version : ℤ → Fields → Peer api → Option ℤ → Decoded (Peer api)
  check_version zero_time fs p none = malformed
  check_version zero_time fs p (some v) =
      if not (int_eq v latest_version)
      then must_invalidate
      else end_decode (set_fields fs (reset zero_time p))

  unfoldable pub unmarshal : ℤ → Peer api → Json → Decoded (Peer api)
  unfolding check_version set_fields set_field version_of end_decode and_then set_int int_of
      read_key key_fields set_key_field set_metadata decode_object bin_step reset
  unmarshal zero_time p (object fs) = check_version zero_time fs p (version_of fs (pos 0))
  unmarshal zero_time p (number z) = malformed
  unmarshal zero_time p (text s) = malformed
  unmarshal zero_time p other = malformed

  -- an object that is there is encoded, and its error is that of `Marshal`
  pub encoded : {A : Type 0} → (A → Option Bytes) → Option A → Option (Option Bytes)
  encoded encode none = some none
  encoded encode (some a) = elim (encode a) [ none ↦ none | some b ↦ some (some b) ]

  pub value_field : Bytes → Option Bytes → Fields → Fields
  value_field name none fs = fs
  value_field name (some b) fs = field name (wire.base64 b) fs

  pub key_json : DialogKey → Json
  key_json k = object (
      field (codes "Kind") (number k.kind) (
        field (codes "ID") (number k.id)
          (field (codes "AccessHash") (number k.access_hash) no_fields)))

  pub marshal_fields : Peer api → Json → Option Bytes → Option Bytes → Option Bytes → Fields
  marshal_fields p metadata user chat channel = field (codes "Version") (number p.version) (
      field (codes "Key") (key_json p.key) (
        field (codes "CreatedAt") (number (unix p.created_at)) (
          field (codes "Metadata") metadata (
            value_field (codes "User") user (
              value_field (codes "Chat") chat (value_field (codes "Channel") channel no_fields))))))

  unfoldable pub marshal : Peer api → Option Json
  unfolding encoded marshal_fields value_field key_json
  marshal p = elim (encoded wire.encode_user p.user) [
    | none ↦ none
    | some user ↦ elim (encoded wire.encode_chat p.chat) [
      | none ↦ none
      | some chat ↦ elim (encoded wire.encode_channel p.channel) [
        | none ↦ none
        | some channel ↦ elim (wire.metadata_json p.metadata) [
          | none ↦ none
          | some metadata ↦ some (object (marshal_fields p metadata user chat channel))
        ]
      ]
    ]
  ]

  -- `UnmarshalJSON`
  unfoldable pub unmarshal_json : ℤ → Peer api → Bytes → Decoded (Peer api)
  unmarshal_json zero_time p s = elim (wire.parse s) [
    | none ↦ malformed
    | some j ↦ unmarshal zero_time p j
  ]

  -- `MarshalJSON`
  unfoldable pub marshal_json : Peer api → Option Bytes
  marshal_json p = elim (marshal p) [ none ↦ none | some j ↦ some (wire.print j) ]

  -- What the storages use of a peer; each reads into a zero peer.
  abbrev pub peer_codec : ℤ → Peer api → Codec (Peer api)
  peer_codec zero_time zero_peer = record {
    key = λ p. key_from_peer p.key;
    keys = λ p. keys api p;
    marshal = marshal_json;
    unmarshal = unmarshal_json zero_time zero_peer;
  }
