-- ===== src/Storage/Json/Values.antt =====
-- What storage/peer.go takes from its libraries: the JSON values, Base64, the JSON of the metadata and
-- the binary encoding of Telegram's objects.
use tgcontrib.Base.{Option, Bytes}
use tgcontrib.Base.Int.{ℤ}
use tgcontrib.Storage.Peer.{Api}

-- A JSON value; a number is an integer, and what the package never reads is one value.
mutual
  pub data Json : Type 0 where
    number : ℤ → Json
    text : Bytes → Json
    object : Fields → Json
    other : Json

  pub data Fields : Type 0 where
    no_fields : Fields
    field : Bytes → Json → Fields → Fields

-- What the binary decoder gives; `unexpected_id` is `bin.UnexpectedIDErr`.
pub data Bin (A : Type 0) : Type 0 where
  bin_value : A → Bin A
  unexpected_id bin_error : Bin A

pub record Wire (api : Api) : Type 0 where
  pub print : Json → Bytes
  pub parse : Bytes → Option Json
  pub base64 : Bytes → Json
  pub from_base64 : Json → Option Bytes
  pub metadata_json : Option (api.Metadata) → Option Json
  pub json_metadata : Json → Option (Option (api.Metadata))
  pub encode_user : api.User → Option Bytes
  pub decode_user : Bytes → Bin (api.User)
  pub encode_chat : api.Chat → Option Bytes
  pub decode_chat : Bytes → Bin (api.Chat)
  pub encode_channel : api.Channel → Option Bytes
  pub decode_channel : Bytes → Bin (api.Channel)
