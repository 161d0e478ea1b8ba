-- ===== src/Storage/Peer.antt =====
-- storage/peer.go and storage/peer_as.go: the peer, without its JSON.
-- The objects of Telegram's API are a parameter: their types, the fields that the package reads, and
-- the constants of `dialogs.PeerKind`. `now` is the time that the clock gives, in
-- nanoseconds from 1970 on.
pub mod Views
use tgcontrib.Base.{
  ℕ, Bool, true, false, not, ◌&&◌, ◌||◌, List, [], ◌∷◌, ◌++◌, Option, none, some, ◌==◌,
  if◌then◌else◌, Bytes,
}
use tgcontrib.Base.Decimal.{append_int}
use tgcontrib.Base.Int.{ℤ, pos, negsuc}
use tgcontrib.Base.Text.{codes}
use tgcontrib.Storage.Key.{DialogKey}

pub record Api : Type 1 where
  pub User : Type 0
  pub Chat : Type 0
  pub Channel : Type 0
  pub Metadata : Type 0
  pub user_id : User → ℤ
  pub user_access_hash : User → ℤ
  pub user_username : User → Bytes
  pub user_phone : User → Bytes
  pub chat_id : Chat → ℤ
  pub channel_id : Channel → ℤ
  pub channel_access_hash : Channel → ℤ
  pub channel_username : Channel → Bytes
  pub channel_min : Channel → Bool
  pub user_kind : ℤ
  pub chat_kind : ℤ
  pub channel_kind : ℤ

abbrev pub latest_version : ℤ
latest_version = pos 2

abbrev pub int_eq : ℤ → ℤ → Bool
int_eq (pos m) (pos n) = m == n
int_eq (negsuc m) (negsuc n) = m == n
int_eq _ _ = false

-- The classes of input peers that the package makes; all others are one.
pub data InputPeer : Type 0 where
  input_peer_user : ℤ → ℤ → InputPeer
  input_peer_chat : ℤ → InputPeer
  input_peer_channel : ℤ → ℤ → InputPeer
  input_peer_other : InputPeer

pub record InputRef : Type 0 where
  pub id : ℤ
  pub access_hash : ℤ

abbrev pub is_some {ℓ} : {A : Type ℓ} → Option A → Bool
is_some none = false
is_some (some a) = true

abbrev pub add_if_not_empty : List Bytes → Bytes → List Bytes
add_if_not_empty r [] = r
add_if_not_empty r (c ∷ k) = r ++ (c ∷ k) ∷ []

join : List Bytes → Bytes
join [] = []
join (w ∷ []) = w
join (w ∷ v ∷ ws) = w ++ (codes ", " ++ join (v ∷ ws))

module _ (api : Api) where
  open api use {
    User, Chat, Channel, Metadata, user_id, user_access_hash, user_username, user_phone, chat_id,
    channel_id, channel_access_hash, channel_username, channel_min, user_kind, chat_kind,
    channel_kind,
  }

  pub record Peer : Type 0 where
    pub version : ℤ
    pub key : DialogKey
    pub created_at : ℤ
    pub user : Option User
    pub chat : Option Chat
    pub channel : Option Channel
    pub metadata : Option Metadata

  pub data ChatClass : Type 0 where
    chat_empty : ChatClass
    chat_full : Chat → ChatClass
    chat_forbidden : ℤ → ChatClass
    channel_full : Channel → ChatClass
    channel_forbidden : ℤ → ℤ → ChatClass

  pub data UserClass : Type 0 where
    user_empty : UserClass
    user_full : User → UserClass

  kind_name : ℤ → Bytes
  kind_name k =
      if int_eq k chat_kind
      then codes "Chat"
      else if int_eq k channel_kind
      then codes "Channel"
      else if int_eq k user_kind
      then codes "User"
      else []

  entity : Bool → Bytes → List Bytes
  entity b name = if b then name ∷ [] else []

  -- `String`
  unfoldable pub string : Peer → Bytes
  unfolding kind_name entity join
  string p =
      let entities =
        entity (is_some p.user) (codes "User")
        ++ (entity (is_some p.chat) (codes "Chat")
            ++ entity (is_some p.channel) (codes "Channel")) in
      kind_name p.key.kind
      ++ (codes "("
          ++ (append_int p.key.id ++ (codes ")" ++ (codes "[" ++ (join entities ++ codes "]")))))

  keys_of : Option Chat → Option User → Option Channel → List Bytes
  keys_of (some c) u ch = []
  keys_of none (some u) ch = add_if_not_empty (add_if_not_empty [] (user_username u)) (user_phone u)
  keys_of none none (some ch) = add_if_not_empty [] (channel_username ch)
  keys_of none none none = []

  -- `Keys`
  unfoldable pub keys : Peer → List Bytes
  unfolding keys_of
  keys p = keys_of p.chat p.user p.channel

  -- a `Peer{…}` with no object
  abbrev pub bare : ℤ → DialogKey → Peer
  bare now k = record {
    version = latest_version;
    key = k;
    created_at = now;
    user = none;
    chat = none;
    channel = none;
    metadata = none;
  }

  -- `FromInputPeer`; the first argument is `DialogKey.FromInputPeer`. The receiver is set only on
  -- success.
  unfoldable pub from_input_peer : (InputPeer → Option DialogKey) → ℤ → InputPeer → Option Peer
  from_input_peer unpack now input = elim (unpack input) [
    | none ↦ none
    | some k ↦ some (bare now k)
  ]

  abbrev dialog_key : ℤ → ℤ → ℤ → DialogKey
  dialog_key kind id hash = record { kind = kind; id = id; access_hash = hash }

  -- `FromChat`; `none` is the result false, which leaves the receiver alone.
  unfoldable pub from_chat : ℤ → ChatClass → Option Peer
  from_chat now chat_empty = none
  from_chat now (chat_full c) =
      some (record (bare now (dialog_key chat_kind (chat_id c) (pos 0))) { chat = some c })
  from_chat now (chat_forbidden id) = some (bare now (dialog_key chat_kind id (pos 0)))
  from_chat now (channel_full c) =
      if channel_min c
      then none
      else some
          (record (bare now (dialog_key channel_kind (channel_id c) (channel_access_hash c))) {
            channel = some c;
          })
  from_chat now (channel_forbidden id hash) = some (bare now (dialog_key channel_kind id hash))

  -- `FromUser`
  unfoldable pub from_user : ℤ → UserClass → Option Peer
  from_user now user_empty = none
  from_user now (user_full u) =
      some (record (bare now (dialog_key user_kind (user_id u) (user_access_hash u))) {
        user = some u;
      })

  unfoldable pub as_input_user : Peer → Option InputRef
  as_input_user p =
      if not (int_eq p.key.kind user_kind)
      then none
      else some (record { id = p.key.id; access_hash = p.key.access_hash })

  unfoldable pub as_input_channel : Peer → Option InputRef
  as_input_channel p =
      if not (int_eq p.key.kind channel_kind)
      then none
      else some (record { id = p.key.id; access_hash = p.key.access_hash })

  -- `AsInputPeer`; `none` is the panic.
  unfoldable pub as_input_peer : Peer → Option InputPeer
  as_input_peer p =
      if int_eq p.key.kind user_kind
      then some (input_peer_user p.key.id p.key.access_hash)
      else if int_eq p.key.kind chat_kind
      then some (input_peer_chat p.key.id)
      else if int_eq p.key.kind channel_kind
      then some (input_peer_channel p.key.id p.key.access_hash)
      else none
