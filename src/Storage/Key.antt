-- ===== src/Storage/Key.antt =====
-- storage/key.go: the key of a peer, its text, and the parser of that text.
pub mod RoundTrip
use tgcontrib.Base.{
  ℕ, suc, ◌+◌, ◌-◌, ◌||◌, not, [], ◌∷◌, ◌++◌, Option, none, some, ◌==◌, if◌then◌else◌, length, take,
  drop, Bytes,
}
use tgcontrib.Base.Decimal.{append_int, parse_int}
use tgcontrib.Base.Int.{ℤ, ltb_ℤ}
use tgcontrib.Base.Text.{codes, has_prefix, index_byte}

-- The fields of `dialogs.DialogKey` that the package reads and writes.
pub record DialogKey : Type 0 where
  pub kind : ℤ
  pub id : ℤ
  pub access_hash : ℤ

pub record PeerKey : Type 0 where
  pub kind : ℤ
  pub id : ℤ

abbrev pub peer_key_prefix : Bytes
peer_key_prefix = codes "peer"

abbrev pub key_separator : ℕ
key_separator = b'_'

-- `KeyFromPeer`, on the key of the peer
unfoldable pub key_from_peer : DialogKey → PeerKey
key_from_peer k = record { kind = k.kind; id = k.id }

-- `Bytes` appends to the slice that it is given.
unfoldable pub bytes : PeerKey → Bytes → Bytes
bytes k r =
    let r1 = r ++ peer_key_prefix in
    let r2 = r1 ++ append_int k.kind in let r3 = r2 ++ key_separator ∷ [] in r3 ++ append_int k.id

-- `String` writes the same parts to a builder.
unfoldable pub string : PeerKey → Bytes
string k = peer_key_prefix ++ (append_int k.kind ++ (key_separator ∷ append_int k.id))

pub data ParseError : Type 0 where
  invalid_key parse_kind parse_id : ParseError
  invalid_kind : ℤ → ParseError

abbrev pub ParseResult : Type 0
ParseResult = PeerKey × Option ParseError

-- the second block of `Parse`
parse_id_part : PeerKey → Option ℤ → ParseResult
parse_id_part k none = (k, some parse_id)
parse_id_part k (some v) = (record k { id = v }, none)

-- the first block; `channel` is the value of `dialogs.Channel`
parse_kind_part : ℤ → PeerKey → Option ℤ → Bytes → ParseResult
parse_kind_part channel k none s = (k, some parse_kind)
parse_kind_part channel k (some v) s =
    if ltb_ℤ channel v
    then (k, some (invalid_kind v))
    else parse_id_part (record k { kind = v }) (parse_int s)

split_key : ℤ → PeerKey → Bytes → Option ℕ → ParseResult
split_key channel k r none = (k, some invalid_key)
split_key channel k r (some idx) =
    if idx == 0 || idx == length r - 1
    then (k, some invalid_key)
    else parse_kind_part channel k (parse_int (take idx r)) (drop (idx + 1) r)

-- `Parse` writes through its receiver: the result is the key as it is left, and the error.
unfoldable pub parse : ℤ → PeerKey → Bytes → ParseResult
unfolding split_key parse_kind_part parse_id_part
parse channel k r =
    if not (has_prefix r peer_key_prefix)
    then (k, some invalid_key)
    else let s = drop (length peer_key_prefix) r in
      split_key channel k s (index_byte s key_separator)
