-- ===== src/Tests/Peers.antt =====
-- storage/peer.go: the JSON of concrete peers.
use tgcontrib.Base.{
  ℕ, ◌≡◌, ◌≢◌, refl, false, [], ◌∷◌, ◌++◌, Option, none, some, Bytes, arith, if◌then◌else◌, take,
}
use tgcontrib.Base.Decimal.{append_int}
use tgcontrib.Base.Int.{ℤ, pos}
use tgcontrib.Base.Text.{codes, equal, equal_iff}
use tgcontrib.Storage.Key.{DialogKey, bytes, key_from_peer}
use tgcontrib.Storage.Peer.{Api, Peer, bare, keys, latest_version}
use tgcontrib.Storage.Store.{ok, decoded, must_invalidate, Found, missing, Batch, written}
use tgcontrib.Storage.Pebble
use tgcontrib.Storage.Pebble.Reads.{IsDatabase}
use tgcontrib.Storage.Json.{
  Json, text, object, number, other, Fields, field, no_fields, bin_value, Wire, marshal,
  marshal_json, unmarshal_json, peer_codec,
}
use tgcontrib.Storage.Json.Steps.{IsWire, HasInts}
use tgcontrib.Storage.Json.Texts.{
  Parses, unmarshal_json-marshal_json, unmarshal_json_outdated, find-add_peer,
}

-- One user with the id 10, and no other object.
abbrev pub api : Api
api = record {
  User = Unit;
  Chat = Unit;
  Channel = Unit;
  Metadata = Unit;
  user_id = λ u. pos 10;
  user_access_hash = λ u. pos 7;
  user_username = λ u. codes "gotd";
  user_phone = λ u. [];
  chat_id = λ c. pos 0;
  channel_id = λ c. pos 0;
  channel_access_hash = λ c. pos 0;
  channel_username = λ c. [];
  channel_min = λ c. false;
  user_kind = pos 0;
  chat_kind = pos 1;
  channel_kind = pos 2;
}

abbrev pub peer_of : ℤ → Peer api
peer_of version = record {
  version = version;
  key = record { kind = pos 0; id = pos 10; access_hash = pos 7 };
  created_at = pos 99000000005;
  user = some tt;
  chat = none;
  channel = none;
  metadata = none;
}

-- A time within the second 99, and what is read back of it.
abbrev pub read_back : Peer api
read_back = record (peer_of (pos 2)) { created_at = pos 99000000000 }

abbrev of_text : Json → Option Bytes
of_text (text s) = some s
of_text (number z) = none
of_text (object fs) = none
of_text other = none

abbrev metadata_json : Option (Unit {0}) → Option Json
metadata_json none = some other
metadata_json (some u) = some (object no_fields)

abbrev json_metadata : Json → Option (Option (Unit {0}))
json_metadata (text s) = none
json_metadata (number z) = none
json_metadata (object fs) = some (some tt)
json_metadata other = some none

quoted : Bytes → Bytes
quoted s = b'"' ∷ (s ++ b'"' ∷ [])

separator : Fields → Bytes
separator no_fields = []
separator (field name j fs) = b',' ∷ []

mutual
  unfolding quoted separator

  pub print : Json → Bytes
  print (number z) = append_int z
  print (text s) = quoted s
  print (object fs) = b'{' ∷ (print_fields fs ++ b'}' ∷ [])
  print other = codes "null"

  print_fields : Fields → Bytes
  print_fields no_fields = []
  print_fields (field name j fs) =
      quoted name ++ (b':' ∷ (print j ++ (separator fs ++ print_fields fs)))

-- A library that prints JSON, and parses the text of one value.
abbrev parse_known : Option Json → Bytes → Option Json
parse_known none s = none
parse_known (some j) s = if equal s (print j) then some j else none

abbrev wire_of : Option Json → Wire api
wire_of known = record {
  print = print;
  parse = parse_known known;
  base64 = text;
  from_base64 = of_text;
  metadata_json = metadata_json;
  json_metadata = json_metadata;
  encode_user = λ u. some (codes "AQ");
  decode_user = λ b. bin_value tt;
  encode_chat = λ c. some (codes "Ag");
  decode_chat = λ b. bin_value tt;
  encode_channel = λ c. some (codes "Aw");
  decode_channel = λ b. bin_value tt;
}

-- The library that knows the text of a peer.
abbrev pub wire_for : Peer api → Wire api
wire_for p = wire_of (marshal api (wire_of none) p)

abbrev pub wire : ℤ → Wire api
wire version = wire_for (peer_of version)

some_injective : {j k : Json} → some j ≡ some k → j ≡ k
some_injective h = cc

metadata_reads :
    (m : Option (Unit {0})) (j : Json) → metadata_json m ≡ some j → json_metadata j ≡ some m
metadata_reads none j h = rw (← some_injective h) refl
metadata_reads (some u) j h = rw (← some_injective h) refl

pub wire_for-IsWire : (p : Peer api) → IsWire (wire_for p) p
wire_for-IsWire p = record {
  base64_back = λ b. refl;
  metadata_back = metadata_reads p.metadata;
  user_back = λ u b e h. refl;
  chat_back = λ c b e h. refl;
  channel_back = λ c b e h. refl;
}

parse_known-print : (k j : Json) → some k ≡ some j → parse_known (some k) (print j) ≡ some j
parse_known-print k j h = rw (← some_injective h) (rw ((equal_iff (print k) (print k)).1 refl) refl)

wire-Parses : (version : ℤ) → Parses api (wire version) (peer_of version)
unfolding marshal
wire-Parses version j h = parse_known-print _ j h

pub bare-Parses :
    (now : ℤ) (k : DialogKey) → Parses api (wire_for (bare api now k)) (bare api now k)
unfolding marshal
bare-Parses now k j h = parse_known-print _ j h

ints : HasInts (peer_of (pos 2))
ints = record { kind = refl; id = refl; access_hash = refl; created_at = refl }

-- The text of the peer.
abbrev text_of : ℤ → Bytes
text_of version = elim (marshal_json api (wire version) (peer_of version)) [
  | none ↦ []
  | some t ↦ t
]

marshaled :
    (version : ℤ) → marshal_json api (wire version) (peer_of version) ≡ some (text_of version)
unfolding marshal_json marshal
marshaled version = refl

text_start : take 11 (text_of (pos 2)) ≡ codes "{\"Version\":"
unfolding marshal_json marshal print
text_start = refl

unmarshal_json-marshal_json_example :
    unmarshal_json api (wire (pos 2)) (pos 0) (peer_of (pos 0)) (text_of (pos 2))
    ≡ decoded read_back
unmarshal_json-marshal_json_example =
    unmarshal_json-marshal_json api (wire (pos 2)) (pos 0) (peer_of (pos 2)) (peer_of (pos 0))
      (text_of (pos 2)) (wire_for-IsWire (peer_of (pos 2))) (wire-Parses (pos 2)) ints refl
      (marshaled (pos 2))

not_latest : pos 1 ≢ latest_version
not_latest e = absurd (ground arith)

unmarshal_json_outdated_run :
    unmarshal_json api (wire (pos 1)) (pos 0) (peer_of (pos 0)) (text_of (pos 1)) ≡ must_invalidate
unmarshal_json_outdated_run =
    unmarshal_json_outdated api (wire (pos 1)) (pos 0) (peer_of (pos 1)) (peer_of (pos 0))
      (text_of (pos 1)) (wire-Parses (pos 1)) refl not_latest (marshaled (pos 1))

abbrev pub Store : Type 0
Store = Bytes → Found

abbrev pub get : Store → Bytes → Found
get d k = d k

abbrev pub commit : Store → Batch → Store × Option ℕ
commit d b = (λ k. written b k (d k), none)

none-ne-some : {e : ℕ} → none ≡ some e → ⊥
none-ne-some h = cc

pub IsDatabase-laws : IsDatabase get commit
IsDatabase-laws = record {
  commits = λ d b k h. refl;
  aborts = λ d b k e h. absurd (none-ne-some h);
}

pub not_name :
    codes "gotd"
    ≢ bytes (key_from_peer (record { kind = pos 0; id = pos 10; access_hash = pos 7 })) []
unfolding bytes key_from_peer
not_name = λ e. absurd (ground arith)

added :
    (Pebble.add
      (peer_codec api (wire (pos 2)) (pos 0) (peer_of (pos 0)))
      get
      commit
      (peer_of (pos 2))
      (λ k. missing)).1
    ≡ none
unfolding Pebble.add Pebble.add_all marshal_json marshal
added = refl

find-add_peer_example :
    Pebble.find
      (peer_codec api (wire (pos 2)) (pos 0) (peer_of (pos 0)))
      get
      commit
      (key_from_peer (record { kind = pos 0; id = pos 10; access_hash = pos 7 }))
      (Pebble.add
        (peer_codec api (wire (pos 2)) (pos 0) (peer_of (pos 0)))
        get
        commit
        (peer_of (pos 2))
        (λ k. missing)).0
    ≡ ok read_back
unfolding keys
find-add_peer_example =
    find-add_peer api (wire (pos 2)) get commit (pos 0) (peer_of (pos 0)) (peer_of (pos 2))
      (λ k. missing) IsDatabase-laws (wire_for-IsWire (peer_of (pos 2))) (wire-Parses (pos 2)) ints
      refl (not_name, tt) added
