-- ===== src/Storage/Store.antt =====
-- storage/peer_storage.go: the errors of a peer storage and what a storage is made from.
-- `Codec` is what the storages use of a peer: its key, its associated keys, and its JSON.
use tgcontrib.Base.{ℕ, List, [], ◌∷◌, map, Option, if◌then◌else◌, Bytes}
use tgcontrib.Base.Text.{equal}
use tgcontrib.Storage.Key.{PeerKey}

-- `ErrPeerNotFound`, and the others by what they wrap; `outdated` wraps
-- `ErrPeerUnmarshalMustInvalidate`.
pub data Error : Type 0 where
  peer_not_found no_bucket marshal_failed unmarshal_failed outdated : Error
  database : ℕ → Error

pub data Result (A : Type 0) : Type 0 where
  ok : A → Result A
  err : Error → Result A

-- What `json.Unmarshal` into a peer gives; `must_invalidate` is ErrPeerUnmarshalMustInvalidate.
pub data Decoded (P : Type 0) : Type 0 where
  decoded : P → Decoded P
  must_invalidate malformed : Decoded P

pub record Codec (P : Type 0) : Type 0 where
  pub key : P → PeerKey
  pub keys : P → List Bytes
  pub marshal : P → Option Bytes
  pub unmarshal : Bytes → Decoded P

-- `PeerStorage`, on the state `S` of the database; the iterators are in Iterate.
pub record PeerStorage (S P : Type 0) : Type 0 where
  pub add : P → S → S × Option Error
  pub find : PeerKey → S → Result P
  pub assign : Bytes → P → S → S × Option Error
  pub resolve : Bytes → S → Result P

-- What a read of the database gives.
pub data Found : Type 0 where
  found : Bytes → Found
  missing : Found
  broken : ℕ → Found

abbrev pub Batch : Type 0
Batch = List (Bytes × Bytes)

-- The entries of a peer: its data under its id, and its id under each associated key.
abbrev pub entries : Bytes → Bytes → List Bytes → Batch
entries id text ks = (id, text) ∷ map (λ k. (k, id)) ks

-- What a read gives behind the writes of a batch.
abbrev pub written : Batch → Bytes → Found → Found
written [] k g = g
written ((j, v) ∷ b) k g = written b k (if equal j k then found v else g)
