-- ===== src/Storage/Peer/Views.antt =====
-- storage/peer.go and storage/peer_as.go: a peer and the input peers made of it.
use tgcontrib.Base.{
  ◌≡◌, ◌≢◌, ◌↔◌, refl, sym, inl, inr, true, false, Bool-cases, Option, some, arith,
}
use tgcontrib.Base.Int.{ℤ, pos, negsuc}
use tgcontrib.Storage.Key.{DialogKey}
use tgcontrib.Storage.Peer.{
  Api, Peer, InputPeer, input_peer_user, input_peer_chat, input_peer_channel, input_peer_other,
  int_eq, from_input_peer, as_input_peer, bare,
}

pub int_eq_iff : (a b : ℤ) → (int_eq a b ≡ true) ↔ (a ≡ b)
int_eq_iff (pos m) (pos n) = ground arith
int_eq_iff (negsuc m) (negsuc n) = ground arith
int_eq_iff (pos m) (negsuc n) = ground arith
int_eq_iff (negsuc m) (pos n) = ground arith

int_eq-ne : (a b : ℤ) → a ≢ b → int_eq a b ≡ false
int_eq-ne a b n = elim (Bool-cases (int_eq a b)) [
  | inl e ↦ absurd (n ((int_eq_iff a b).0 e))
  | inr e ↦ e
]

int_eq_self : (a : ℤ) → int_eq a a ≡ true
int_eq_self a = (int_eq_iff a a).1 refl

-- The three kinds differ.
pub record KindsDiffer (api : Api) : Type 0 where
  pub user_chat : api.user_kind ≢ api.chat_kind
  pub user_channel : api.user_kind ≢ api.channel_kind
  pub chat_channel : api.chat_kind ≢ api.channel_kind

module _ (api : Api) where
  -- `DialogKey.FromInputPeer` on the classes that the package makes.
  pub record Unpacks (unpack : InputPeer → Option DialogKey) : Type 0 where
    pub users :
        (id h : ℤ)
        → unpack (input_peer_user id h)
          ≡ some (record { kind = api.user_kind; id = id; access_hash = h })
    pub chats :
        (id : ℤ)
        → unpack (input_peer_chat id)
          ≡ some (record { kind = api.chat_kind; id = id; access_hash = pos 0 })
    pub channels :
        (id h : ℤ)
        → unpack (input_peer_channel id h)
          ≡ some (record { kind = api.channel_kind; id = id; access_hash = h })

  -- Where the three kinds differ, an input peer of a user, chat or channel that is made a peer
  -- comes back as it was.
  pub as_input_peer-from_input_peer :
      (unpack : InputPeer → Option DialogKey) (now : ℤ) (input : InputPeer)
      → KindsDiffer api
      → Unpacks unpack
      → input ≢ input_peer_other
      → (p : Peer api) × (from_input_peer api unpack now input ≡ some p)
        × (as_input_peer api p ≡ some input)
  unfolding from_input_peer as_input_peer
  as_input_peer-from_input_peer unpack now (input_peer_user id h) k u o = (
    bare api now (record { kind = api.user_kind; id = id; access_hash = h }),
    rw (u.users id h, from_input_peer),
    rw (int_eq_self api.user_kind, as_input_peer),
  )
  as_input_peer-from_input_peer unpack now (input_peer_chat id) k u o = (
    bare api now (record { kind = api.chat_kind; id = id; access_hash = pos 0 }),
    rw (u.chats id, from_input_peer),
    rw (
      int_eq-ne api.chat_kind api.user_kind (λ e. k.user_chat (sym e)),
      int_eq_self api.chat_kind,
      as_input_peer,
    ),
  )
  as_input_peer-from_input_peer unpack now (input_peer_channel id h) k u o = (
    bare api now (record { kind = api.channel_kind; id = id; access_hash = h }),
    rw (u.channels id h, from_input_peer),
    rw (
      int_eq-ne api.channel_kind api.user_kind (λ e. k.user_channel (sym e)),
      int_eq-ne api.channel_kind api.chat_kind (λ e. k.chat_channel (sym e)),
      int_eq_self api.channel_kind,
      as_input_peer,
    ),
  )
  as_input_peer-from_input_peer unpack now input_peer_other k u o = absurd (o refl)
