-- ===== src/Storage/Clients.antt =====
-- storage/resolver_cache.go, storage/find.go (`FindPeer`), storage/collector.go and
-- storage/hook.go: the clients of a peer storage. The storage is a parameter, as are the resolver,
-- the elements of an iterator and the next handler; errors are numbers, but for the storage's own.
pub mod Resolver
pub mod Collector
pub mod Hook
use tgcontrib.Base.{ℕ, List, [], ◌∷◌, ◌++◌, map, Option, none, some, Bytes}
use tgcontrib.Base.Int.{ℤ}
use tgcontrib.Storage.Key.{DialogKey, PeerKey, key_from_peer}
use tgcontrib.Storage.Peer.{
  Api, Peer, InputPeer, ChatClass, UserClass, from_input_peer, from_chat, from_user, as_input_peer,
}
use tgcontrib.Storage.Store.{Error, peer_not_found, Result, ok, err, PeerStorage}

-- What a client returns: a value, an error of the storage or of another part, or a panic.
pub data Reply (A : Type 0) : Type 0 where
  value : A → Reply A
  storage_error : Error → Reply A
  other_error : ℕ → Reply A
  bad_input : Reply A
  panics : Reply A

-- What the next resolver or an iterator gives.
pub data Given (A : Type 0) : Type 0 where
  given : A → Given A
  fails : ℕ → Given A

-- Why a collector has stopped early.
pub data Stop : Type 0 where
  storage_stops : Error → Stop
  iterator_stops : ℕ → Stop

-- The peer of a dialog, with what the entities hold of it.
pub data Dialog (api : Api) : Type 0 where
  of_user : Option (UserClass api) → Dialog api
  of_chat of_channel : Option (ChatClass api) → Dialog api

bind_opt : {A B : Type 0} → (A → Option B) → Option A → Option B
bind_opt f none = none
bind_opt f (some a) = f a

module _ {S : Type 0} (api : Api) (storage : PeerStorage S (Peer api)) where
  -- `FindPeer`; the argument is what `DialogKey.FromPeer` makes of the peer
  unfoldable pub find_peer : Option DialogKey → S → Reply (Peer api)
  find_peer none s = bad_input
  find_peer (some k) s = elim (storage.find (key_from_peer k) s) [
    | ok p ↦ value p
    | err e ↦ storage_error e
  ]

  module _ (unpack : InputPeer → Option DialogKey) (now : ℤ) where
    after_assign : InputPeer → S × Option Error → S × Reply InputPeer
    after_assign resolved (s, none) = (s, value resolved)
    after_assign resolved (s, some e) = (s, storage_error e)

    assign_peer : Bytes → InputPeer → Option (Peer api) → S → S × Reply InputPeer
    assign_peer key resolved none s = (s, bad_input)
    assign_peer key resolved (some p) s = after_assign resolved (storage.assign key p s)

    -- `notFound`; `f` is the next resolver
    unfoldable pub not_found : Bytes → (Bytes → Given InputPeer) → S → S × Reply InputPeer
    unfolding assign_peer after_assign
    not_found key f s = elim (f key) [
      | fails e ↦ (s, other_error e)
      | given resolved ↦ assign_peer key resolved (from_input_peer api unpack now resolved) s
    ]

    input_reply : Option InputPeer → Reply InputPeer
    input_reply none = panics
    input_reply (some i) = value i

    after_resolve : Bytes → (Bytes → Given InputPeer) → S → Result (Peer api) → S × Reply InputPeer
    after_resolve key f s (ok p) = (s, input_reply (as_input_peer api p))
    after_resolve key f s (err peer_not_found) = not_found key f s
    after_resolve key f s (err e) = (s, storage_error e)

    -- `tryResolve`
    unfoldable pub try_resolve : Bytes → (Bytes → Given InputPeer) → S → S × Reply InputPeer
    unfolding after_resolve input_reply not_found
    try_resolve key f s = after_resolve key f s (storage.resolve key s)

    -- `ResolveDomain` and `ResolvePhone`, on the two methods of the next resolver
    unfoldable pub resolve_domain : (Bytes → Given InputPeer) → Bytes → S → S × Reply InputPeer
    resolve_domain next_domain domain s = try_resolve domain next_domain s

    unfoldable pub resolve_phone : (Bytes → Given InputPeer) → Bytes → S → S × Reply InputPeer
    resolve_phone next_phone phone s = try_resolve phone next_phone s

  pub add_opt : Option (Peer api) → S → S × Option Error
  add_opt none s = (s, none)
  add_opt (some p) s = storage.add p s

  -- Adds each peer in turn and stops at the first error; `none` is an element that is skipped.
  unfoldable pub add_each : List (Option (Peer api)) → S → S × Option Error
  unfolding add_opt
  add_each [] s = (s, none)
  add_each (o ∷ l) s =
      let r = add_opt o s in
      let rest = add_each l r.0 in elim (r.1) [ none ↦ rest | some e ↦ (r.0, some e) ]

  -- `Contacts`
  unfoldable pub contacts : ℤ → List (UserClass api) → S → S × Option Error
  contacts now users s = add_each (map (from_user api now) users) s

  -- Behind the loop over an iterator its own error is returned.
  iterated : Option ℕ → S × Option Error → S × Option Stop
  iterated failed (s, some e) = (s, some (storage_stops e))
  iterated none (s, none) = (s, none)
  iterated (some e) (s, none) = (s, some (iterator_stops e))

  -- `Participants`, on the users that the iterator gives, and its error
  unfoldable pub participants : ℤ → List (Option (UserClass api)) → Option ℕ → S → S × Option Stop
  unfolding iterated bind_opt
  participants now users failed s =
      iterated failed (add_each (map (bind_opt (from_user api now)) users) s)

  -- the `switch` of `Dialogs`
  dialog_peer : ℤ → Dialog api → Option (Peer api)
  dialog_peer now (of_user u) = bind_opt (from_user api now) u
  dialog_peer now (of_chat c) = bind_opt (from_chat api now) c
  dialog_peer now (of_channel c) = bind_opt (from_chat api now) c

  -- `Dialogs`
  unfoldable pub dialogs : ℤ → List (Dialog api) → Option ℕ → S → S × Option Stop
  unfolding iterated dialog_peer bind_opt
  dialogs now l failed s = iterated failed (add_each (map (dialog_peer now) l) s)

  pub cons_error : Option Error → List Error → List Error
  cons_error none l = l
  cons_error (some e) l = e ∷ l

  -- The loops of `Handle` collect the errors and go on.
  pub add_every : List (Option (Peer api)) → S → S × List Error
  add_every [] s = (s, [])
  add_every (o ∷ l) s =
      let r = add_opt o s in let rest = add_every l r.0 in (rest.0, cons_error r.1 rest.1)

  -- `Handle` of the update hook. `none` is an update without peers; `next` is the next handler.
  unfoldable pub handle :
      (S → S × Option ℕ)
      → ℤ
      → Option (List (ChatClass api) × List (UserClass api))
      → S
      → S × List Error × Option ℕ
  unfolding add_every cons_error add_opt
  handle next now none s = let r = next s in (r.0, [], r.1)
  handle next now (some (chats, users)) s =
      let c = add_every (map (from_chat api now) chats) s in
      let u = add_every (map (from_user api now) users) c.0 in
      let r = next u.0 in (r.0, c.1 ++ u.1, r.1)
