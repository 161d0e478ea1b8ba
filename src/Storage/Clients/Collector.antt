-- ===== src/Storage/Clients/Collector.antt =====
-- storage/collector.go: what the collectors leave in the storage.
use tgcontrib.Base.{◌≡◌, Option-cases, inl, inr, List, [], ◌∷◌, map, Option, none, some}
use tgcontrib.Base.Int.{ℤ}
use tgcontrib.Storage.Key.{PeerKey, key_from_peer}
use tgcontrib.Storage.Peer.{Api, Peer, UserClass, from_user}
use tgcontrib.Storage.Store.{Error, PeerStorage}
use tgcontrib.Storage.Clients.{add_opt, add_each, contacts}

-- The key is found in the storage: what `Add` makes true of its peer's key and of no key false.
pub record Holds {S : Type 0} (api : Api) (storage : PeerStorage S (Peer api))
    (has : PeerKey → S → Type 0) : Type 0 where
  pub added :
      (p : Peer api) (s : S)
      → (storage.add p s).1 ≡ none
      → has (key_from_peer p.key) (storage.add p s).0
  pub kept : (p : Peer api) (k : PeerKey) (s : S) → has k s → has k (storage.add p s).0

some-ne-none : {e : Error} → some e ≡ none → ⊥
some-ne-none h = cc

module _ {S : Type 0} (api : Api) (has : PeerKey → S → Type 0) where
  -- Every peer of the list is in the storage.
  abbrev pub AllHeld : List (Option (Peer api)) → S → Type 0
  AllHeld [] s = Unit
  AllHeld (none ∷ l) s = AllHeld l s
  AllHeld (some p ∷ l) s = has (key_from_peer p.key) s × AllHeld l s

module _ {S : Type 0} (api : Api) (storage : PeerStorage S (Peer api)) (has : PeerKey → S → Type 0)
    (holds : Holds api storage has) where
  add_each-has :
      (l : List (Option (Peer api))) (k : PeerKey) (s : S)
      → has k s
      → has k (add_each api storage l s).0
  unfolding add_each add_opt
  add_each-has [] k s h = h
  add_each-has (none ∷ l) k s h = add_each-has l k s h
  add_each-has (some p ∷ l) k s h = elim (Option-cases (storage.add p s).1) [
    | inl e ↦ rw (e, add_each) (add_each-has l k (storage.add p s).0 (holds.kept p k s h))
    | inr (x, e) ↦ rw (e, add_each) (holds.kept p k s h)
  ]

  add_each-AllHeld :
      (l : List (Option (Peer api))) (s : S)
      → (add_each api storage l s).1 ≡ none
      → AllHeld api has l (add_each api storage l s).0
  unfolding add_each add_opt
  add_each-AllHeld [] s h = tt
  add_each-AllHeld (none ∷ l) s h = add_each-AllHeld l s h
  add_each-AllHeld (some p ∷ l) s h = elim (Option-cases (storage.add p s).1) [
    | inl e ↦
        rw (e, add_each)
          (
            add_each-has l (key_from_peer p.key) (storage.add p s).0 (holds.added p s e),
            add_each-AllHeld l (storage.add p s).0 (rw (e, add_each) at h),
          )
    | inr (x, e) ↦ absurd (some-ne-none (rw (e, add_each) at h))
  ]

  -- Where Add puts its peer in the storage and removes none, and Contacts reports no error, the
  -- peer of every user that is not empty is in the storage.
  pub contacts-AllHeld :
      (now : ℤ) (users : List (UserClass api)) (s : S)
      → (contacts api storage now users s).1 ≡ none
      → AllHeld api has (map (from_user api now) users) (contacts api storage now users s).0
  unfolding contacts
  contacts-AllHeld now users s h = add_each-AllHeld (map (from_user api now) users) s h
