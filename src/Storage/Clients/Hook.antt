-- ===== src/Storage/Clients/Hook.antt =====
-- storage/hook.go: what the update hook leaves in the storage.
use tgcontrib.Base.{
  ◌≡◌, refl, Option-cases, inl, inr, ℕ, List, [], ◌∷◌, ◌++◌, map, Option, none, some,
}
use tgcontrib.Base.Int.{ℤ}
use tgcontrib.Storage.Key.{PeerKey, key_from_peer}
use tgcontrib.Storage.Peer.{Api, Peer, ChatClass, UserClass, from_chat, from_user}
use tgcontrib.Storage.Store.{Error, PeerStorage}
use tgcontrib.Storage.Clients.{add_opt, add_every, cons_error, handle}
use tgcontrib.Storage.Clients.Collector.{Holds, AllHeld}

cons-ne-nil : {x : Error} {l : List Error} → x ∷ l ≡ [] → ⊥
cons-ne-nil h = cc

append-nil_left : (l m : List Error) → l ++ m ≡ [] → l ≡ []
append-nil_left [] m h = refl
append-nil_left (x ∷ l) m h = absurd (cons-ne-nil h)

append-nil_right : (l m : List Error) → l ++ m ≡ [] → m ≡ []
append-nil_right [] m h = h
append-nil_right (x ∷ l) m h = absurd (cons-ne-nil h)

module _ {S : Type 0} (api : Api) (has : PeerKey → S → Type 0) where
  AllHeld-after :
      (l : List (Option (Peer api))) (s t : S)
      → ((k : PeerKey) → has k s → has k t)
      → AllHeld api has l s
      → AllHeld api has l t
  AllHeld-after [] s t h a = tt
  AllHeld-after (none ∷ l) s t h a = AllHeld-after l s t h a
  AllHeld-after (some p ∷ l) s t h a = (h _ a.0, AllHeld-after l s t h a.1)

  AllHeld-append :
      (l m : List (Option (Peer api))) (s : S)
      → AllHeld api has l s
      → AllHeld api has m s
      → AllHeld api has (l ++ m) s
  AllHeld-append [] m s a b = b
  AllHeld-append (none ∷ l) m s a b = AllHeld-append l m s a b
  AllHeld-append (some p ∷ l) m s a b = (a.0, AllHeld-append l m s a.1 b)

module _ {S : Type 0} (api : Api) (storage : PeerStorage S (Peer api)) (has : PeerKey → S → Type 0)
    (holds : Holds api storage has) where
  add_every-has :
      (l : List (Option (Peer api))) (k : PeerKey) (s : S)
      → has k s
      → has k (add_every api storage l s).0
  unfolding add_every add_opt
  add_every-has [] k s h = h
  add_every-has (none ∷ l) k s h = add_every-has l k s h
  add_every-has (some p ∷ l) k s h = add_every-has l k (storage.add p s).0 (holds.kept p k s h)

  add_every-AllHeld :
      (l : List (Option (Peer api))) (s : S)
      → (add_every api storage l s).1 ≡ []
      → AllHeld api has l (add_every api storage l s).0
  unfolding add_every add_opt cons_error
  add_every-AllHeld [] s h = tt
  add_every-AllHeld (none ∷ l) s h = add_every-AllHeld l s h
  add_every-AllHeld (some p ∷ l) s h = elim (Option-cases (storage.add p s).1) [
    | inl e ↦ (
      add_every-has l (key_from_peer p.key) (storage.add p s).0 (holds.added p s e),
      add_every-AllHeld l (storage.add p s).0 (rw (e, cons_error) at h),
    )
    | inr (x, e) ↦ absurd (cons-ne-nil (rw (e, cons_error) at h))
  ]

  -- x
  pub handle-AllHeld :
      (next : S → S × Option ℕ) (now : ℤ) (chats : List (ChatClass api))
      (users : List (UserClass api)) (s : S)
      → ((k : PeerKey) (t : S) → has k t → has k (next t).0)
      → (handle api storage next now (some (chats, users)) s).1 ≡ []
      → AllHeld api has
          (map (from_chat api now) chats ++ map (from_user api now) users)
          (handle api storage next now (some (chats, users)) s).0
  unfolding handle
  handle-AllHeld next now chats users s keeps h =
      let cs = map (from_chat api now) chats in
      let us = map (from_user api now) users in
      let c = add_every api storage cs s in
      let u = add_every api storage us c.0 in
      AllHeld-append api has cs us (next u.0).0
        (AllHeld-after api has cs c.0 (next u.0).0 (λ k t. keeps k u.0 (add_every-has us k c.0 t))
          (add_every-AllHeld cs s (append-nil_left c.1 u.1 h)))
        (AllHeld-after api has us u.0 (next u.0).0 (λ k t. keeps k u.0 t)
          (add_every-AllHeld us c.0 (append-nil_right c.1 u.1 h)))
