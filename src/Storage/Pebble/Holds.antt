-- ===== src/Storage/Pebble/Holds.antt =====
-- pebble/peer_storage.go under storage/collector.go and storage/hook.go: what they leave on pebble.
use tgcontrib.Base.{
  ◌≡◌, refl, ◌∙◌, Bool-cases, Option-cases, inl, inr, ℕ, List, [], ◌∷◌, ◌++◌, map, Option, none,
  some, Bytes,
}
use tgcontrib.Base.Int.{ℤ}
use tgcontrib.Base.Text.{equal}
use tgcontrib.Storage.Key.{PeerKey, key_from_peer, bytes}
use tgcontrib.Storage.Peer.{Api, Peer, ChatClass, UserClass, from_chat, from_user}
use tgcontrib.Storage.Store.{Error, Found, found, Batch, written, Codec, entries}
use tgcontrib.Storage.Written.{equal_self}
use tgcontrib.Storage.Pebble.{wrap, add_all, add, pebble_storage}
use tgcontrib.Storage.Pebble.Reads.{IsDatabase, wrap-none}
use tgcontrib.Storage.Clients.{handle}
use tgcontrib.Storage.Clients.Collector.{Holds, AllHeld}
use tgcontrib.Storage.Clients.Hook.{handle-AllHeld}

-- Writes remove no entry.
written-found :
    (b : Batch) (k : Bytes) {t : Bytes} {g : Found}
    → g ≡ found t
    → (u : Bytes) × (written b k g ≡ found u)
written-found [] k {t} h = (t, h)
written-found ((j, v) ∷ b) k {t} h = elim (Bool-cases (equal j k)) [
  | inl e ↦ rw (e, written) (written-found b k refl)
  | inr e ↦ rw (e, written) (written-found b k h)
]

-- There is data under the key.
abbrev pub HasData : {D : Type 0} → (D → Bytes → Found) → PeerKey → D → Type 0
HasData get k d = (t : Bytes) × (get d (bytes k []) ≡ found t)

some-ne-none : {e : Error} → some e ≡ none → ⊥
some-ne-none h = cc

module _ {D : Type 0} (api : Api) (codec : Codec (Peer api)) (get : D → Bytes → Found)
    (commit : D → Batch → D × Option ℕ) (db : IsDatabase get commit)
    (keyed : (p : Peer api) → codec.key p ≡ key_from_peer p.key) where
  added_text :
      (p : Peer api) (d : D) (text : Bytes)
      → codec.marshal p ≡ some text
      → (add codec get commit p d).1 ≡ none
      → HasData get (key_from_peer p.key) (add codec get commit p d).0
  unfolding add add_all
  added_text p d text e h =
      let id = bytes (codec.key p) [] in
      let b = entries id text (codec.keys p) in
      rw (e, add_all)
        (rw (← keyed p) (
          let (u, w) = written-found (map (λ k. (k, id)) (codec.keys p)) id {t = text} refl in
          (
            u,
            db.commits d b id (wrap-none (commit d b).1 (rw (e, add_all) at h))
                ∙ rw (equal_self id, written) w,
          )))

  add-added :
      (p : Peer api) (d : D)
      → (add codec get commit p d).1 ≡ none
      → HasData get (key_from_peer p.key) (add codec get commit p d).0
  unfolding add add_all wrap
  add-added p d h = elim (Option-cases (codec.marshal p)) [
    | inl e ↦ absurd (some-ne-none (rw (e, add_all) at h))
    | inr (text, e) ↦ added_text p d text e h
  ]

  add_kept :
      (p : Peer api) (k : PeerKey) (d : D)
      → HasData get k d
      → HasData get k (add codec get commit p d).0
  unfolding add add_all wrap
  add_kept p k d h = elim (Option-cases (codec.marshal p)) [
    | inl e ↦ rw (e, add_all) h
    | inr (text, e) ↦
        let b = entries (bytes (codec.key p) []) text (codec.keys p) in
        rw (e, add_all)
          (elim (Option-cases (commit d b).1) [
            | inl c ↦ let (u, w) = written-found b (bytes k []) h.1 in (u, db.commits d b _ c ∙ w)
            | inr (x, c) ↦ (h.0, db.aborts d b _ x c ∙ h.1)
          ])
  ]

  pebble-Holds : Holds api (pebble_storage codec get commit) (HasData get)
  pebble-Holds = record { added = add-added; kept = add_kept }

  -- On pebble, where the update hook reports no error of the storage and the next handler
  -- removes no data, there is data under the key of every chat and every user of the update
  -- that makes a peer.
  pub handle-pebble :
      (next : D → D × Option ℕ) (now : ℤ) (chats : List (ChatClass api))
      (users : List (UserClass api)) (d : D)
      → ((k : PeerKey) (t : D) → HasData get k t → HasData get k (next t).0)
      → (handle api (pebble_storage codec get commit) next now (some (chats, users)) d).1 ≡ []
      → AllHeld api
          (HasData get)
          (map (from_chat api now) chats ++ map (from_user api now) users)
          (handle api (pebble_storage codec get commit) next now (some (chats, users)) d).0
  handle-pebble next now chats users d keeps h =
      handle-AllHeld api (pebble_storage codec get commit) (HasData get) pebble-Holds next now chats
        users d keeps h
