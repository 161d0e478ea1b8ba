-- ===== src/Storage/Pebble/Reads.antt =====
-- pebble/peer_storage.go: `Find` and `Resolve` behind `Add` and `Assign`.
use mathlib.Core.Path.{subst}
use tgcontrib.Base.{
  ◌≡◌, ◌≢◌, refl, ap, Option-cases, inl, inr, List, [], ◌∷◌, ◌++◌, Option, none, some, Bytes, ℕ,
}
use tgcontrib.Storage.Key.{PeerKey, bytes}
use tgcontrib.Storage.Store.{
  Error, unmarshal_failed, ok, err, decoded, malformed, Codec, Found, found, Batch, entries,
  written,
}
use tgcontrib.Storage.Written.{
  Absent, Absent-concat, id_of, Stored, Stored-id, Stored-link, Stored-other,
}
use tgcontrib.Base.Int.{ℤ}
use tgcontrib.Storage.Key.RoundTrip.{IsKey, bytes_injective}
use tgcontrib.Storage.Pebble.{wrap, add_all, add, assign, decode, read_data, find, read_id, resolve}

-- A batch is atomic: a commit makes its writes in their order, and a failed one makes none.
pub record IsDatabase {D : Type 0} (get : D → Bytes → Found) (commit : D → Batch → D × Option ℕ)
    : Type 0 where
  pub commits :
      (d : D) (b : Batch) (k : Bytes)
      → (commit d b).1 ≡ none
      → get (commit d b).0 k ≡ written b k (get d k)
  pub aborts :
      (d : D) (b : Batch) (k : Bytes) (e : ℕ)
      → (commit d b).1 ≡ some e
      → get (commit d b).0 k ≡ get d k

some-ne-none : {e : Error} → some e ≡ none → ⊥
some-ne-none h = cc

pub wrap-none : (o : Option ℕ) → wrap o ≡ none → o ≡ none
unfolding wrap
wrap-none none h = refl
wrap-none (some e) h = absurd (some-ne-none h)

module _ {P D : Type 0} (codec : Codec P) (get : D → Bytes → Found)
    (commit : D → Batch → D × Option ℕ) where
  pub add_all-Stored :
      (ks : List Bytes) (p : P) (d : D)
      → IsDatabase get commit
      → (add_all codec get commit ks p d).1 ≡ none
      → Stored codec ks p (get d) (get (add_all codec get commit ks p d).0)
  unfolding add_all wrap
  add_all-Stored ks p d db h = elim (Option-cases (codec.marshal p)) [
    | inl e ↦ absurd (some-ne-none (rw (e, add_all) at h))
    | inr (text, e) ↦
        let b = entries (id_of codec p) text ks in
        rw (e, add_all)
          (record {
            text = text;
            marshaled = e;
            reads = λ k. db.commits d b k (wrap-none (commit d b).1 (rw (e, add_all) at h));
          })
  ]

  read_data-text :
      (q : P) (g : Found) (text : Bytes)
      → g ≡ found text
      → codec.unmarshal text ≡ decoded q
      → read_data codec get commit g ≡ ok q
  unfolding read_data decode
  read_data-text q g text e u = rw (e, read_data) (rw (u, decode) refl)

  -- A peer that `Add` stores without an error is found by its key as what its JSON is read as, where
  -- none of its associated keys is the text of its key.
  pub find-add :
      (p q : P) (d : D)
      → IsDatabase get commit
      → ((text : Bytes) → codec.marshal p ≡ some text → codec.unmarshal text ≡ decoded q)
      → Absent (id_of codec p) (codec.keys p)
      → (add codec get commit p d).1 ≡ none
      → find codec get commit (codec.key p) (add codec get commit p d).0 ≡ ok q
  unfolding add find
  find-add p q d db back a h =
      let s = add_all-Stored (codec.keys p) p d db h in
      read_data-text q _ s.text (Stored-id codec (codec.keys p) p _ _ s a) (back s.text s.marshaled)

  -- A peer that `Assign` stores without an error is resolved by its new key as what its JSON is read
  -- as, where neither the new key nor an associated one is the text of its key.
  pub resolve-assign_back :
      (p q : P) (key : Bytes) (d : D)
      → IsDatabase get commit
      → ((text : Bytes) → codec.marshal p ≡ some text → codec.unmarshal text ≡ decoded q)
      → Absent (id_of codec p) (codec.keys p)
      → key ≢ id_of codec p
      → (assign codec get commit key p d).1 ≡ none
      → resolve codec get commit key (assign codec get commit key p d).0 ≡ ok q
  unfolding assign resolve read_id
  resolve-assign_back p q key d db back a n h =
      let ks = codec.keys p ++ key ∷ [] in
      let s = add_all-Stored ks p d db h in
      rw (Stored-link codec (codec.keys p) [] key p _ _ s, read_id)
        (read_data-text q _ s.text
          (Stored-id codec ks p _ _ s (Absent-concat (id_of codec p) (codec.keys p) key a n))
          (back s.text s.marshaled))

  -- On pebble, a peer that Assign stores without an error is what its new key resolves to,
  -- where its JSON is read back and neither the new key nor an associated one is the text of
  -- its key.
  pub resolve-assign :
      (p : P) (key : Bytes) (d : D)
      → IsDatabase get commit
      → ((text : Bytes) → codec.marshal p ≡ some text → codec.unmarshal text ≡ decoded p)
      → Absent (id_of codec p) (codec.keys p)
      → key ≢ id_of codec p
      → (assign codec get commit key p d).1 ≡ none
      → resolve codec get commit key (assign codec get commit key p d).0 ≡ ok p
  resolve-assign p key d db back a n h = resolve-assign_back p p key d db back a n h

  -- On pebble, an Add without an error changes the answer of Find for no other key, where both
  -- keys have int64 numbers and a kind that is at most the last one, and the text of the other
  -- key is none of the associated keys.
  pub find-add_other :
      (channel : ℤ) (p : P) (k : PeerKey) (d : D)
      → IsDatabase get commit
      → IsKey channel (codec.key p)
      → IsKey channel k
      → codec.key p ≢ k
      → Absent (bytes k []) (codec.keys p)
      → (add codec get commit p d).1 ≡ none
      → find codec get commit k (add codec get commit p d).0 ≡ find codec get commit k d
  unfolding add find
  find-add_other channel p k d db kp kk n a h =
      let s = add_all-Stored (codec.keys p) p d db h in
      ap (read_data codec get commit) (
        Stored-other codec (codec.keys p) (bytes k []) p _ _ s
          (λ e. n (bytes_injective channel (codec.key p) k kp kk e)) a)

  -- On pebble, an Add without an error of a peer whose associated key is the text of another
  -- key hides what was stored under that key: Find of the other key reads the text of the
  -- peer's own key, and fails where that is no JSON of a peer.
  pub find-add_shadowed :
      (p : P) (k : PeerKey) (front back : List Bytes) (d : D)
      → IsDatabase get commit
      → codec.keys p ≡ front ++ bytes k [] ∷ back
      → codec.unmarshal (id_of codec p) ≡ malformed
      → (add codec get commit p d).1 ≡ none
      → find codec get commit k (add codec get commit p d).0 ≡ err unmarshal_failed
  unfolding add find read_data decode
  find-add_shadowed p k front back d db e u h =
      let s = add_all-Stored (codec.keys p) p d db h in
      let link : get (add_all codec get commit (codec.keys p) p d).0 (bytes k [])
          ≡ found (id_of codec p) =
        Stored-link codec front back (bytes k []) p _ _ (
          subst
            (λ ks. Stored codec ks p (get d) (get (add_all codec get commit (codec.keys p) p d).0))
            e s) in
      rw (link, read_data) (rw (u, decode) refl)
