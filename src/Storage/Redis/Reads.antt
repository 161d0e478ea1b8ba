-- ===== src/Storage/Redis/Reads.antt =====
-- redis/peer_storage.go: `Find` and `Resolve` behind `Add` and `Assign`.
use mathlib.Core.Path.{subst}
use tgcontrib.Base.{
  ◌≡◌, ◌≢◌, refl, sym, Option-cases, inl, inr, List, [], ◌∷◌, ◌++◌, Option, none, some, Bytes, ℕ,
}
use tgcontrib.Storage.Key.{PeerKey, string}
use tgcontrib.Storage.Store.{
  Error, outdated, ok, err, decoded, must_invalidate, Codec, Found, found, Batch, entries, written,
}
use tgcontrib.Storage.Written.{Absent, Absent-concat, id_of, Stored, Stored-id, Stored-link}
use tgcontrib.Storage.Key.RoundTrip.{bytes-string}
use tgcontrib.Storage.Redis.{
  wrap, store, add_all, add, assign, decode, read_data, find, read_id, resolve,
}

-- A pipeline is a transaction: it makes its writes in their order, or fails. `Set` is one of them.
pub record IsDatabase {D : Type 0} (get : D → Bytes → Found)
    (set : D → Bytes → Bytes → D × Option ℕ) (exec : D → Batch → D × Option ℕ) : Type 0 where
  pub sets :
      (d : D) (id text k : Bytes)
      → (set d id text).1 ≡ none
      → get (set d id text).0 k ≡ written ((id, text) ∷ []) k (get d k)
  pub execs :
      (d : D) (b : Batch) (k : Bytes)
      → (exec d b).1 ≡ none
      → get (exec d b).0 k ≡ written b k (get d k)

some-ne-none : {e : Error} → some e ≡ none → ⊥
some-ne-none h = cc

wrap-none : (o : Option ℕ) → wrap o ≡ none → o ≡ none
unfolding wrap
wrap-none none h = refl
wrap-none (some e) h = absurd (some-ne-none h)

module _ {P D : Type 0} (codec : Codec P) (get : D → Bytes → Found)
    (set : D → Bytes → Bytes → D × Option ℕ) (exec : D → Batch → D × Option ℕ) where
  id-string : (p : P) → id_of codec p ≡ string (codec.key p)
  id-string p = bytes-string (codec.key p) []

  store-Stored :
      (ks : List Bytes) (p : P) (d : D) (text : Bytes)
      → IsDatabase get set exec
      → codec.marshal p ≡ some text
      → (store codec get set exec d (string (codec.key p)) text ks).1 ≡ none
      → Stored codec ks p
          (get d)
          (get (store codec get set exec d (string (codec.key p)) text ks).0)
  unfolding store
  store-Stored [] p d text db e h = record {
    text = text;
    marshaled = e;
    reads = λ k.
        subst
          (λ id.
            get (set d (string (codec.key p)) text).0 k ≡ written (entries id text []) k (get d k))
          (sym (id-string p)) (db.sets d (string (codec.key p)) text k h);
  }
  store-Stored (j ∷ ks) p d text db e h = record {
    text = text;
    marshaled = e;
    reads = λ k.
        subst
          (λ id.
            get (exec d (entries (string (codec.key p)) text (j ∷ ks))).0 k
            ≡ written (entries id text (j ∷ ks)) k (get d k))
          (sym (id-string p)) (db.execs d (entries (string (codec.key p)) text (j ∷ ks)) k h);
  }

  pub add_all-Stored :
      (ks : List Bytes) (p : P) (d : D)
      → IsDatabase get set exec
      → (add_all codec get set exec ks p d).1 ≡ none
      → Stored codec ks p (get d) (get (add_all codec get set exec ks p d).0)
  unfolding add_all wrap
  add_all-Stored ks p d db h = elim (Option-cases (codec.marshal p)) [
    | inl e ↦ absurd (some-ne-none (rw (e, add_all) at h))
    | inr (text, e) ↦
        rw (e, add_all)
          (store-Stored ks p d text db e (
            wrap-none (store codec get set exec d (string (codec.key p)) text ks).1
              (rw (e, add_all) at h)))
  ]

  read_data-text :
      (p : P) (g : Found) (text : Bytes)
      → g ≡ found text
      → codec.unmarshal text ≡ decoded p
      → read_data codec get set exec g ≡ ok p
  unfolding read_data decode
  read_data-text p g text e u = rw (e, read_data) (rw (u, decode) refl)

  -- A peer that `Add` stores without an error is found by its key, where its JSON is read back and
  -- none of its associated keys is the text of its key.
  pub redis_find-add :
      (p : P) (d : D)
      → IsDatabase get set exec
      → ((text : Bytes) → codec.marshal p ≡ some text → codec.unmarshal text ≡ decoded p)
      → Absent (id_of codec p) (codec.keys p)
      → (add codec get set exec p d).1 ≡ none
      → find codec get set exec (codec.key p) (add codec get set exec p d).0 ≡ ok p
  unfolding add find
  redis_find-add p d db back a h =
      let s = add_all-Stored (codec.keys p) p d db h in
      rw (← id-string p) (
        read_data-text p _ s.text (Stored-id codec (codec.keys p) p _ _ s a)
          (back s.text s.marshaled))

  -- On redis, a peer that Assign stores without an error is what its new key resolves to, where
  -- its JSON is read back and neither the new key nor an associated one is the text of its key.
  pub redis_resolve-assign :
      (p : P) (key : Bytes) (d : D)
      → IsDatabase get set exec
      → ((text : Bytes) → codec.marshal p ≡ some text → codec.unmarshal text ≡ decoded p)
      → Absent (id_of codec p) (codec.keys p)
      → key ≢ id_of codec p
      → (assign codec get set exec key p d).1 ≡ none
      → resolve codec get set exec key (assign codec get set exec key p d).0 ≡ ok p
  unfolding assign resolve read_id
  redis_resolve-assign p key d db back a n h =
      let ks = codec.keys p ++ key ∷ [] in
      let s = add_all-Stored ks p d db h in
      rw (Stored-link codec (codec.keys p) [] key p _ _ s, read_id)
        (read_data-text p _ s.text
          (Stored-id codec ks p _ _ s (Absent-concat (id_of codec p) (codec.keys p) key a n))
          (back s.text s.marshaled))

  -- Data of an older version is an error that is not the one for a peer that is not found.
  pub find_outdated :
      (k : PeerKey) (d : D) (text : Bytes)
      → get d (string k) ≡ found text
      → codec.unmarshal text ≡ must_invalidate
      → find codec get set exec k d ≡ err outdated
  unfolding find read_data decode
  find_outdated k d text e u = rw (e, read_data) (rw (u, decode) refl)
