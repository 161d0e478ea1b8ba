-- ===== src/Storage/Bbolt/Reads.antt =====
-- bbolt/peer_storage.go: `Find` and `Resolve` behind `Add` and `Assign`.
use tgcontrib.Base.{◌≡◌, ◌≢◌, refl, [], ◌∷◌, ◌++◌, Option, none, some, Bytes}
use tgcontrib.Storage.Store.{ok, decoded, Codec, found, missing}
use tgcontrib.Storage.Written.{Absent, Absent-concat, id_of, Stored-id, Stored-link}
use tgcontrib.Storage.Bbolt.{Bolt, add, assign, decode, read_data, find, read_id, resolve}
use tgcontrib.Storage.Bbolt.Atomic.{to_found, read, IsBolt, add_all-Stored}

missing-ne-found : {v : Bytes} → missing ≡ found v → ⊥
missing-ne-found h = cc

to_found-some : (o : Option Bytes) (v : Bytes) → to_found o ≡ found v → o ≡ some v
to_found-some none v h = absurd (missing-ne-found h)
to_found-some (some w) v h = cc

module _ {P D B : Type 0} (codec : Codec P) (bolt : Bolt D B) where
  -- A read that finds something is one of a bucket that is there.
  read-found :
      (o : Option B) (k v : Bytes)
      → read bolt o k ≡ found v
      → (b : B) × (o ≡ some b) × (bolt.lookup b k ≡ some v)
  read-found none k v h = absurd (missing-ne-found h)
  read-found (some b) k v h = (b, refl, to_found-some (bolt.lookup b k) v h)

  -- A peer that `Add` stores without an error is found by its key, where its JSON is read back and
  -- none of its associated keys is the text of its key.
  pub bbolt_find-add :
      (p : P) (d : D)
      → IsBolt bolt
      → ((text : Bytes) → codec.marshal p ≡ some text → codec.unmarshal text ≡ decoded p)
      → Absent (id_of codec p) (codec.keys p)
      → (add codec bolt p d).1 ≡ none
      → find codec bolt (codec.key p) (add codec bolt p d).0 ≡ ok p
  unfolding add find read_data decode
  bbolt_find-add p d laws back a h =
      let s = add_all-Stored codec bolt (codec.keys p) p d laws h in
      let (b, there, value) = read-found _ _ s.text (Stored-id codec (codec.keys p) p _ _ s a) in
      rw (there, find) (rw (value, read_data) (rw (back s.text s.marshaled, decode) refl))

  -- On bbolt, a peer that Assign stores without an error is what its new key resolves to, where
  -- its JSON is read back and neither the new key nor an associated one is the text of its key.
  pub bbolt_resolve-assign :
      (p : P) (key : Bytes) (d : D)
      → IsBolt bolt
      → ((text : Bytes) → codec.marshal p ≡ some text → codec.unmarshal text ≡ decoded p)
      → Absent (id_of codec p) (codec.keys p)
      → key ≢ id_of codec p
      → (assign codec bolt key p d).1 ≡ none
      → resolve codec bolt key (assign codec bolt key p d).0 ≡ ok p
  unfolding assign resolve read_id read_data decode
  bbolt_resolve-assign p key d laws back a n h =
      let ks = codec.keys p ++ key ∷ [] in
      let s = add_all-Stored codec bolt ks p d laws h in
      let (b, there, id) = read-found _ _ _ (Stored-link codec (codec.keys p) [] key p _ _ s) in
      let data_read =
        Stored-id codec ks p _ _ s (Absent-concat (id_of codec p) (codec.keys p) key a n) in
      let value = to_found-some _ s.text (rw (there, read) at data_read) in
      rw (there, resolve)
        (rw (id, read_id) (rw (value, read_data) (rw (back s.text s.marshaled, decode) refl)))
