-- ===== src/Storage/Bbolt/Atomic.antt =====
-- bbolt/peer_storage.go: the transaction of `add`.
use tgcontrib.Base.{
  ◌≡◌, ◌⊎◌, refl, sym, ap, ◌∙◌, Option-cases, inl, inr, List, [], ◌∷◌, map, Option, none, some,
  Bytes, ℕ, if◌then◌else◌,
}
use tgcontrib.Base.Text.{equal}
use tgcontrib.Storage.Store.{Error, Codec, Found, found, missing, written}
use tgcontrib.Storage.Written.{id_of, Stored}
use tgcontrib.Storage.Bbolt.{
  Tried, done, refused, Bolt, put_links, finish, end_batch, fill, add_all,
}

abbrev pub to_found : Option Bytes → Found
to_found none = missing
to_found (some v) = found v

-- A read of a bucket that may be missing.
abbrev pub read : {D B : Type 0} → Bolt D B → Option B → Bytes → Found
read bolt none k = missing
read bolt (some b) k = to_found (bolt.lookup b k)

-- What bbolt documents of a read-write transaction.
pub record IsBolt {D B : Type 0} (bolt : Bolt D B) : Type 0 where
  pub creates :
      (d : D) (b : B) (k : Bytes)
      → bolt.create d ≡ done b
      → to_found (bolt.lookup b k) ≡ read bolt (bolt.bucket d) k
  pub puts :
      (b b' : B) (j v k : Bytes)
      → bolt.put b j v ≡ done b'
      → to_found (bolt.lookup b' k) ≡ (if equal j k then found v else to_found (bolt.lookup b k))
  pub commits :
      (d : D) (b : B) → (bolt.commit d b).1 ≡ none → bolt.bucket (bolt.commit d b).0 ≡ some b

Tried-cases : {B : Type 0} (t : Tried B) → ((b : B) × (t ≡ done b)) ⊎ ((e : ℕ) × (t ≡ refused e))
Tried-cases (done b) = inl (b, refl)
Tried-cases (refused e) = inr (e, refl)

none-ne-some : {e : Error} → none ≡ some e → ⊥
none-ne-some h = cc

refused-ne-done : {B : Type 0} {b : B} {e : ℕ} → refused e ≡ done b → ⊥
refused-ne-done h = cc

done_injective : {B : Type 0} {b c : B} → done b ≡ done c → b ≡ c
done_injective h = cc

module _ {P D B : Type 0} (codec : Codec P) (bolt : Bolt D B) where
  finish_ok :
      (r : D × Option ℕ)
      → (finish codec bolt r).1 ≡ none
      → (r.1 ≡ none) × ((finish codec bolt r).0 ≡ r.0)
  unfolding finish
  finish_ok (d, none) h = (refl, refl)
  finish_ok (d, some e) h = absurd (none-ne-some (sym h))

  -- The bucket behind the links, and the one before them.
  put_links_reads :
      (id : Bytes) (ks : List Bytes) (b : B) (t : Tried B)
      → IsBolt bolt
      → put_links codec bolt id ks t ≡ done b
      → (b0 : B) × (t ≡ done b0)
        × ((k : Bytes)
            → to_found (bolt.lookup b k)
              ≡ written (map (λ j. (j, id)) ks) k (to_found (bolt.lookup b0 k)))
  unfolding put_links
  put_links_reads id ks b (refused e) laws h = absurd (refused-ne-done h)
  put_links_reads id [] b (done b0) laws h =
      (b0, refl, λ k. ap (λ c. to_found (bolt.lookup c k)) (sym (done_injective h)))
  put_links_reads id (j ∷ ks) b (done b0) laws h =
      let (b1, e, reads) = put_links_reads id ks b (bolt.put b0 j id) laws h in
      (b0, refl, λ k. reads k ∙ ap (written (map (λ i. (i, id)) ks) k) (laws.puts b0 b1 j id k e))

  end_batch-Stored :
      (p : P) (ks : List Bytes) (text : Bytes) (d : D) (b0 : B)
      → IsBolt bolt
      → codec.marshal p ≡ some text
      → bolt.create d ≡ done b0
      → (end_batch codec bolt d
          (put_links codec bolt (id_of codec p) ks (bolt.put b0 (id_of codec p) text))).1
        ≡ none
      → Stored codec ks p (read bolt (bolt.bucket d)) (
          read bolt (
            bolt.bucket
              (end_batch codec bolt d
                (put_links codec bolt (id_of codec p) ks (bolt.put b0 (id_of codec p) text))).0))
  unfolding end_batch
  end_batch-Stored p ks text d b0 laws m c h =
      elim (Tried-cases
        (put_links codec bolt (id_of codec p) ks (bolt.put b0 (id_of codec p) text))) [
          | inr (x, e) ↦ absurd (none-ne-some (sym (rw (e, end_batch) at h)))
          | inl (b, e) ↦
              let (b1, first, reads) = put_links_reads (id_of codec p) ks b _ laws e in
              let (committed, same) = finish_ok (bolt.commit d b) (rw (e, end_batch) at h) in
              rw (e, end_batch)
                (record {
                  text = text;
                  marshaled = m;
                  reads = λ k.
                      rw (same, laws.commits d b committed, read)
                        (reads k
                          ∙ ap (written (map (λ j. (j, id_of codec p)) ks) k) (
                              laws.puts b0 b1 (id_of codec p) text k first
                              ∙ ap (λ g. if equal (id_of codec p) k then found text else g)
                                  (laws.creates d b0 k c)));
                })
        ]

  pub add_all-Stored :
      (ks : List Bytes) (p : P) (d : D)
      → IsBolt bolt
      → (add_all codec bolt ks p d).1 ≡ none
      → Stored codec ks p
          (read bolt (bolt.bucket d))
          (read bolt (bolt.bucket (add_all codec bolt ks p d).0))
  unfolding add_all fill
  add_all-Stored ks p d laws h = elim (Tried-cases (bolt.create d)) [
    | inr (x, e) ↦ absurd (none-ne-some (sym (rw (e, fill) at h)))
    | inl (b0, c) ↦ elim (Option-cases (codec.marshal p)) [
      | inl m ↦ absurd (none-ne-some (sym (rw (c, m, fill) at h)))
      | inr (text, m) ↦
          rw (c, fill)
            (rw (m, fill)
              (end_batch-Stored p ks text d b0 laws m c (rw (m, fill) at (rw (c, fill) at h))))
    ]
  ]
