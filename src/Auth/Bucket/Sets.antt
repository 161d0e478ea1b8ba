-- ===== src/Auth/Bucket/Sets.antt =====
-- bbolt/client.go: `Get` behind `Set`.
use tgcontrib.Base.{
  ◌≡◌, ◌⊎◌, refl, ap, ◌∙◌, inl, inr, Bool, true, false, ℕ, Option, none, some, if◌then◌else◌, Bytes,
}
use tgcontrib.Base.Text.{equal}
use tgcontrib.Storage.Bbolt.{Tried, done, refused, Bolt}
use tgcontrib.Storage.Bbolt.Atomic.{to_found, read, IsBolt}
use tgcontrib.Storage.Store.{Found, found, missing, broken}
use tgcontrib.Auth.Kv.{KvError, kv_failed, key_not_found, Got, got, refused as kv_refused}
use tgcontrib.Auth.Bucket.{committed, after_put, after_create, bucket_set, bucket_get, value_reply}

some-ne-none : {e : KvError} → some e ≡ none → ⊥
some-ne-none h = cc

Tried-cases : {B : Type 0} (t : Tried B) → ((b : B) × (t ≡ done b)) ⊎ ((e : ℕ) × (t ≡ refused e))
Tried-cases (done b) = inl (b, refl)
Tried-cases (refused e) = inr (e, refl)

-- The answer for what is read of a bucket.
abbrev pub found_reply : Found → Got
found_reply missing = kv_refused key_not_found
found_reply (found v) = got v
found_reply (broken e) = kv_refused (kv_failed e)

found_reply-if :
    (b : Bool) (v : Bytes) (g : Found)
    → found_reply (if b then found v else g) ≡ (if b then got v else found_reply g)
found_reply-if true v g = refl
found_reply-if false v g = refl

module _ {D B : Type 0} (bolt : Bolt D B) where
  committed_ok :
      (r : D × Option ℕ) → (committed bolt r).1 ≡ none → (r.1 ≡ none) × ((committed bolt r).0 ≡ r.0)
  unfolding committed
  committed_ok (d, none) h = (refl, refl)
  committed_ok (d, some e) h = absurd (some-ne-none h)

  value_reply-found_reply : (o : Option Bytes) → value_reply bolt o ≡ found_reply (to_found o)
  unfolding value_reply
  value_reply-found_reply none = refl
  value_reply-found_reply (some v) = refl

  bucket_get-some :
      (j : Bytes) (d : D) (b : B)
      → bolt.bucket d ≡ some b
      → bucket_get bolt j d ≡ found_reply (to_found (bolt.lookup b j))
  unfolding bucket_get
  bucket_get-some j d b e = rw (e, bucket_get) (value_reply-found_reply (bolt.lookup b j))

  -- Where bbolt keeps its transactions, Get behind a Set without an error gives the value for
  -- its key, and for every other key what the bucket held, or that it is not found.
  pub bucket_get-bucket_set :
      (k v j : Bytes) (d : D)
      → IsBolt bolt
      → (bucket_set bolt k v d).1 ≡ none
      → bucket_get bolt j (bucket_set bolt k v d).0
        ≡ (if equal k j then got v else found_reply (read bolt (bolt.bucket d) j))
  unfolding bucket_set after_create after_put
  bucket_get-bucket_set k v j d laws h = elim (Tried-cases (bolt.create d)) [
    | inr (e, c) ↦ absurd (some-ne-none (rw (c, after_create) at h))
    | inl (b, c) ↦ elim (Tried-cases (bolt.put b k v)) [
      | inr (e, p) ↦ absurd (some-ne-none (rw (p, after_put) at (rw (c, after_create) at h)))
      | inl (b', p) ↦
          let (ok, same) =
            committed_ok (bolt.commit d b') (rw (p, after_put) at (rw (c, after_create) at h)) in
          rw (c, after_create)
            (rw (p, after_put)
              (rw same (
                bucket_get-some j (bolt.commit d b').0 b' (laws.commits d b' ok)
                ∙ ap found_reply (laws.puts b b' k v j p)
                ∙ found_reply-if (equal k j) v (to_found (bolt.lookup b j))
                ∙ ap (λ g. if equal k j then got v else found_reply g) (laws.creates d b j c))))
    ]
  ]
