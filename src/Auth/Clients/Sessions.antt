-- ===== src/Auth/Clients/Sessions.antt =====
-- pebble/client.go, redis/client.go and s3/session.go: reads behind writes.
use tgcontrib.Base.{
  ℕ, ◌≡◌, refl, ap, ◌∙◌, Bool, true, false, [], ◌∷◌, Option, none, some, if◌then◌else◌, Bytes,
}
use tgcontrib.Base.Text.{equal}
use tgcontrib.Storage.Store.{Batch, Found, found, missing, broken, written}
use tgcontrib.Auth.Kv.{KvError, got, loaded, load_session, store_session}
use tgcontrib.Auth.Kv.Saved.{IsKv, load_session-store_session}
use tgcontrib.Auth.Clients.{
  to_reply, reply_of, redis_client, redis_set, redis_get, redis_session, closed, pebble_storage,
  pebble_set, pebble_get, pebble_reply, value_reply, pebble_session, S3, create_failed, s3_loaded,
  s3_read, s3_made, s3_put, s3_load_session, s3_store_session,
}

some-ne-none : {A : Type 0} {a : A} → some a ≡ none → ⊥
some-ne-none h = cc

reply-if :
    {D : Type 0} (get : D → Bytes → Found) (set : D → Bytes → Bytes → D × Option ℕ) (b : Bool)
    (v : Bytes) (g : Found)
    → reply_of get set (if b then found v else g) ≡ (if b then got v else reply_of get set g)
unfolding reply_of
reply-if get set true v g = refl
reply-if get set false v g = refl

to_reply-none :
    {D : Type 0} (r : D × Option ℕ) → (to_reply r).1 ≡ none → (r.1 ≡ none) × ((to_reply r).0 ≡ r.0)
unfolding to_reply
to_reply-none (d, none) h = (refl, refl)
to_reply-none (d, some e) h = absurd (some-ne-none h)

-- A `SET` of redis that reports no error is read, and changes no other key.
abbrev pub Sets : {D : Type 0} → (D → Bytes → Found) → (D → Bytes → Bytes → D × Option ℕ) → Type 0
Sets {D} get set =
    (d : D) (k v j : Bytes)
    → (set d k v).1 ≡ none
    → get (set d k v).0 j ≡ (if equal k j then found v else get d j)

-- A batch that pebble commits is read, and changes no other key.
abbrev pub Commits : {D : Type 0} → (D → Bytes → Found) → (D → Batch → D × Option ℕ) → Type 0
Commits {D} get commit =
    (d : D) (b : Batch) (k : Bytes)
    → (commit d b).1 ≡ none
    → get (commit d b).0 k ≡ written b k (get d k)

redis_client-IsKv :
    {D : Type 0} (get : D → Bytes → Found) (set : D → Bytes → Bytes → D × Option ℕ)
    → Sets get set
    → IsKv (redis_client get set)
unfolding redis_set redis_get
redis_client-IsKv get set laws k v j d h =
    let (ok, same) = to_reply-none (set d k v) h in
    ap (λ z. reply_of get set (get z j)) same
    ∙ ap (reply_of get set) (laws d k v j ok)
    ∙ reply-if get set (equal k j) v (get d j)

-- On redis, a session that is stored without an error is loaded.
redis_load-store :
    {D : Type 0} (get : D → Bytes → Found) (set : D → Bytes → Bytes → D × Option ℕ) (key v : Bytes)
    (d : D)
    → Sets get set
    → (store_session (redis_session get set key) v d).1 ≡ none
    → load_session (redis_session get set key) (store_session (redis_session get set key) v d).0
      ≡ loaded v
unfolding redis_session
redis_load-store get set key v d laws h =
    load_session-store_session (redis_session get set key) v d (redis_client-IsKv get set laws) h

module _ {D : Type 0} (get : D → Bytes → Found) (commit : D → Batch → D × Option ℕ)
    (close_batch : D → Option ℕ) (close_value : D → Option ℕ) where
  closed-none :
      (r : D × Option KvError)
      → (closed get commit close_batch close_value r).1 ≡ none
      → (r.1 ≡ none) × ((closed get commit close_batch close_value r).0 ≡ r.0)
  unfolding closed
  closed-none (d, none) h = (refl, refl)
  closed-none (d, some e) h = absurd (some-ne-none h)

  pebble_reply-if :
      (b : Bool) (v : Bytes) (g : Found) (c d : D)
      → close_value c ≡ none
      → close_value d ≡ none
      → pebble_reply get commit close_batch close_value c (if b then found v else g)
        ≡ (if b then got v else pebble_reply get commit close_batch close_value d g)
  unfolding pebble_reply value_reply
  pebble_reply-if true v g c d h k = rw h refl
  pebble_reply-if false v (found w) c d h k = rw (h, k) refl
  pebble_reply-if false v missing c d h k = refl
  pebble_reply-if false v (broken e) c d h k = refl

  pebble_storage-IsKv :
      Commits get commit
      → ((d : D) → close_value d ≡ none)
      → IsKv (pebble_storage get commit close_batch close_value)
  unfolding pebble_set pebble_get
  pebble_storage-IsKv laws closes k v j d h =
      let (ok, same) = closed-none (to_reply (commit d ((k, v) ∷ []))) h in
      let (ok', same') = to_reply-none (commit d ((k, v) ∷ [])) ok in
      ap (λ z. pebble_reply get commit close_batch close_value z (get z j)) (same ∙ same')
      ∙ ap (pebble_reply get commit close_batch close_value (commit d ((k, v) ∷ [])).0)
          (laws d ((k, v) ∷ []) j ok')
      ∙ pebble_reply-if (equal k j) v (get d j) _ d (closes _) (closes d)

  -- On pebble, a session that is stored without an error is loaded, where the value that is read
  -- is closed without an error.
  pub pebble_load-store :
      (key v : Bytes) (d : D)
      → Commits get commit
      → ((d : D) → close_value d ≡ none)
      → (store_session (pebble_session get commit close_batch close_value key) v d).1 ≡ none
      → load_session
          (pebble_session get commit close_batch close_value key)
          (store_session (pebble_session get commit close_batch close_value key) v d).0
        ≡ loaded v
  unfolding pebble_session
  pebble_load-store key v d laws closes h =
      load_session-store_session (pebble_session get commit close_batch close_value key) v d
        (pebble_storage-IsKv laws closes) h

-- What S3 documents: a bucket that is there is not made again, and an object that was put is read.
pub record IsS3 {D : Type 0} (s3 : S3 D) (has : D → Bool) : Type 0 where
  pub refuses : (d : D) → has d ≡ true → (e : ℕ) × (s3.make_bucket d ≡ (d, some e))
  pub makes : (d : D) → (s3.make_bucket d).1 ≡ none → has (s3.make_bucket d).0 ≡ true
  pub keeps : (d : D) (v : Bytes) → has (s3.put_object v d).0 ≡ has d
  pub puts :
      (d : D) (v : Bytes)
      → (s3.put_object v d).1 ≡ none
      → (s3.get_object (s3.put_object v d).0 ≡ none) × (s3.read_all (s3.put_object v d).0 ≡ found v)

module _ {D : Type 0} (s3 : S3 D) (no_such_key : ℕ) (has : D → Bool) where
  put-none :
      (r : D × Option ℕ)
      → (s3_put s3 no_such_key r).1 ≡ none
      → (r.1 ≡ none) × ((s3_put s3 no_such_key r).0 ≡ r.0)
  unfolding s3_put
  put-none (d, none) h = (refl, refl)
  put-none (d, some e) h = absurd (some-ne-none h)

  made-none :
      (v : Bytes) (r : D × Option ℕ)
      → (s3_made s3 no_such_key v r).1 ≡ none
      → (r.1 ≡ none)
        × ((s3.put_object v r.0).1 ≡ none)
        × ((s3_made s3 no_such_key v r).0 ≡ (s3.put_object v r.0).0)
  unfolding s3_made
  made-none v (d, none) h = let (ok, same) = put-none (s3.put_object v d) h in (refl, ok, same)
  made-none v (d, some e) h = absurd (some-ne-none h)

  stored_parts :
      (v : Bytes) (d : D)
      → (s3_store_session s3 no_such_key v d).1 ≡ none
      → ((s3.make_bucket d).1 ≡ none)
        × ((s3.put_object v (s3.make_bucket d).0).1 ≡ none)
        × ((s3_store_session s3 no_such_key v d).0 ≡ (s3.put_object v (s3.make_bucket d).0).0)
  unfolding s3_store_session
  stored_parts v d h = made-none v (s3.make_bucket d) h

  store_refused :
      (v : Bytes) (d : D)
      → IsS3 s3 has
      → has d ≡ true
      → (e : ℕ) × (s3_store_session s3 no_such_key v d ≡ (d, some (create_failed e)))
  unfolding s3_store_session s3_made
  store_refused v d laws h = let (e, r) = laws.refuses d h in (e, ap (s3_made s3 no_such_key v) r)

  -- On S3, which makes no bucket that is there and reads an object that was put, a session that
  -- is stored without an error is loaded; from then on every further session is refused and
  -- leaves the storage as it is, since StoreSession makes the bucket each time.
  pub s3_stores_once :
      (v : Bytes) (d : D)
      → IsS3 s3 has
      → (s3_store_session s3 no_such_key v d).1 ≡ none
      → (s3_load_session s3 no_such_key (s3_store_session s3 no_such_key v d).0 ≡ s3_loaded v)
        × ((w : Bytes)
            → (e : ℕ) × (s3_store_session s3 no_such_key w (s3_store_session s3 no_such_key v d).0
                ≡ ((s3_store_session s3 no_such_key v d).0, some (create_failed e))))
  unfolding s3_load_session s3_read
  s3_stores_once v d laws h =
      let (made, put, same) = stored_parts v d h in
      let (opens, reads) = laws.puts (s3.make_bucket d).0 v put in
      let there = laws.keeps (s3.make_bucket d).0 v ∙ laws.makes d made in
      (
        rw same (rw (opens, s3_load_session) (ap (s3_read s3 no_such_key) reads)),
        λ w. rw same (store_refused w (s3.put_object v (s3.make_bucket d).0).0 laws there),
      )
