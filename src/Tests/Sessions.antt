-- ===== src/Tests/Sessions.antt =====
-- Sessions on pebble and on S3, with databases in memory.
use tgcontrib.Base.{ℕ, ◌≡◌, refl, Bool, true, false, Option, none, some, Bytes}
use tgcontrib.Base.Text.{codes}
use tgcontrib.Storage.Store.{Batch, Found, found, missing, written}
use tgcontrib.Auth.Kv.{loaded, load_session, store_session}
use tgcontrib.Auth.Clients.{
  S3, create_failed, s3_loaded, s3_load_session, s3_store_session, pebble_session, pebble_set,
}
use tgcontrib.Auth.Clients.Sessions.{IsS3, pebble_load-store, s3_stores_once}

abbrev Memory : Type 0
Memory = Bytes → Found

abbrev get : Memory → Bytes → Found
get d k = d k

abbrev commit : Memory → Batch → Memory × Option ℕ
commit d b = (λ k. written b k (d k), none)

pebble_load-store_run :
    load_session
      (pebble_session get commit (λ d. none) (λ d. none) (codes "key"))
      (store_session
        (pebble_session get commit (λ d. none) (λ d. none) (codes "key"))
        (codes "v")
        (λ k. missing)).0
    ≡ loaded (codes "v")
pebble_load-store_run =
    pebble_load-store get commit (λ d. none) (λ d. none) (codes "key") (codes "v") (λ k. missing)
      (λ d b k h. refl) (λ d. refl) (unfold store_session pebble_session pebble_set in refl)

-- Whether the bucket is there, and the object.
abbrev Cloud : Type 0
Cloud = Bool × Option Bytes

abbrev make : Cloud → Cloud × Option ℕ
make (true, o) = ((true, o), some 409)
make (false, o) = ((true, o), none)

abbrev object : Option Bytes → Found
object none = missing
object (some v) = found v

abbrev s3 : S3 Cloud
s3 = record {
  get_object = λ d. none;
  read_all = λ d. object d.1;
  make_bucket = make;
  put_object = λ v d. ((d.0, some v), none);
}

refused_again : (d : Cloud) → d.0 ≡ true → (e : ℕ) × (make d ≡ (d, some e))
refused_again (true, o) h = (409, refl)
refused_again (false, o) h = cc

made_once : (d : Cloud) → (make d).1 ≡ none → (make d).0.0 ≡ true
made_once (true, o) h = refl
made_once (false, o) h = refl

s3-IsS3 : IsS3 s3 (λ d. d.0)
s3-IsS3 = record {
  refuses = refused_again;
  makes = made_once;
  keeps = λ d v. refl;
  puts = λ d v h. (refl, refl);
}

s3_stores_once_run :
    (s3_load_session s3 404 (s3_store_session s3 404 (codes "a") (false, none)).0
      ≡ s3_loaded (codes "a"))
    × ((w : Bytes)
        → (e : ℕ) × (s3_store_session s3 404 w (s3_store_session s3 404 (codes "a") (false, none)).0
            ≡ ((s3_store_session s3 404 (codes "a") (false, none)).0, some (create_failed e))))
s3_stores_once_run =
    s3_stores_once s3 404 (λ d. d.0) (codes "a") (false, none) s3-IsS3
      (unfold s3_store_session in refl)
