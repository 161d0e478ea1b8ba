-- ===== src/Tests/Buckets.antt =====
-- bbolt/peer_storage.go and bbolt/client.go on buckets that are functions.
use tgcontrib.Base.{
  ◌≡◌, ◌≢◌, refl, sym, ap, ◌∙◌, Bool, true, false, [], ◌∷◌, Option, none, some, if◌then◌else◌,
  Bytes, arith,
}
use tgcontrib.Base.Text.{codes, equal}
use tgcontrib.Storage.Key.{bytes}
use tgcontrib.Storage.Store.{ok, found}
use tgcontrib.Storage.Bbolt
use tgcontrib.Storage.Bbolt.{Tried, done, refused, Bolt}
use tgcontrib.Storage.Bbolt.Atomic.{to_found, read, IsBolt}
use tgcontrib.Storage.Bbolt.Reads.{bbolt_resolve-assign}
use tgcontrib.Tests.Stores.{codec, key_of, back}
use tgcontrib.Auth.Kv.{got}
use tgcontrib.Auth.Bucket.{bucket_set, bucket_get}
use tgcontrib.Auth.Bucket.Sets.{found_reply, bucket_get-bucket_set}

-- A bucket is a function; as in bbolt, the empty key is refused.
abbrev Bucket : Type 0
Bucket = Bytes → Option Bytes

abbrev put : Bucket → Bytes → Bytes → Tried Bucket
put b [] v = refused 1
put b (c ∷ j) v = done (λ k. if equal (c ∷ j) k then some v else b k)

abbrev create : Option Bucket → Tried Bucket
create none = done (λ k. none)
create (some b) = done b

abbrev bolt : Bolt (Option Bucket) Bucket
bolt = record {
  bucket = λ d. d;
  create = create;
  put = put;
  lookup = λ b k. b k;
  commit = λ d b. (some b, none);
}

done_injective : {b c : Bucket} → done b ≡ done c → b ≡ c
done_injective h = cc

refused-ne-done : {b : Bucket} → refused 1 ≡ done b → ⊥
refused-ne-done h = cc

to_found-if :
    (c : Bool) (v : Bytes) (o : Option Bytes)
    → to_found (if c then some v else o) ≡ (if c then found v else to_found o)
to_found-if true v o = refl
to_found-if false v o = refl

create_reads :
    (d : Option Bucket) (b : Bucket) (k : Bytes)
    → create d ≡ done b
    → to_found (b k) ≡ read bolt d k
create_reads none b k h = ap (λ c. to_found (c k)) (sym (done_injective h))
create_reads (some c) b k h = ap (λ a. to_found (a k)) (sym (done_injective h))

put_reads :
    (b b' : Bucket) (j v k : Bytes)
    → put b j v ≡ done b'
    → to_found (b' k) ≡ (if equal j k then found v else to_found (b k))
put_reads b b' [] v k h = absurd (refused-ne-done h)
put_reads b b' (c ∷ j) v k h =
    ap (λ a. to_found (a k)) (sym (done_injective h)) ∙ to_found-if (equal (c ∷ j) k) v (b k)

bolt_laws : IsBolt bolt
bolt_laws = record { creates = create_reads; puts = put_reads; commits = λ d b h. refl }

not_name : codes "a" ≢ bytes (key_of 5) []
unfolding bytes
not_name = λ e. absurd (ground arith)

bolt_added : (Bbolt.assign codec bolt (codes "a") 5 none).1 ≡ none
unfolding Bbolt.assign Bbolt.add_all bytes
bolt_added = refl

bbolt_resolve-assign_run :
    Bbolt.resolve codec bolt (codes "a") (Bbolt.assign codec bolt (codes "a") 5 none).0 ≡ ok 5
bbolt_resolve-assign_run =
    bbolt_resolve-assign codec bolt 5 (codes "a") none bolt_laws back tt not_name bolt_added

value_set : (bucket_set bolt (codes "a") (codes "b") none).1 ≡ none
unfolding bucket_set
value_set = refl

bucket_get-bucket_set_run :
    bucket_get bolt (codes "c") (bucket_set bolt (codes "a") (codes "b") none).0 ≡ (
      if equal (codes "a") (codes "c")
      then got (codes "b")
      else found_reply (read bolt none (codes "c")))
bucket_get-bucket_set_run =
    bucket_get-bucket_set bolt (codes "a") (codes "b") (codes "c") none bolt_laws value_set
