-- ===== src/Tests/Stores.antt =====
-- The peer storages on databases that are functions.
use tgcontrib.Base.{
  ℕ, ◌≤◌, ◌≡◌, ◌≢◌, refl, [], ◌∷◌, Option, none, some, ◌==◌, if◌then◌else◌, Bytes, arith,
}
use tgcontrib.Base.Int.{pos}
use tgcontrib.Storage.Key.{PeerKey, bytes}
use tgcontrib.Storage.Key.RoundTrip.{IsKey}
use tgcontrib.Storage.Store.{
  ok, err, unmarshal_failed, Decoded, decoded, malformed, Codec, Found, missing, Batch, written,
}
use tgcontrib.Storage.Pebble
use tgcontrib.Storage.Redis

-- Peers that are numbers; the peer 10 has the text of the key of the peer 7 as its name.
abbrev pub key_of : ℕ → PeerKey
key_of n = record { kind = pos 0; id = pos n }

abbrev read_number : Bytes → Decoded ℕ
read_number [] = malformed
read_number (n ∷ []) = decoded n
read_number (n ∷ m ∷ s) = malformed

abbrev pub codec : Codec ℕ
codec = record {
  key = key_of;
  keys = λ n. if n == 10 then bytes (key_of 7) [] ∷ [] else [];
  marshal = λ n. some (n ∷ []);
  unmarshal = read_number;
}

pub back : (s : Bytes) → some (5 ∷ []) ≡ some s → read_number s ≡ decoded 5
back [] h = absurd (ground arith)
back (n ∷ []) h = ground arith
back (n ∷ m ∷ s) h = absurd (ground arith)

abbrev Store : Type 0
Store = Bytes → Found

abbrev get : Store → Bytes → Found
get d k = d k

abbrev commit : Store → Batch → Store × Option ℕ
commit d b = (λ k. written b k (d k), none)

pub none-ne-some : {e : ℕ} → none ≡ some e → ⊥
none-ne-some h = cc

IsDatabase-laws : Pebble.Reads.IsDatabase get commit
IsDatabase-laws = record {
  commits = λ d b k h. refl;
  aborts = λ d b k e h. absurd (none-ne-some h);
}

abbrev empty : Store
empty k = missing

not_id : [] ≢ bytes (key_of 5) []
unfolding bytes
not_id = λ e. cc e

added : (Pebble.assign codec get commit [] 5 empty).1 ≡ none
unfolding Pebble.assign Pebble.add_all
added = refl

resolve-assign_example :
    Pebble.resolve codec get commit [] (Pebble.assign codec get commit [] 5 empty).0 ≡ ok 5
resolve-assign_example =
    Pebble.Reads.resolve-assign codec get commit 5 [] empty IsDatabase-laws back tt not_id added

key_of-IsKey : (n : ℕ) → n ≤ 100 → IsKey (pos 2) (key_of n)
key_of-IsKey n h = record {
  kind_fits = omega arith;
  id_fits = omega arith;
  kind_known = omega arith;
}

keys_differ : key_of 5 ≢ key_of 7
keys_differ e = absurd (ground arith)

stored : (Pebble.add codec get commit 5 empty).1 ≡ none
unfolding Pebble.add Pebble.add_all
stored = refl

find-add_other_example :
    Pebble.find codec get commit (key_of 7) (Pebble.add codec get commit 5 empty).0
    ≡ Pebble.find codec get commit (key_of 7) empty
find-add_other_example =
    Pebble.Reads.find-add_other codec get commit (pos 2) 5 (key_of 7) empty IsDatabase-laws
      (key_of-IsKey 5 (omega arith)) (key_of-IsKey 7 (omega arith)) keys_differ tt stored

no_number : read_number (bytes (key_of 10) []) ≡ malformed
unfolding bytes
no_number = refl

shadowing : (Pebble.add codec get commit 10 empty).1 ≡ none
unfolding Pebble.add Pebble.add_all
shadowing = refl

find-add_shadowed_run :
    Pebble.find codec get commit (key_of 7) (Pebble.add codec get commit 10 empty).0
    ≡ err unmarshal_failed
find-add_shadowed_run =
    Pebble.Reads.find-add_shadowed codec get commit 10 (key_of 7) [] [] empty IsDatabase-laws refl
      no_number shadowing

abbrev set : Store → Bytes → Bytes → Store × Option ℕ
set d id s = commit d ((id, s) ∷ [])

redis_laws : Redis.Reads.IsDatabase get set commit
redis_laws = record { sets = λ d id s k h. refl; execs = λ d b k h. refl }

redis_added : (Redis.assign codec get set commit [] 5 empty).1 ≡ none
unfolding Redis.assign Redis.add_all
redis_added = refl

redis_resolve-assign_run :
    Redis.resolve codec get set commit [] (Redis.assign codec get set commit [] 5 empty).0 ≡ ok 5
redis_resolve-assign_run =
    Redis.Reads.redis_resolve-assign codec get set commit 5 [] empty redis_laws back tt not_id
      redis_added
