-- ===== src/Tests/Databases.antt =====
-- A database in memory over such trees, for the tests of the updates state.
use tgcontrib.Base.{
  ◌≡◌, inl, inr, refl, sym, ap, ◌∙◌, Bool, true, false, ◌&&◌, ◌||◌, [], ◌∷◌, ◌++◌, none, some,
  arith, if◌then◌else◌, Bool-cases, Bytes,
}
use mathlib.Core.Path.{subst}
use tgcontrib.Base.Text.{equal, equal_iff}
use tgcontrib.Storage.Bbolt.{done}
use tgcontrib.State.Tree.{Place, equal_place, Tree, IsTree}
use tgcontrib.Tests.Trees.{
  Entries, find, dedup, dedup-Distinct, find-dedup, dedup-find, Buckets, there, done_injective,
  refused-ne-done, vals_of, add_user, add_sub, add_bucket, with_value, put_value,
}

-- An in-memory database: a transaction starts from its tree and always commits.
abbrev pub memory : Tree Buckets Buckets
memory = record {
  begin = λ w d. done d;
  has = there;
  create = add_bucket;
  put = put_value;
  get = λ t p k. find k (vals_of t p);
  entries = λ t p. dedup (vals_of t p);
  commit = λ d t. (t, none);
}

abbrev pub empty : Buckets
empty = record { users = λ u. false; subs = λ u n. false; vals = λ p. [] }

there-add_user :
    (t : Buckets) (n : Bytes) (q : Place)
    → there (add_user t n) q ≡ (equal_place (n ∷ []) q || there t q)
there-add_user t n [] = refl
there-add_user t n (u ∷ []) = ground arith
there-add_user t n (u ∷ m ∷ []) = ground arith
there-add_user t n (u ∷ m ∷ k ∷ q) = ground arith

there-add_sub :
    (t : Buckets) (u n : Bytes) (q : Place)
    → t.users u ≡ true
    → there (add_sub t u n) q ≡ (equal_place (u ∷ n ∷ []) q || there t q)
there-add_sub t u n [] h = refl
there-add_sub t u n (v ∷ []) h = ground arith
there-add_sub t u n (v ∷ m ∷ []) h = elim (Bool-cases (equal u v)) [
  | inl e ↦ let same = (equal_iff u v).0 e in ground (arith, rw same at h)
  | inr e ↦ ground arith
]
there-add_sub t u n (v ∷ m ∷ k ∷ q) h = ground arith

creates_there :
    (t t' : Buckets) (p q : Place) (n : Bytes)
    → add_bucket t p n ≡ done t'
    → there t' q ≡ (equal_place (p ++ n ∷ []) q || there t q)
creates_there t t' [] q n h =
    subst (λ z. there z q ≡ (equal_place (n ∷ []) q || there t q)) (done_injective h)
      (there-add_user t n q)
creates_there t t' (u ∷ []) q n h = elim (Bool-cases (t.users u)) [
  | inl e ↦
      subst (λ z. there z q ≡ (equal_place (u ∷ n ∷ []) q || there t q))
        (done_injective (rw e at h)) (there-add_sub t u n q e)
  | inr e ↦ absurd (refused-ne-done (rw e at h))
]
creates_there t t' (u ∷ m ∷ p) q n h = absurd (refused-ne-done h)

kept_vals :
    (a b : Bool) (es : Entries)
    → (if a || b then (if b then es else []) else []) ≡ (if b then es else [])
kept_vals a true es = ground arith
kept_vals a false es = ground arith

add_vals :
    (t t' : Buckets) (p q : Place) (n : Bytes)
    → add_bucket t p n ≡ done t'
    → t'.vals q ≡ vals_of t q
add_vals t t' [] q n h = ap (λ (z : Buckets). z.vals q) (sym (done_injective h))
add_vals t t' (u ∷ []) q n h = elim (Bool-cases (t.users u)) [
  | inl e ↦ ap (λ (z : Buckets). z.vals q) (sym (done_injective (rw e at h)))
  | inr e ↦ absurd (refused-ne-done (rw e at h))
]
add_vals t t' (u ∷ m ∷ p) q n h = absurd (refused-ne-done h)

creates_vals :
    (t t' : Buckets) (p q : Place) (n : Bytes)
    → add_bucket t p n ≡ done t'
    → vals_of t' q ≡ vals_of t q
creates_vals t t' p q n h =
    rw (creates_there t t' p q n h, add_vals t t' p q n h)
      (kept_vals (equal_place (p ++ n ∷ []) q) (there t q) (t.vals q))

put-with_value :
    (t t' : Buckets) (p : Place) (k v : Bytes)
    → put_value t p k v ≡ done t'
    → (there t p ≡ true) × (with_value t p k v ≡ t')
put-with_value t t' p k v h = elim (Bool-cases (there t p)) [
  | inl e ↦ (e, done_injective (rw e at h))
  | inr e ↦ absurd (refused-ne-done (rw e at h))
]

there_with : (t : Buckets) (p q : Place) (k v : Bytes) → there (with_value t p k v) q ≡ there t q
there_with t p [] k v = refl
there_with t p (u ∷ []) k v = refl
there_with t p (u ∷ n ∷ []) k v = refl
there_with t p (u ∷ n ∷ m ∷ q) k v = refl

put_there :
    (t t' : Buckets) (p q : Place) (k v : Bytes)
    → put_value t p k v ≡ done t'
    → there t' q ≡ there t q
put_there t t' p q k v h =
    let (_, same) = put-with_value t t' p k v h in
    subst (λ z. there z q ≡ there t q) same (there_with t p q k v)

equal_place_sound : (p q : Place) → equal_place p q ≡ true → p ≡ q
equal_place_sound [] [] h = refl
equal_place_sound [] (n ∷ q) h = cc
equal_place_sound (m ∷ p) [] h = cc
equal_place_sound (m ∷ p) (n ∷ q) h = elim (Bool-cases (equal m n)) [
  | inl e ↦ cc ((equal_iff m n).0 e, equal_place_sound p q (rw e at h))
  | inr e ↦ cc (rw e at h)
]

find_with :
    (t : Buckets) (p q : Place) (k j v : Bytes)
    → there t p ≡ true
    → find j (vals_of (with_value t p k v) q)
      ≡ (if equal_place p q && equal k j then some v else find j (vals_of t q))
find_with t p q k j v h = elim (Bool-cases (equal_place p q)) [
  | inl e ↦
      let here : there t q ≡ true = ap (there t) (sym (equal_place_sound p q e)) ∙ h in
      rw (there_with t p q k v, here, e) refl
  | inr e ↦ rw (there_with t p q k v, e) refl
]

put_vals :
    (t t' : Buckets) (p q : Place) (k j v : Bytes)
    → put_value t p k v ≡ done t'
    → find j (vals_of t' q)
      ≡ (if equal_place p q && equal k j then some v else find j (vals_of t q))
put_vals t t' p q k j v h =
    let (here, same) = put-with_value t t' p k v h in
    subst
      (λ z.
        find j (vals_of z q)
        ≡ (if equal_place p q && equal k j then some v else find j (vals_of t q)))
      same (find_with t p q k j v here)

nested_there :
    (t : Buckets) (p : Place) (n : Bytes) → there t (p ++ n ∷ []) ≡ true → there t p ≡ true
nested_there t [] n h = refl
nested_there t (u ∷ []) n h = ground arith
nested_there t (u ∷ m ∷ []) n h = cc
nested_there t (u ∷ m ∷ k ∷ p) n h = cc

pub memory-IsTree : IsTree memory (λ d. d)
memory-IsTree = record {
  begins = λ w d t h. cc;
  commits = λ d t h. refl;
  aborts = λ d t e h. cc;
  creates = creates_there;
  creates_get = λ t t' p q n k h. ap (find k) (creates_vals t t' p q n h);
  puts = put_vals;
  puts_has = put_there;
  nested = nested_there;
  no_bucket = λ t p k h. rw h refl;
  visits = λ t p k c v. (find-dedup k (c ∷ v) (vals_of t p), dedup-find k (c ∷ v) (vals_of t p));
  visits_nil = λ t p k m. inl (dedup-find k [] (vals_of t p) m);
  distinct = λ t p. dedup-Distinct (vals_of t p);
}
