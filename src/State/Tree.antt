-- ===== src/State/Tree.antt =====
-- go.etcd.io/bbolt as bbolt/state_storage.go uses it: a transaction over a tree of buckets. A bucket
-- is named by its place, the list of the names that lead to it; a value of `T` is what a transaction
-- sees of the tree. All of it is a parameter, and `IsTree` is what bbolt documents of it.
use tgcontrib.Base.{
  ℕ, ◌≡◌, ◌⊎◌, ◌↔◌, Bool, true, false, ◌&&◌, ◌||◌, if◌then◌else◌, List, [], ◌∷◌, ◌++◌, Option, none,
  some, Bytes,
}
use tgcontrib.Base.Text.{equal}
use tgcontrib.Storage.Bbolt.{Tried, done}
use mathlib.Core.List.{Mem}

abbrev pub Place : Type 0
Place = List Bytes

abbrev pub equal_place : Place → Place → Bool
equal_place [] [] = true
equal_place (m ∷ p) (n ∷ q) = equal m n && equal_place p q
equal_place _ _ = false

pub record Tree (D T : Type 0) : Type 0 where
  -- `Begin`, with the flag that makes a transaction writable
  pub begin : Bool → D → Tried T
  -- `Bucket` does not give nil
  pub has : T → Place → Bool
  -- `CreateBucketIfNotExists`, in the bucket at a place
  pub create : T → Place → Bytes → Tried T
  pub put : T → Place → Bytes → Bytes → Tried T
  pub get : T → Place → Bytes → Option Bytes
  -- what `ForEach` visits, in its order
  pub entries : T → Place → List (Bytes × Bytes)
  pub commit : D → T → D × Option ℕ

-- No two entries have the same key.
abbrev pub Distinct : List (Bytes × Bytes) → Type 0
Distinct [] = Unit
Distinct ((k, v) ∷ es) = ((w : Bytes) → ¬ Mem (k, w) es) × Distinct es

-- `content` is the tree of a database outside any transaction.
pub record IsTree {D T : Type 0} (tree : Tree D T) (content : D → T) : Type 0 where
  pub begins : (w : Bool) (d : D) (t : T) → tree.begin w d ≡ done t → t ≡ content d
  pub commits : (d : D) (t : T) → (tree.commit d t).1 ≡ none → content (tree.commit d t).0 ≡ t
  pub aborts :
      (d : D) (t : T) (e : ℕ)
      → (tree.commit d t).1 ≡ some e
      → content (tree.commit d t).0 ≡ content d
  pub creates :
      (t t' : T) (p q : Place) (n : Bytes)
      → tree.create t p n ≡ done t'
      → tree.has t' q ≡ (equal_place (p ++ n ∷ []) q || tree.has t q)
  pub creates_get :
      (t t' : T) (p q : Place) (n k : Bytes)
      → tree.create t p n ≡ done t'
      → tree.get t' q k ≡ tree.get t q k
  pub puts :
      (t t' : T) (p q : Place) (k j v : Bytes)
      → tree.put t p k v ≡ done t'
      → tree.get t' q j ≡ (if equal_place p q && equal k j then some v else tree.get t q j)
  pub puts_has :
      (t t' : T) (p q : Place) (k v : Bytes)
      → tree.put t p k v ≡ done t'
      → tree.has t' q ≡ tree.has t q
  -- a bucket stands in one that is there, and has no keys where it is not there
  pub nested :
      (t : T) (p : Place) (n : Bytes) → tree.has t (p ++ n ∷ []) ≡ true → tree.has t p ≡ true
  pub no_bucket : (t : T) (p : Place) (k : Bytes) → tree.has t p ≡ false → tree.get t p k ≡ none
  -- `ForEach` visits the values, and a nested bucket with a nil value
  pub visits :
      (t : T) (p : Place) (k : Bytes) (c : ℕ) (v : Bytes)
      → (tree.get t p k ≡ some (c ∷ v)) ↔ Mem (k, c ∷ v) (tree.entries t p)
  pub visits_nil :
      (t : T) (p : Place) (k : Bytes)
      → Mem (k, []) (tree.entries t p)
      → (tree.get t p k ≡ some []) ⊎ (tree.has t (p ++ k ∷ []) ≡ true)
  pub distinct : (t : T) (p : Place) → Distinct (tree.entries t p)
