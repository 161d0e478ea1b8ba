-- ===== src/State/Ops/Visits.antt =====
-- bbolt/state_storage.go: the transaction of `ForEachChannels`.
use tgcontrib.Base.{ℕ, ◌≡◌, ◌⊎◌, inl, inr, refl, ap, true, List, [], ◌∷◌, Option, none, some}
use mathlib.Core.Path.{fun_ext}
use tgcontrib.Base.Int.{ℤ}
use tgcontrib.State.Words.{i642b}
use tgcontrib.State.Tree.{Tree, IsTree}
use tgcontrib.State.Ops.{
  Failure, database, callback, Step, stepped, failed, closed, left, after_call, visit_bucket,
  user_bucket, channels_name, channels_bucket, for_each_channels, channels_place, state_at, pts_at,
}
use tgcontrib.State.Ops.Views.{IsStates, Wrote-IsStates}
use tgcontrib.State.Ops.Steps.{Nobody, channels_bucket-Wrote}
use tgcontrib.State.Ops.Commits.{Tried-cases}
use tgcontrib.State.Ops.Each.{each, visit-each}
use tgcontrib.State.Ops.Channels.{Lists, listed, unwritten}

module _ {D T : Type 0} (tree : Tree D T) where
  channels_bucket-failed :
      (u : ℤ) (t : T) (e : Failure)
      → channels_bucket tree u t ≡ failed e
      → (x : ℕ) × (e ≡ database x)
  unfolding channels_bucket user_bucket
  channels_bucket-failed u t e h = elim (Tried-cases (tree.create t [] (i642b u))) [
    | inr (x, c) ↦ (x, cc (rw c at h))
    | inl (t1, c) ↦ elim (Tried-cases (tree.create t1 (i642b u ∷ []) channels_name)) [
      | inr (x, b) ↦ (x, cc (rw b at (rw c at h)))
      | inl (t2, b) ↦ cc (rw b at (rw c at h))
    ]
  ]

  Step-cases : (r : Step T) → ((t : T) × (r ≡ stepped t)) ⊎ ((e : Failure) × (r ≡ failed e))
  Step-cases (stepped t) = inl (t, refl)
  Step-cases (failed e) = inr (e, refl)

module _ {D T S : Type 0} (tree : Tree D T) (content : D → T) where
  -- How a call ends: before the loop, by an error of the client's function, or behind the loop.
  pub data Ends (f : ℤ → ℤ → S → S × Option ℕ) (u : ℤ) (d : D) (s : S) (r : D × S × Option Failure)
      : Type 0 where
    opening : (x : ℕ) → r ≡ (d, s, some (database x)) → Ends f u d s r
    stopped :
        (l : List (ℤ × ℤ)) (s' : S) (x : ℕ)
        → Lists l (λ c. pts_at tree u c (content d))
        → each f l s ≡ (s', some x)
        → r ≡ (d, s', some (callback x))
        → Ends f u d s r
    committing :
        (l : List (ℤ × ℤ)) (s' : S) (x : ℕ)
        → Lists l (λ c. pts_at tree u c (content d))
        → each f l s ≡ (s', none)
        → content r.0 ≡ content d
        → (r.1 ≡ s') × (r.2 ≡ some (database x))
        → Ends f u d s r
    finished :
        (l : List (ℤ × ℤ)) (s' : S)
        → Lists l (λ c. pts_at tree u c (content d))
        → each f l s ≡ (s', none)
        → (r.1 ≡ s') × (r.2 ≡ none)
        → IsStates tree (content r.0)
          × ((w : ℤ) → state_at tree w (content r.0) ≡ state_at tree w (content d))
          × ((w c : ℤ) → pts_at tree w c (content r.0) ≡ pts_at tree w c (content d))
        → Ends f u d s r

module _ {D T S : Type 0} (tree : Tree D T) (content : D → T) (laws : IsTree tree content) where
  module _ (f : ℤ → ℤ → S → S × Option ℕ) (u : ℤ) (d : D) (s : S) (t : T) (l : List (ℤ × ℤ))
      (lists : Lists l (λ c. pts_at tree u c (content d))) (shape : IsStates tree t)
      (same : ((w : ℤ) → state_at tree w t ≡ state_at tree w (content d))
        × ((w c : ℤ) → pts_at tree w c t ≡ pts_at tree w c (content d))) where
    committed :
        (s' : S) (p : D × Option ℕ)
        → each f l s ≡ (s', none)
        → tree.commit d t ≡ p
        → Ends tree content f u d s (left tree d t (s', none))
    unfolding left closed
    committed s' (d', none) e c =
        let now = laws.commits d t (ap (λ z. z.1) c) in
        rw (c, closed)
          (finished l s' lists e (refl, refl) (rw now shape, rw now same.0, rw now same.1))
    committed s' (d', some x) e c =
        let now = laws.aborts d t x (ap (λ z. z.1) c) in
        rw (c, closed) (committing l s' x lists e now (refl, refl))

    looped :
        (r : S × Option ℕ)
        → each f l s ≡ r
        → Ends tree content f u d s (left tree d t (after_call r))
    unfolding left after_call
    looped (s', none) e = committed s' (tree.commit d t) e refl
    looped (s', some x) e = stopped l s' x lists e refl

  bucket_visited :
      (f : ℤ → ℤ → S → S × Option ℕ) (u : ℤ) (d : D) (s : S)
      → IsStates tree (content d)
      → Ends tree content f u d s (visit_bucket tree f u d s (channels_bucket tree u (content d)))
  unfolding visit_bucket
  bucket_visited f u d s i = elim (Step-cases tree (channels_bucket tree u (content d))) [
    | inr (e, h) ↦
        let (x, same) = channels_bucket-failed tree u (content d) e h in
        rw (h, visit_bucket) (opening x (rw same refl))
    | inl (t, h) ↦
        let y = channels_bucket-Wrote tree content laws u (content d) t h in
        let shape =
          Wrote-IsStates tree (content d) t (channels_place u) [] Nobody y tt i (λ w m. absurd m) in
        let same = unwritten tree content laws (content d) t (channels_place u) Nobody y in
        let (l, e, r, lists) = listed tree content laws t u shape in
        rw (h, visit_bucket, e, visit-each f l s r)
          (looped f u d s t l (rw (← fun_ext (same.1 u)) lists) shape same (each f l s) refl)
  ]

  -- On a tree of the shape that the storage makes, ForEachChannels ends in one of four ways.
  -- Before the loop, by an error of the database, with nothing called; or the function is
  -- called on the channels that have a pts, each once and with its pts, until it fails, and its
  -- error is reported and the database is as it was; or until the list ends, and the commit
  -- fails, which leaves the tree as it was, or succeeds, which changes no state and no pts.
  pub for_each_channels-Ends :
      (f : ℤ → ℤ → S → S × Option ℕ) (u : ℤ) (d : D) (s : S)
      → IsStates tree (content d)
      → Ends tree content f u d s (for_each_channels tree u f d s)
  unfolding for_each_channels
  for_each_channels-Ends f u d s i = elim (Tried-cases (tree.begin true d)) [
    | inr (x, b) ↦ rw (b, for_each_channels) (opening x refl)
    | inl (t, b) ↦
        rw (b, for_each_channels) (rw (laws.begins true d t b) (bucket_visited f u d s i))
  ]
