-- ===== src/State/Ops/Commits.antt =====
-- bbolt/state_storage.go: the ends of a write transaction.
use tgcontrib.Base.{ℕ, ◌≡◌, ◌⊎◌, inl, inr, refl, sym, ap, true, Option, none, some}
use tgcontrib.Storage.Bbolt.{Tried, done, refused}
use tgcontrib.State.Tree.{Tree, IsTree}
use tgcontrib.State.Ops.{Failure, database, Step, stepped, failed, closed, close, update}

pub Tried-cases :
    {B : Type 0} (t : Tried B) → ((b : B) × (t ≡ done b)) ⊎ ((e : ℕ) × (t ≡ refused e))
Tried-cases (done b) = inl (b, refl)
Tried-cases (refused e) = inr (e, refl)

some-ne-none : {e : Failure} → some e ≡ none → ⊥
some-ne-none h = cc

module _ {D T : Type 0} (tree : Tree D T) (content : D → T) (laws : IsTree tree content) where
  pub closed-none :
      (r : D × Option ℕ) → (closed tree r).1 ≡ none → (r.1 ≡ none) × ((closed tree r).0 ≡ r.0)
  unfolding closed
  closed-none (d, none) h = (refl, refl)
  closed-none (d, some e) h = absurd (some-ne-none h)

  pub close-none :
      (d : D) (s : Step T)
      → (close tree d s).1 ≡ none
      → (t : T) × (s ≡ stepped t) × (content (close tree d s).0 ≡ t)
  unfolding close
  close-none d (failed e) h = absurd (some-ne-none h)
  close-none d (stepped t) h =
      let (ok, same) = closed-none (tree.commit d t) h in (t, refl, rw same (laws.commits d t ok))

  pub closed-some :
      (d : D) (r : D × Option ℕ) (e : Failure)
      → ((x : ℕ) → r.1 ≡ some x → content r.0 ≡ content d)
      → (closed tree r).1 ≡ some e
      → content (closed tree r).0 ≡ content d
  unfolding closed
  closed-some d (d', none) e same h = absurd (some-ne-none (sym h))
  closed-some d (d', some x) e same h = same x refl

  -- A transaction that reports an error leaves the database as it was.
  pub close-some :
      (d : D) (s : Step T) (e : Failure)
      → (close tree d s).1 ≡ some e
      → content (close tree d s).0 ≡ content d
  unfolding close
  close-some d (failed x) e h = refl
  close-some d (stepped t) e h = closed-some d (tree.commit d t) e (λ x. laws.aborts d t x) h

  update-close :
      (f : T → Step T) (d : D) (t : T)
      → tree.begin true d ≡ done t
      → update tree f d ≡ close tree d (f (content d))
  unfolding update
  update-close f d t h = rw (h, update) (ap (λ x. close tree d (f x)) (laws.begins true d t h))

  update-refused :
      (f : T → Step T) (d : D) (e : ℕ)
      → tree.begin true d ≡ refused e
      → update tree f d ≡ (d, some (database e))
  unfolding update
  update-refused f d e h = rw (h, update) refl

  pub update-none :
      (f : T → Step T) (d : D)
      → (update tree f d).1 ≡ none
      → (t : T) × (f (content d) ≡ stepped t) × (content (update tree f d).0 ≡ t)
  update-none f d h = elim (Tried-cases (tree.begin true d)) [
    | inr (x, e) ↦ absurd (some-ne-none (rw (update-refused f d x e) at h))
    | inl (t, e) ↦
        rw (update-close f d t e) (close-none d (f (content d)) (rw (update-close f d t e) at h))
  ]

  pub update-some :
      (f : T → Step T) (d : D) (e : Failure)
      → (update tree f d).1 ≡ some e
      → content (update tree f d).0 ≡ content d
  update-some f d x h = elim (Tried-cases (tree.begin true d)) [
    | inr (y, e) ↦ rw (update-refused f d y e) refl
    | inl (t, e) ↦
        rw (update-close f d t e) (close-some d (f (content d)) x (rw (update-close f d t e) at h))
  ]
