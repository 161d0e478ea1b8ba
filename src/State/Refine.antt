-- ===== src/State/Refine.antt =====
-- bbolt/state_storage.go: the writes of `State` against the specification in Calls.
pub mod Writes
pub mod Runs
use tgcontrib.Base.{
  ℕ, ◌≡◌, ◌⊎◌, inl, inr, refl, sym, ap, ◌∙◌, Bool, true, false, ◌&&◌, [], ◌∷◌, Option, none, some,
  if◌then◌else◌, Bytes,
}
use tgcontrib.Base.Int.{equal_ℤ, ℤ}
use tgcontrib.Base.Decimal.{IsInt64}
use tgcontrib.Base.Text.{equal}
use tgcontrib.State.Words.{i2b, i642b}
use tgcontrib.State.Tree.{Place, equal_place, Tree, IsTree}
use tgcontrib.State.Calls.{
  Call, state_set, pts_set, qts_set, date_set, seq_set, date_seq_set, channel_set, run, InRange,
  change, state_after, pts_after,
}
use tgcontrib.State.Ops.{
  UpdatesState, Failure, Step, stepped, ◌>>=◌, state_place, channels_place, pts_name, qts_name,
  date_name, seq_name, put_int, on_state, update, state_at, pts_at, set_state, set_pts, set_qts,
  set_date, set_seq, set_date_seq, set_channel_pts, channels_bucket,
}
use tgcontrib.State.Ops.Views.{Puts, ValidPuts, IsInt, IsStates, Saved, Wrote, Wrote-IsStates}
use tgcontrib.State.Ops.Steps.{
  Nobody, Only, state_puts, Wrote_trans, put_int-Wrote, on_state-Wrote, channels_bucket-Wrote,
  set_state-Wrote, >>=-eq-stepped,
}
use tgcontrib.State.Ops.Fields.{
  Changes, InRangeState, changed-state, new_state, new_pts, same_state, same_pts,
}
use tgcontrib.State.Ops.Commits.{update-none, update-some}

and_false-ne-true : (b : Bool) → (b && false) ≡ true → ⊥
and_false-ne-true true h = cc
and_false-ne-true false h = cc

pub and_false : (b : Bool) → (b && false) ≡ false
and_false true = refl
and_false false = refl

-- A number under a key of a state.
pub number : (u : ℤ) (k : Bytes) (n : ℤ) → IsInt64 n → ValidPuts (state_place u) ((k, i2b n) ∷ [])
number u k n h = ((n, h, refl), λ w e. absurd (and_false-ne-true (equal (i642b u) (i642b w)) e), tt)

module _ {D T : Type 0} (tree : Tree D T) where
  -- What a call that succeeds has to do to the tree.
  pub record Refines (c : Call) (t t' : T) : Type 0 where
    pub shape : IsStates tree t'
    pub states : (w : ℤ) → IsInt64 w → state_at tree w t' ≡ state_after c w (state_at tree w t)
    pub channels :
        (w d : ℤ) → IsInt64 w → IsInt64 d → pts_at tree w d t' ≡ pts_after c w d (pts_at tree w d t)

  -- a function on the state bucket of a user
  pub record Field (u : ℤ) (g : T → Step T) (f : UpdatesState → UpdatesState) : Type 0 where
    pub puts : Puts
    pub valid : ValidPuts (state_place u) puts
    pub changes : Changes puts f
    pub writes : (t t' : T) → g t ≡ stepped t' → Wrote tree t t' (state_place u) puts Nobody

module _ {D T : Type 0} (tree : Tree D T) (content : D → T) (laws : IsTree tree content) where
  field :
      (u : ℤ) (g : T → Step T) (f : UpdatesState → UpdatesState) (t t' : T)
      → Field tree u g f
      → IsInt64 u
      → IsStates tree t
      → on_state tree u g t ≡ stepped t'
      → IsStates tree t'
        × ((w : ℤ)
            → IsInt64 w
            → state_at tree w t'
              ≡ (if equal_ℤ u w then change f (state_at tree w t) else state_at tree w t))
        × ((w d : ℤ) → pts_at tree w d t' ≡ pts_at tree w d t)
  field u g f t t' x hu s h =
      let (t1, first, there, rest) = on_state-Wrote tree content laws u g t t' h in
      let y =
        Wrote_trans tree content laws t t1 t' (state_place u) [] x.puts Nobody first
          (x.writes t1 t' rest) in
      (
        Wrote-IsStates tree t t' (state_place u) x.puts Nobody y x.valid s (λ w m. absurd m),
        λ w hw.
            changed-state tree content laws t t' u w x.puts Nobody f hu hw (s.saved u there) y
              x.changes,
        λ w d.
            same_pts tree content laws t t' (state_place u) x.puts Nobody y w d
              (and_false (equal (i642b u) (i642b w))),
      )

  -- a call on one field, behind its transaction
  pub on_Field :
      (u : ℤ) (g : T → Step T) (f : UpdatesState → UpdatesState) (d : D)
      → Field tree u g f
      → IsInt64 u
      → IsStates tree (content d)
      → (update tree (on_state tree u g) d).1 ≡ none
      → (IsStates tree (content (update tree (on_state tree u g) d).0))
        × ((w : ℤ)
            → IsInt64 w
            → state_at tree w (content (update tree (on_state tree u g) d).0) ≡ (
                if equal_ℤ u w
                then change f (state_at tree w (content d))
                else state_at tree w (content d)))
        × ((w c : ℤ)
            → pts_at tree w c (content (update tree (on_state tree u g) d).0)
              ≡ pts_at tree w c (content d))
  on_Field u g f d x hu s h =
      let (t', made, same) = update-none tree content laws (on_state tree u g) d h in
      rw same (field u g f (content d) t' x hu s made)
