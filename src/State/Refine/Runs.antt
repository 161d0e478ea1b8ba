-- ===== src/State/Refine/Runs.antt =====
-- bbolt/state_storage.go: `GetState` and `GetChannelPts` behind a run of writes.
use tgcontrib.Base.{
  ◌≡◌, ◌≢◌, inl, inr, refl, sym, ap, ◌∙◌, false, List, [], ◌∷◌, Option, none, some, Option-cases,
}
use tgcontrib.Base.Int.{ℤ}
use tgcontrib.Base.Decimal.{IsInt64}
use tgcontrib.Storage.Bbolt.{done}
use tgcontrib.State.Tree.{Tree, IsTree}
use tgcontrib.State.Calls.{
  Call, state_set, channel_set, pts_set, qts_set, date_set, seq_set, date_seq_set, run, InRange,
  state_after, pts_after,
}
use tgcontrib.State.Ops.{
  Got, value, absent, UpdatesState, Failure, Step, update, on_state, state_at, pts_at, get_state,
  get_channel_pts, set_pts, set_qts, set_date, set_seq, set_date_seq,
}
use tgcontrib.State.Ops.Commits.{update-none}
use tgcontrib.State.Ops.Fields.{Saved-value}
use tgcontrib.State.Ops.Steps.{on_state-Wrote}
use tgcontrib.State.Ops.Views.{IsStates}
use tgcontrib.State.Refine.Writes.{run-Refines, run_aborts}

abbrev pub AllInRange : List Call → Type 0
AllInRange [] = Unit
AllInRange (c ∷ cs) = InRange c × AllInRange cs

abbrev pub states_after : List Call → ℤ → Got UpdatesState → Got UpdatesState
states_after [] w g = g
states_after (c ∷ cs) w g = states_after cs w (state_after c w g)

abbrev pub all_pts_after : List Call → ℤ → ℤ → Got ℤ → Got ℤ
all_pts_after [] w d g = g
all_pts_after (c ∷ cs) w d g = all_pts_after cs w d (pts_after c w d g)

-- The calls that change one field of the state of the user `u`.
abbrev pub NeedsState : Call → ℤ → Type 0
NeedsState (pts_set v n) u = v ≡ u
NeedsState (qts_set v n) u = v ≡ u
NeedsState (date_set v n) u = v ≡ u
NeedsState (seq_set v n) u = v ≡ u
NeedsState (date_seq_set v m n) u = v ≡ u
NeedsState _ u = ⊥

value-ne-absent : {s : UpdatesState} → value s ≡ absent → ⊥
value-ne-absent h = cc

module _ {D T : Type 0} (tree : Tree D T) where
  unfoldable pub run_all : List Call → D → D
  run_all [] d = d
  run_all (c ∷ cs) d = run_all cs (run tree c d).0

  keep_ok : Option Failure → Call → List Call → List Call
  keep_ok none c cs = c ∷ cs
  keep_ok (some e) c cs = cs

  -- the calls of a run that report no error
  unfoldable pub accepted : List Call → D → List Call
  unfolding keep_ok
  accepted [] d = []
  accepted (c ∷ cs) d = keep_ok (run tree c d).1 c (accepted cs (run tree c d).0)

  -- What a run does to the tree.
  pub record Ran (cs : List Call) (t t' : T) : Type 0 where
    pub shape : IsStates tree t'
    pub states : (w : ℤ) → IsInt64 w → state_at tree w t' ≡ states_after cs w (state_at tree w t)
    pub channels :
        (w c : ℤ)
        → IsInt64 w
        → IsInt64 c
        → pts_at tree w c t' ≡ all_pts_after cs w c (pts_at tree w c t)

module _ {D T : Type 0} (tree : Tree D T) (content : D → T) (laws : IsTree tree content) where
  pub run_all-Ran :
      (cs : List Call) (d : D)
      → AllInRange cs
      → IsStates tree (content d)
      → Ran tree (accepted tree cs d) (content d) (content (run_all tree cs d))
  unfolding run_all accepted keep_ok
  run_all-Ran [] d r i = record { shape = i; states = λ w h. refl; channels = λ w c h k. refl }
  run_all-Ran (c ∷ cs) d (r, rs) i = elim (Option-cases (run tree c d).1) [
    | inl e ↦
        let one = run-Refines tree content laws c d r i e in
        let more = run_all-Ran cs (run tree c d).0 rs one.shape in
        rw e (record {
          shape = more.shape;
          states = λ w h.
              more.states w h
              ∙ ap (states_after (accepted tree cs (run tree c d).0) w) (one.states w h);
          channels = λ w x h k.
              more.channels w x h k
              ∙ ap (all_pts_after (accepted tree cs (run tree c d).0) w x) (one.channels w x h k);
        })
    | inr (x, e) ↦
        let same = run_aborts tree content laws c d x e in
        let more = run_all-Ran cs (run tree c d).0 rs (rw same i) in rw e (rw same at more)
  ]

  get_state-state_at :
      (u : ℤ) (d : D) (t : T)
      → tree.begin false d ≡ done t
      → get_state tree u d ≡ state_at tree u (content d)
  unfolding get_state
  get_state-state_at u d t h = rw (h, get_state) (ap (state_at tree u) (laws.begins false d t h))

  pub get_channel_pts-pts_at :
      (u c : ℤ) (d : D) (t : T)
      → tree.begin false d ≡ done t
      → get_channel_pts tree u c d ≡ pts_at tree u c (content d)
  unfolding get_channel_pts
  get_channel_pts-pts_at u c d t h =
      rw (h, get_channel_pts) (ap (pts_at tree u c) (laws.begins false d t h))

  -- Behind a run of writes on a tree of the shape that the storage makes, with 64-bit numbers,
  -- GetState gives a user what the calls that reported no error make of the state before them:
  -- SetState sets it, SetPts, SetQts, SetDate, SetSeq and SetDateSeq change their fields of it,
  -- and a call for another user or for a channel leaves it. The database behaves as bbolt
  -- documents, and the two reads get their transactions.
  pub get_state-run_all :
      (cs : List Call) (d : D) (w : ℤ) (t t' : T)
      → AllInRange cs
      → IsStates tree (content d)
      → IsInt64 w
      → tree.begin false d ≡ done t
      → tree.begin false (run_all tree cs d) ≡ done t'
      → get_state tree w (run_all tree cs d)
        ≡ states_after (accepted tree cs d) w (get_state tree w d)
  get_state-run_all cs d w t t' r i hw b b' =
      rw (get_state-state_at w d t b, get_state-state_at w (run_all tree cs d) t' b')
        ((run_all-Ran cs d r i).states w hw)

  -- The same of `GetChannelPts`.
  pub get_channel_pts-run_all :
      (cs : List Call) (d : D) (w c : ℤ) (t t' : T)
      → AllInRange cs
      → IsStates tree (content d)
      → IsInt64 w
      → IsInt64 c
      → tree.begin false d ≡ done t
      → tree.begin false (run_all tree cs d) ≡ done t'
      → get_channel_pts tree w c (run_all tree cs d)
        ≡ all_pts_after (accepted tree cs d) w c (get_channel_pts tree w c d)
  get_channel_pts-run_all cs d w c t t' r i hw hc b b' =
      rw (get_channel_pts-pts_at w c d t b, get_channel_pts-pts_at w c (run_all tree cs d) t' b')
        ((run_all-Ran cs d r i).channels w c hw hc)

  on_state_absent :
      (u : ℤ) (g : T → Step T) (d : D)
      → IsStates tree (content d)
      → state_at tree u (content d) ≡ absent
      → (update tree (on_state tree u g) d).1 ≢ none
  on_state_absent u g d i a h =
      let (t', made, same) = update-none tree content laws (on_state tree u g) d h in
      let (t1, first, there, rest) = on_state-Wrote tree content laws u g (content d) t' made in
      let (s, e) = Saved-value tree content laws (content d) u (i.saved u there) in
      value-ne-absent (sym e ∙ a)

  -- A call that changes one field of a state fails for a user without a state.
  run_absent :
      (c : Call) (d : D) (u : ℤ)
      → NeedsState c u
      → IsStates tree (content d)
      → state_at tree u (content d) ≡ absent
      → (run tree c d).1 ≢ none
  unfolding run set_pts set_qts set_date set_seq set_date_seq
  run_absent (state_set v s) d u n i a = absurd n
  run_absent (pts_set v m) d u n i a = on_state_absent v _ d i (rw n a)
  run_absent (qts_set v m) d u n i a = on_state_absent v _ d i (rw n a)
  run_absent (date_set v m) d u n i a = on_state_absent v _ d i (rw n a)
  run_absent (seq_set v m) d u n i a = on_state_absent v _ d i (rw n a)
  run_absent (date_seq_set v k m) d u n i a = on_state_absent v _ d i (rw n a)
  run_absent (channel_set v c m) d u n i a = absurd n

  -- Where GetState finds no state for a user, on a tree of the shape that the storage makes,
  -- SetPts, SetQts, SetDate, SetSeq and SetDateSeq for this user report an error, and the tree
  -- stays as it was.
  pub run-get_state_absent :
      (c : Call) (d : D) (u : ℤ) (t : T)
      → NeedsState c u
      → IsStates tree (content d)
      → tree.begin false d ≡ done t
      → get_state tree u d ≡ absent
      → (e : Failure) × ((run tree c d).1 ≡ some e) × (content (run tree c d).0 ≡ content d)
  run-get_state_absent c d u t n i b a = elim (Option-cases (run tree c d).1) [
    | inl e ↦ absurd (run_absent c d u n i (sym (get_state-state_at u d t b) ∙ a) e)
    | inr (x, e) ↦ (x, e, run_aborts tree content laws c d x e)
  ]
