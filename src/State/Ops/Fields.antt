-- ===== src/State/Ops/Fields.antt =====
-- bbolt/state_storage.go: what is read of a state and of a channel behind a step.
use tgcontrib.Base.{
  ◌≡◌, inl, inr, refl, sym, ap, ◌∙◌, Bool, true, false, ◌&&◌, [], ◌∷◌, some, Bool-cases,
  if◌then◌else◌, Bytes,
}
use mathlib.Core.Path.{subst}
use tgcontrib.Base.Int.{equal_ℤ, equal_ℤ_iff, ℤ}
use tgcontrib.Base.Decimal.{IsInt64}
use tgcontrib.Base.Text.{equal, equal_iff}
use tgcontrib.State.Words.{i2b, i642b, b2i-i2b, i642b_injective}
use tgcontrib.State.Tree.{Place, equal_place, Tree, IsTree}
use tgcontrib.State.Calls.{change}
use tgcontrib.State.Ops.{
  UpdatesState, value, pts_name, qts_name, date_name, seq_name, state_place, channels_place,
  read_state, read_values, read_pts, state_at, pts_at,
}
use tgcontrib.State.Ops.Steps.{state_puts}
use tgcontrib.State.Ops.Views.{Puts, put_over, Saved, Wrote, state_at-read_state, pts_at-read_pts}

pub equal-i642b : (u w : ℤ) → IsInt64 u → IsInt64 w → equal (i642b u) (i642b w) ≡ equal_ℤ u w
equal-i642b u w hu hw = elim (Bool-cases (equal_ℤ u w)) [
  | inl e ↦ rw e ((equal_iff _ _).1 (ap i642b ((equal_ℤ_iff u w).0 e)))
  | inr e ↦ elim (Bool-cases (equal (i642b u) (i642b w))) [
    | inl f ↦ let same = (equal_ℤ_iff u w).1 (i642b_injective u w hu hw ((equal_iff _ _).0 f)) in cc
    | inr f ↦ f ∙ sym e
  ]
]

and_true : (b : Bool) → (b && true) ≡ b
and_true true = refl
and_true false = refl

and_false : (b : Bool) → (b && false) ≡ false
and_false true = refl
and_false false = refl

abbrev pub InRangeState : UpdatesState → Type 0
InRangeState s = IsInt64 s.pts × IsInt64 s.qts × IsInt64 s.date × IsInt64 s.seq

-- The writes change a state's four values as `f` changes the state.
abbrev pub Changes : Puts → (UpdatesState → UpdatesState) → Type 0
Changes ws f =
    (s : UpdatesState)
    → InRangeState s
    → (put_over ws pts_name (some (i2b s.pts)) ≡ some (i2b (f s).pts))
      × (put_over ws qts_name (some (i2b s.qts)) ≡ some (i2b (f s).qts))
      × (put_over ws date_name (some (i2b s.date)) ≡ some (i2b (f s).date))
      × (put_over ws seq_name (some (i2b s.seq)) ≡ some (i2b (f s).seq))
      × InRangeState (f s)

module _ {D T : Type 0} (tree : Tree D T) (content : D → T) (laws : IsTree tree content) where
  -- The four values of a state in the tree.
  abbrev HasState : T → ℤ → UpdatesState → Type 0
  HasState t w s =
      (tree.get t (state_place w) pts_name ≡ some (i2b s.pts))
      × (tree.get t (state_place w) qts_name ≡ some (i2b s.qts))
      × (tree.get t (state_place w) date_name ≡ some (i2b s.date))
      × (tree.get t (state_place w) seq_name ≡ some (i2b s.seq))

  HasState-value :
      (t : T) (w : ℤ) (s : UpdatesState)
      → InRangeState s
      → HasState t w s
      → state_at tree w t ≡ value s
  unfolding read_state read_values
  HasState-value t w s r (a, b, c, d) =
      rw (state_at-read_state tree content laws w t, a, b, c, d)
        (rw
          (b2i-i2b s.pts r.0, b2i-i2b s.qts r.1, b2i-i2b s.date r.2, b2i-i2b s.seq r.3, read_state)
          refl)

  Saved-HasState :
      (t : T) (w : ℤ) → Saved tree t w → (s : UpdatesState) × InRangeState s × HasState t w s
  Saved-HasState t w
        ((v, a, (m, hm, am)), (x, b, (n, hn, bn)), (y, c, (o, ho, co)), (z, d, (p, hp, dp))) =
      (
        record { pts = m; qts = n; date = o; seq = p },
        (hm, hn, ho, hp),
        (a ∙ ap some am, b ∙ ap some bn, c ∙ ap some co, d ∙ ap some dp),
      )

  -- A state that is saved is read.
  pub Saved-value :
      (t : T) (w : ℤ) → Saved tree t w → (s : UpdatesState) × (state_at tree w t ≡ value s)
  Saved-value t w saved =
      let (s, r, has) = Saved-HasState t w saved in (s, HasState-value t w s r has)

  module _ (t t' : T) (p : Place) (ws : Puts) (M : ℤ → Type 0) (x : Wrote tree t t' p ws M) where
    reads_here :
        (q : Place) (k : Bytes)
        → equal_place p q ≡ true
        → tree.get t' q k ≡ put_over ws k (tree.get t q k)
    reads_here q k e = rw (x.reads q k, e) refl

    reads_elsewhere :
        (q : Place) (k : Bytes) → equal_place p q ≡ false → tree.get t' q k ≡ tree.get t q k
    reads_elsewhere q k e = rw (x.reads q k, e) refl

    pub same_state :
        (w : ℤ) → equal_place p (state_place w) ≡ false → state_at tree w t' ≡ state_at tree w t
    same_state w e =
        let same = λ (k : Bytes). reads_elsewhere (state_place w) k e in
        rw
          (
            state_at-read_state tree content laws w t',
            state_at-read_state tree content laws w t,
            same pts_name,
            same qts_name,
            same date_name,
            same seq_name,
          )
          refl

    pub same_pts :
        (w c : ℤ)
        → equal_place p (channels_place w) ≡ false
        → pts_at tree w c t' ≡ pts_at tree w c t
    same_pts w c e =
        rw
          (
            pts_at-read_pts tree content laws w c t',
            pts_at-read_pts tree content laws w c t,
            reads_elsewhere (channels_place w) (i642b c) e,
          )
          refl

  state_places :
      (u w : ℤ) → IsInt64 u → IsInt64 w → equal_place (state_place u) (state_place w) ≡ equal_ℤ u w
  state_places u w hu hw = and_true (equal (i642b u) (i642b w)) ∙ equal-i642b u w hu hw

  own_state :
      (t t' : T) (u : ℤ) (ws : Puts) (M : ℤ → Type 0) (f : UpdatesState → UpdatesState)
      → IsInt64 u
      → Saved tree t u
      → Wrote tree t t' (state_place u) ws M
      → Changes ws f
      → state_at tree u t' ≡ change f (state_at tree u t)
  own_state t t' u ws M f hu saved x c =
      let (s, r, (a, b, d, e)) = Saved-HasState t u saved in
      let (a', b', d', e', r') = c s r in
      let here = λ (k : Bytes).
        reads_here t t' (state_place u) ws M x (state_place u) k
          (state_places u u hu hu ∙ (equal_ℤ_iff u u).1 refl) in
      HasState-value t' u (f s) r' (
        here pts_name ∙ ap (put_over ws pts_name) a ∙ a',
        here qts_name ∙ ap (put_over ws qts_name) b ∙ b',
        here date_name ∙ ap (put_over ws date_name) d ∙ d',
        here seq_name ∙ ap (put_over ws seq_name) e ∙ e',
      )
      ∙ ap (change f) (sym (HasState-value t u s r (a, b, d, e)))

  -- A step on the state bucket of a user changes what is read of that user's state, and no other.
  pub changed-state :
      (t t' : T) (u w : ℤ) (ws : Puts) (M : ℤ → Type 0) (f : UpdatesState → UpdatesState)
      → IsInt64 u
      → IsInt64 w
      → Saved tree t u
      → Wrote tree t t' (state_place u) ws M
      → Changes ws f
      → state_at tree w t'
        ≡ (if equal_ℤ u w then change f (state_at tree w t) else state_at tree w t)
  changed-state t t' u w ws M f hu hw saved x c = elim (Bool-cases (equal_ℤ u w)) [
    | inl e ↦ rw e (
        subst (λ z. state_at tree z t' ≡ change f (state_at tree z t)) ((equal_ℤ_iff u w).0 e)
          (own_state t t' u ws M f hu saved x c))
    | inr e ↦ rw e (same_state t t' (state_place u) ws M x w (state_places u w hu hw ∙ e))
  ]

  -- `SetState` gives the user the new state.
  pub new_state :
      (t t' : T) (u w : ℤ) (s : UpdatesState) (M : ℤ → Type 0)
      → IsInt64 u
      → IsInt64 w
      → InRangeState s
      → Wrote tree t t' (state_place u) (state_puts s) M
      → state_at tree w t' ≡ (if equal_ℤ u w then value s else state_at tree w t)
  new_state t t' u w s M hu hw r x = elim (Bool-cases (equal_ℤ u w)) [
    | inl e ↦
        let here = λ (k : Bytes).
          reads_here t t' (state_place u) (state_puts s) M x (state_place w) k
            (state_places u w hu hw ∙ e) in
        rw e (HasState-value t' w s r (here pts_name, here qts_name, here date_name, here seq_name))
    | inr e ↦
        rw e (same_state t t' (state_place u) (state_puts s) M x w (state_places u w hu hw ∙ e))
  ]

  pub read_pts-i2b : (n : ℤ) → IsInt64 n → read_pts (some (i2b n)) ≡ value n
  unfolding read_pts
  read_pts-i2b n h = rw (b2i-i2b n h, read_pts) refl

  -- A put into the bucket of the channels of a user.
  pub new_pts :
      (t t' : T) (u c n w d : ℤ) (M : ℤ → Type 0)
      → IsInt64 u × IsInt64 c × IsInt64 n
      → IsInt64 w
      → IsInt64 d
      → Wrote tree t t' (channels_place u) ((i642b c, i2b n) ∷ []) M
      → pts_at tree w d t' ≡ (if equal_ℤ u w && equal_ℤ c d then value n else pts_at tree w d t)
  new_pts t t' u c n w d M (hu, hc, hn) hw hd x =
      let places : equal_place (channels_place u) (channels_place w) ≡ equal_ℤ u w =
        and_true (equal (i642b u) (i642b w)) ∙ equal-i642b u w hu hw in
      elim (Bool-cases (equal_ℤ u w)) [
        | inr e ↦ rw e (same_pts t t' (channels_place u) _ M x w d (places ∙ e))
        | inl e ↦ elim (Bool-cases (equal_ℤ c d)) [
          | inl f ↦
              rw
                (
                  e,
                  f,
                  pts_at-read_pts tree content laws w d t',
                  reads_here t t' (channels_place u) _ M x (channels_place w) (i642b d)
                      (places ∙ e),
                  equal-i642b c d hc hd,
                  f,
                )
                (read_pts-i2b n hn)
          | inr f ↦
              rw
                (
                  e,
                  f,
                  pts_at-read_pts tree content laws w d t',
                  reads_here t t' (channels_place u) _ M x (channels_place w) (i642b d)
                      (places ∙ e),
                  equal-i642b c d hc hd,
                  f,
                )
                (sym (pts_at-read_pts tree content laws w d t))
        ]
      ]
