-- ===== src/State/Ops/Steps.antt =====
-- bbolt/state_storage.go: what the functions of the transactions do to the tree.
use tgcontrib.Base.{
  ℕ, ◌≡◌, inl, inr, refl, sym, ap, ◌∙◌, Bool, true, false, ◌&&◌, ◌||◌, [], ◌∷◌, ◌++◌, Option, none,
  some, Bool-cases, if◌then◌else◌, Bytes,
}
use mathlib.Core.Path.{subst}
use tgcontrib.Base.Int.{ℤ}
use tgcontrib.Base.Text.{equal}
use tgcontrib.Storage.Bbolt.{Tried, done, refused}
use tgcontrib.State.Words.{i2b, i642b}
use tgcontrib.State.Tree.{Place, equal_place, Tree, IsTree}
use tgcontrib.State.Ops.{
  Failure, Step, stepped, failed, ◌>>=◌, lift, state_place, channels_place, user_bucket, put_int,
  on_state, channels_bucket, state_name, channels_name, UpdatesState, check, checked, put_state,
  pts_name, qts_name, date_name, seq_name,
}
use tgcontrib.State.Ops.Views.{Puts, put_over, Wrote}

pub >>=-eq-stepped :
    {T : Type 0} (m : Step T) (f : T → Step T) {t' : T}
    → (m >>= f) ≡ stepped t'
    → (t : T) × (m ≡ stepped t) × (f t ≡ stepped t')
>>=-eq-stepped (stepped t) f h = (t, refl, h)
>>=-eq-stepped (failed e) f h = cc

lift-eq-stepped : {T : Type 0} (r : Tried T) {t : T} → lift r ≡ stepped t → r ≡ done t
lift-eq-stepped (done t) h = cc
lift-eq-stepped (refused e) h = cc

put_over-append :
    (ws vs : Puts) (k : Bytes) (g : Option Bytes)
    → put_over (ws ++ vs) k g ≡ put_over vs k (put_over ws k g)
put_over-append [] vs k g = refl
put_over-append ((j, v) ∷ ws) vs k g = put_over-append ws vs k _

and_false : (b : Bool) → (b && false) ≡ false
and_false true = refl
and_false false = refl

and_true : (b : Bool) → (b && true) ≡ true → b ≡ true
and_true true h = refl
and_true false h = h

failed-ne-stepped : {T : Type 0} {e : Failure} {t : T} → failed e ≡ stepped t → ⊥
failed-ne-stepped h = cc

abbrev pub state_puts : UpdatesState → Puts
state_puts s =
    (pts_name, i2b s.pts)
    ∷ (qts_name, i2b s.qts)
    ∷ (date_name, i2b s.date)
    ∷ (seq_name, i2b s.seq)
    ∷ []

-- No user's state.
abbrev pub Nobody : ℤ → Type 0
Nobody w = ⊥

-- The users whose key is that of `u`.
abbrev pub Only : ℤ → ℤ → Type 0
Only u w = equal (i642b u) (i642b w) ≡ true

module _ {D T : Type 0} (tree : Tree D T) (content : D → T) (laws : IsTree tree content) where
  pub Wrote_trans :
      (t t1 t2 : T) (p : Place) (ws vs : Puts) (M : ℤ → Type 0)
      → Wrote tree t t1 p ws M
      → Wrote tree t1 t2 p vs M
      → Wrote tree t t2 p (ws ++ vs) M
  Wrote_trans t t1 t2 p ws vs M x y = record {
    reads = λ q k. elim (Bool-cases (equal_place p q)) [
      | inl e ↦ rw (y.reads q k, x.reads q k, e) (sym (put_over-append ws vs k (tree.get t q k)))
      | inr e ↦ rw (y.reads q k, x.reads q k, e) refl
    ];
    made = λ w h. elim (y.made w h) [ inl there ↦ x.made w there | inr m ↦ inr m ];
    deep = λ w k. y.deep w k ∙ x.deep w k;
  }

  if_same : {A : Type 0} (b : Bool) (x : A) → x ≡ (if b then x else x)
  if_same true x = refl
  if_same false x = refl

  -- A bucket that is created below a user, or for one.
  create-Wrote :
      (t t' : T) (p q : Place) (n : Bytes) (M : ℤ → Type 0)
      → tree.create t p n ≡ done t'
      → ((w : ℤ) → equal_place (p ++ n ∷ []) (state_place w) ≡ true → M w)
      → ((w : ℤ) (k : Bytes) → equal_place (p ++ n ∷ []) (channels_place w ++ k ∷ []) ≡ false)
      → Wrote tree t t' q [] M
  create-Wrote t t' p q n M h m far = record {
    reads = λ r k. laws.creates_get t t' p r n k h ∙ if_same (equal_place q r) (tree.get t r k);
    made = λ w e. elim (Bool-cases (equal_place (p ++ n ∷ []) (state_place w))) [
      | inl c ↦ inr (m w c)
      | inr c ↦ inl (rw (laws.creates t t' p (state_place w) n h, c) at e)
    ];
    deep = λ w k.
        laws.creates t t' p (channels_place w ++ k ∷ []) n h
        ∙ ap (λ b. b || tree.has t (channels_place w ++ k ∷ [])) (far w k);
  }

  put-Wrote :
      (t t' : T) (p : Place) (k v : Bytes) (M : ℤ → Type 0)
      → tree.put t p k v ≡ done t'
      → Wrote tree t t' p ((k, v) ∷ []) M
  put-Wrote t t' p k v M h = record {
    reads = λ q j. laws.puts t t' p q k j v h ∙ if_and (equal_place p q) (equal k j) _ _;
    made = λ w e. inl (sym (laws.puts_has t t' p (state_place w) k v h) ∙ e);
    deep = λ w j. laws.puts_has t t' p (channels_place w ++ j ∷ []) k v h;
  }
    where
      if_and :
          {A : Type 0} (a b : Bool) (x y : A)
          → (if a && b then x else y) ≡ (if a then (if b then x else y) else y)
      if_and true b x y = refl
      if_and false b x y = refl

  pub put_int-Wrote :
      (t t' : T) (p : Place) (k : Bytes) (n : ℤ) (M : ℤ → Type 0)
      → put_int tree p k n t ≡ stepped t'
      → Wrote tree t t' p ((k, i2b n) ∷ []) M
  unfolding put_int
  put_int-Wrote t t' p k n M h = put-Wrote t t' p k (i2b n) M (lift-eq-stepped _ h)

  user_bucket-Wrote :
      (u : ℤ) (t t' : T) (p : Place) (M : ℤ → Type 0)
      → user_bucket tree u t ≡ stepped t'
      → Wrote tree t t' p [] M
  unfolding user_bucket
  user_bucket-Wrote u t t' p M h =
      create-Wrote t t' [] p (i642b u) M (lift-eq-stepped _ h)
        (λ w e. cc (and_false (equal (i642b u) (i642b w))))
        (λ w k. and_false (equal (i642b u) (i642b w)))

  pub on_state-Wrote :
      (u : ℤ) (f : T → Step T) (t t' : T)
      → on_state tree u f t ≡ stepped t'
      → (t1 : T) × Wrote tree t t1 (state_place u) [] Nobody
        × (tree.has t (state_place u) ≡ true)
        × (f t1 ≡ stepped t')
  unfolding on_state
  on_state-Wrote u f t t' h =
      let (t1, made, rest) = >>=-eq-stepped (user_bucket tree u t) _ h in
      let x = user_bucket-Wrote u t t1 (state_place u) Nobody made in
      elim (Bool-cases (tree.has t1 (state_place u))) [
        | inr e ↦ absurd (failed-ne-stepped (rw e at rest))
        | inl e ↦ elim (x.made u e) [ inl there ↦ (t1, x, there, rw e at rest) | inr m ↦ absurd m ]
      ]

  pub channels_bucket-Wrote :
      (u : ℤ) (t t' : T)
      → channels_bucket tree u t ≡ stepped t'
      → Wrote tree t t' (channels_place u) [] Nobody
  unfolding channels_bucket
  channels_bucket-Wrote u t t' h =
      let (t1, made, rest) = >>=-eq-stepped (user_bucket tree u t) _ h in
      Wrote_trans t t1 t' (channels_place u) [] [] Nobody
        (user_bucket-Wrote u t t1 (channels_place u) Nobody made)
        (create-Wrote t1 t' (i642b u ∷ []) (channels_place u) channels_name Nobody
          (lift-eq-stepped _ rest) (λ w e. cc (and_false (equal (i642b u) (i642b w))))
          (λ w k. and_false (equal (i642b u) (i642b w))))

  -- A check that leaves no error is one of a put that was made.
  check-done :
      (a : T × Option ℕ) (r : Tried T)
      → (check a r).1 ≡ none
      → (a.1 ≡ none) × (r ≡ done (check a r).0)
  unfolding check
  check-done (t, none) (done t') h = (refl, refl)
  check-done (t, some e) (done t') h = cc
  check-done (t, none) (refused x) h = cc
  check-done (t, some e) (refused x) h = cc

  checked-stepped : (a : T × Option ℕ) (t : T) → checked a ≡ stepped t → (a.1 ≡ none) × (a.0 ≡ t)
  unfolding checked
  checked-stepped (t', none) t h = (refl, cc)
  checked-stepped (t', some e) t h = cc

  -- one of the four puts
  checked_put-Wrote :
      (a : T × Option ℕ) (p : Place) (k v : Bytes) (M : ℤ → Type 0)
      → (check a (tree.put a.0 p k v)).1 ≡ none
      → (a.1 ≡ none) × Wrote tree a.0 (check a (tree.put a.0 p k v)).0 p ((k, v) ∷ []) M
  checked_put-Wrote a p k v M h =
      let (before, made) = check-done a (tree.put a.0 p k v) h in
      (before, put-Wrote a.0 _ p k v M made)

  put_state-Wrote :
      (p : Place) (s : UpdatesState) (t t' : T) (M : ℤ → Type 0)
      → put_state tree p s t ≡ stepped t'
      → Wrote tree t t' p (state_puts s) M
  unfolding put_state
  put_state-Wrote p s t t' M h =
      let a1 : T × Option ℕ = check (t, none) (tree.put t p pts_name (i2b s.pts)) in
      let a2 : T × Option ℕ = check a1 (tree.put a1.0 p qts_name (i2b s.qts)) in
      let a3 : T × Option ℕ = check a2 (tree.put a2.0 p date_name (i2b s.date)) in
      let (e4, same) = checked-stepped (check a3 (tree.put a3.0 p seq_name (i2b s.seq))) t' h in
      let (e3, x4) = checked_put-Wrote a3 p seq_name (i2b s.seq) M e4 in
      let (e2, x3) = checked_put-Wrote a2 p date_name (i2b s.date) M e3 in
      let (e1, x2) = checked_put-Wrote a1 p qts_name (i2b s.qts) M e2 in
      let (e0, x1) = checked_put-Wrote (t, none) p pts_name (i2b s.pts) M e1 in
      subst (λ z. Wrote tree t z p (state_puts s) M) same
        (Wrote_trans t a1.0 _ p _ _ M x1
          (Wrote_trans a1.0 a2.0 _ p _ _ M x2 (Wrote_trans a2.0 a3.0 _ p _ _ M x3 x4)))

  pub set_state-Wrote :
      (u : ℤ) (s : UpdatesState) (t t' : T)
      → (user_bucket tree u t >>= λ t1. lift (tree.create t1 (i642b u ∷ []) state_name) >>= λ t2.
          put_state tree (state_place u) s t2)
        ≡ stepped t'
      → Wrote tree t t' (state_place u) (state_puts s) (Only u)
  set_state-Wrote u s t t' h =
      let (t1, first, more) = >>=-eq-stepped (user_bucket tree u t) _ h in
      let (t2, second, puts) =
        >>=-eq-stepped (lift (tree.create t1 (i642b u ∷ []) state_name)) _ more in
      let x = user_bucket-Wrote u t t1 (state_place u) (Only u) first in
      let y =
        create-Wrote t1 t2 (i642b u ∷ []) (state_place u) state_name (Only u)
          (lift-eq-stepped _ second) (λ w e. and_true (equal (i642b u) (i642b w)) e)
          (λ w k. and_false (equal (i642b u) (i642b w))) in
      let z = put_state-Wrote (state_place u) s t2 t' (Only u) puts in
      Wrote_trans t t2 t' (state_place u) [] _ (Only u)
        (Wrote_trans t t1 t2 (state_place u) [] [] (Only u) x y) z
