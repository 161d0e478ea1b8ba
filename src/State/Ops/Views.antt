-- ===== src/State/Ops/Views.antt =====
-- bbolt/state_storage.go: the reads of a tree, and the trees that `State` makes.
use tgcontrib.Base.{
  ◌≡◌, ◌⊎◌, inl, inr, refl, ◌∙◌, true, false, List, [], ◌∷◌, ◌++◌, Option, none, some, Bool-cases,
  if◌then◌else◌, Bytes,
}
use mathlib.Core.Path.{subst}
use tgcontrib.Base.Int.{ℤ}
use tgcontrib.Base.Decimal.{IsInt64}
use tgcontrib.Base.Text.{equal, equal_iff}
use tgcontrib.State.Words.{i2b, i642b}
use tgcontrib.State.Tree.{Place, equal_place, Tree, IsTree}
use tgcontrib.State.Ops.{
  pts_name, qts_name, date_name, seq_name, state_name, channels_name, state_place, channels_place,
  read_state, read_pts, inside, state_at, pts_at,
}

abbrev pub IsInt : Bytes → Type 0
IsInt v = (n : ℤ) × IsInt64 n × (v ≡ i2b n)

abbrev pub IsKey : Bytes → Type 0
IsKey k = (c : ℤ) × IsInt64 c × (k ≡ i642b c)

abbrev pub HasInt : Option Bytes → Type 0
HasInt g = (v : Bytes) × (g ≡ some v) × IsInt v

-- Writes into one bucket, the first one first: a key and a value.
abbrev pub Puts : Type 0
Puts = List (Bytes × Bytes)

abbrev pub put_over : Puts → Bytes → Option Bytes → Option Bytes
put_over [] j g = g
put_over ((k, v) ∷ ws) j g = put_over ws j (if equal k j then some v else g)

-- The values are numbers, and the keys are those of channels where the bucket is one of channels.
abbrev pub ValidPuts : Place → Puts → Type 0
ValidPuts p [] = Unit
ValidPuts p ((k, v) ∷ ws) =
    IsInt v × ((w : ℤ) → equal_place p (channels_place w) ≡ true → IsKey k) × ValidPuts p ws

pub some_injective : {v w : Bytes} → some v ≡ some w → v ≡ w
some_injective h = cc

module _ {D T : Type 0} (tree : Tree D T) where
  abbrev pub Saved : T → ℤ → Type 0
  Saved t w =
      HasInt (tree.get t (state_place w) pts_name)
      × HasInt (tree.get t (state_place w) qts_name)
      × HasInt (tree.get t (state_place w) date_name)
      × HasInt (tree.get t (state_place w) seq_name)

  -- A state bucket has its four numbers, and a bucket of channels holds numbers by channel.
  pub record IsStates (t : T) : Type 0 where
    pub saved : (w : ℤ) → tree.has t (state_place w) ≡ true → Saved t w
    pub keyed : (w : ℤ) (k v : Bytes) → tree.get t (channels_place w) k ≡ some v → IsKey k × IsInt v
    pub flat : (w : ℤ) (k : Bytes) → tree.has t (channels_place w ++ k ∷ []) ≡ false

  -- What a step does to a tree: the writes `ws` in the bucket at `p`, and state buckets for the
  -- users of `M`.
  pub record Wrote (t t' : T) (p : Place) (ws : Puts) (M : ℤ → Type 0) : Type 0 where
    pub reads :
        (q : Place) (k : Bytes)
        → tree.get t' q k
          ≡ (if equal_place p q then put_over ws k (tree.get t q k) else tree.get t q k)
    pub made :
        (w : ℤ) → tree.has t' (state_place w) ≡ true → (tree.has t (state_place w) ≡ true) ⊎ M w
    pub deep :
        (w : ℤ) (k : Bytes)
        → tree.has t' (channels_place w ++ k ∷ []) ≡ tree.has t (channels_place w ++ k ∷ [])

  put_over-HasInt :
      (p : Place) (ws : Puts) (k : Bytes) (g : Option Bytes)
      → ValidPuts p ws
      → HasInt g
      → HasInt (put_over ws k g)
  put_over-HasInt p [] k g h i = i
  put_over-HasInt p ((j, v) ∷ ws) k g h i = elim (Bool-cases (equal j k)) [
    | inl e ↦ rw e (put_over-HasInt p ws k (some v) h.2 (v, refl, h.0))
    | inr e ↦ rw e (put_over-HasInt p ws k g h.2 i)
  ]

  put_over-keyed :
      (p : Place) (w : ℤ) (ws : Puts) (k : Bytes) (g : Option Bytes)
      → equal_place p (channels_place w) ≡ true
      → ValidPuts p ws
      → ((v : Bytes) → g ≡ some v → IsKey k × IsInt v)
      → (v : Bytes) → put_over ws k g ≡ some v
      → IsKey k × IsInt v
  put_over-keyed p w [] k g here h i v e = i v e
  put_over-keyed p w ((j, u) ∷ ws) k g here h i v e = elim (Bool-cases (equal j k)) [
    | inl b ↦
        let key = subst IsKey ((equal_iff j k).0 b) (h.1 w here) in
        put_over-keyed p w ws k (some u) here h.2
          (λ v' e'. (key, subst IsInt (some_injective e') h.0)) v (rw b at e)
    | inr b ↦ put_over-keyed p w ws k g here h.2 i v (rw b at e)
  ]

  module _ (t t' : T) (p : Place) (ws : Puts) (M : ℤ → Type 0) (x : Wrote t t' p ws M)
      (valid : ValidPuts p ws) where
    kept-HasInt : (q : Place) (k : Bytes) → HasInt (tree.get t q k) → HasInt (tree.get t' q k)
    kept-HasInt q k h = elim (Bool-cases (equal_place p q)) [
      | inl e ↦ rw (x.reads q k, e) (put_over-HasInt p ws k _ valid h)
      | inr e ↦ rw (x.reads q k, e) h
    ]

    kept_keyed :
        (w : ℤ) (k v : Bytes)
        → ((v : Bytes) → tree.get t (channels_place w) k ≡ some v → IsKey k × IsInt v)
        → tree.get t' (channels_place w) k ≡ some v
        → IsKey k × IsInt v
    kept_keyed w k v h e = elim (Bool-cases (equal_place p (channels_place w))) [
      | inl b ↦ put_over-keyed p w ws k _ b valid h v (rw (x.reads (channels_place w) k, b) at e)
      | inr b ↦ h v (rw (x.reads (channels_place w) k, b) at e)
    ]

    -- A step whose writes are numbers keeps the shape of the tree, where each state bucket that it
    -- makes is filled.
    pub Wrote-IsStates : IsStates t → ((w : ℤ) → M w → Saved t' w) → IsStates t'
    Wrote-IsStates s fresh = record {
      saved = λ w h. elim (x.made w h) [
        | inl there ↦
            let (a, b, c, d) = s.saved w there in
            let at = kept-HasInt (state_place w) in
            (at pts_name a, at qts_name b, at date_name c, at seq_name d)
        | inr m ↦ fresh w m
      ];
      keyed = λ w k v h. kept_keyed w k v (s.keyed w k) h;
      flat = λ w k. x.deep w k ∙ s.flat w k;
    }

-- A read goes through the buckets above it, and gives what the keys give.
module _ {D T : Type 0} (tree : Tree D T) (content : D → T) (laws : IsTree tree content) where
  no_keys :
      (t : T) (u : Bytes) (n k : Bytes)
      → tree.has t (u ∷ []) ≡ false
      → tree.get t (u ∷ n ∷ []) k ≡ none
  no_keys t u n k h = elim (Bool-cases (tree.has t (u ∷ n ∷ []))) [
    | inl e ↦ cc (laws.nested t (u ∷ []) n e)
    | inr e ↦ laws.no_bucket t (u ∷ n ∷ []) k e
  ]

  pub state_at-read_state :
      (u : ℤ) (t : T)
      → state_at tree u t
        ≡ read_state
            (tree.get t (state_place u) pts_name)
            (tree.get t (state_place u) qts_name)
            (tree.get t (state_place u) date_name)
            (tree.get t (state_place u) seq_name)
  unfolding state_at inside read_state
  state_at-read_state u t = elim (Bool-cases (tree.has t (i642b u ∷ []))) [
    | inr e ↦ rw (e, no_keys t (i642b u) state_name pts_name e) refl
    | inl e ↦ elim (Bool-cases (tree.has t (state_place u))) [
      | inr f ↦ rw (e, f, laws.no_bucket t (state_place u) pts_name f) refl
      | inl f ↦ rw (e, f) refl
    ]
  ]

  pub pts_at-read_pts :
      (u c : ℤ) (t : T) → pts_at tree u c t ≡ read_pts (tree.get t (channels_place u) (i642b c))
  unfolding pts_at inside read_pts
  pts_at-read_pts u c t = elim (Bool-cases (tree.has t (i642b u ∷ []))) [
    | inr e ↦ rw (e, no_keys t (i642b u) channels_name (i642b c) e) refl
    | inl e ↦ elim (Bool-cases (tree.has t (channels_place u))) [
      | inr f ↦ rw (e, f, laws.no_bucket t (channels_place u) (i642b c) f) refl
      | inl f ↦ rw (e, f) refl
    ]
  ]
