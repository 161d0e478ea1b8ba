-- ===== src/State/Ops.antt =====
-- bbolt/state_storage.go: the methods of `State`, and updates.State of github.com/gotd/td.
-- A transaction whose function fails, or panics, is rolled back.
pub mod Views
pub mod Steps
pub mod Each
pub mod Channels
pub mod Visits
pub mod Fields
pub mod Commits
use tgcontrib.Base.{ℕ, Bool, true, false, List, [], ◌∷◌, Option, none, some, if◌then◌else◌, Bytes}
use tgcontrib.Base.Int.{ℤ}
use tgcontrib.Base.Text.{codes}
use tgcontrib.Storage.Bbolt.{Tried, done, refused}
use tgcontrib.State.Words.{i2b, b2i, i642b, b2i64}
use tgcontrib.State.Tree.{Place, Tree}

pub record UpdatesState : Type 0 where
  pub pts : ℤ
  pub qts : ℤ
  pub date : ℤ
  pub seq : ℤ

-- What a call reports instead of success. `callback` is the error of the client's function.
pub data Failure : Type 0 where
  database callback : ℕ → Failure
  state_not_found panicked : Failure

-- What a read gives; `absent` is the result that has `found` false and no error.
pub data Got (A : Type 0) : Type 0 where
  value : A → Got A
  absent : Got A
  fails : Failure → Got A

-- The function of a write transaction, one call behind the other.
pub data Step (T : Type 0) : Type 0 where
  stepped : T → Step T
  failed : Failure → Step T

infixl 5 ◌>>=◌
abbrev pub ◌>>=◌ : {T : Type 0} → Step T → (T → Step T) → Step T
stepped t >>= f = f t
failed e >>= f = failed e

abbrev pub lift : {T : Type 0} → Tried T → Step T
lift (done t) = stepped t
lift (refused e) = failed (database e)

-- the names of the buckets and of the keys
abbrev pub state_name : Bytes
state_name = codes "state"

abbrev pub channels_name : Bytes
channels_name = codes "channels"

abbrev pub pts_name : Bytes
pts_name = codes "pts"

abbrev pub qts_name : Bytes
qts_name = codes "qts"

abbrev pub date_name : Bytes
date_name = codes "date"

abbrev pub seq_name : Bytes
seq_name = codes "seq"

abbrev pub state_place : ℤ → Place
state_place u = i642b u ∷ state_name ∷ []

abbrev pub channels_place : ℤ → Place
channels_place u = i642b u ∷ channels_name ∷ []

-- the result of `updates.State{...}, true, nil` from the four values
pub read_values : Option ℤ → Option ℤ → Option ℤ → Option ℤ → Got UpdatesState
read_values (some p) (some q) (some d) (some s) =
    value (record { pts = p; qts = q; date = d; seq = s })
read_values _ _ _ _ = fails panicked

pub read_state : Option Bytes → Option Bytes → Option Bytes → Option Bytes → Got UpdatesState
unfolding read_values
read_state (some p) (some q) (some d) (some s) = read_values (b2i p) (b2i q) (b2i d) (b2i s)
read_state _ _ _ _ = absent

pub read_pts : Option Bytes → Got ℤ
read_pts none = absent
read_pts (some p) = elim (b2i p) [ none ↦ fails panicked | some n ↦ value n ]

-- the four puts of `SetState`: every one is made, and the first error is kept
pub check : {T : Type 0} → T × Option ℕ → Tried T → T × Option ℕ
check (t, e) (done t') = (t', e)
check (t, none) (refused x) = (t, some x)
check (t, some e) (refused x) = (t, some e)

pub checked : {T : Type 0} → T × Option ℕ → Step T
checked (t, none) = stepped t
checked (t, some e) = failed (database e)

pub after_call : {S : Type 0} → S × Option ℕ → S × Option Failure
after_call (s, none) = (s, none)
after_call (s, some e) = (s, some (callback e))

-- the client's function on one entry
pub called :
    {S : Type 0} → (ℤ → ℤ → S → S × Option ℕ) → Option ℤ → Option ℤ → S → S × Option Failure
unfolding after_call
called f (some c) (some n) s = after_call (f c n s)
called f _ _ s = (s, some panicked)

-- the loop of `ForEach`, which an error stops
pub visit :
    {S : Type 0}
    → (ℤ → ℤ → S → S × Option ℕ)
    → List (Bytes × Bytes)
    → S × Option Failure
    → S × Option Failure
unfolding called
visit f es (s, some e) = (s, some e)
visit f [] (s, none) = (s, none)
visit f ((k, v) ∷ es) (s, none) = visit f es (called f (b2i64 k) (b2i v) s)

module _ {D T : Type 0} (tree : Tree D T) where
  pub user_bucket : ℤ → T → Step T
  user_bucket u t = lift (tree.create t [] (i642b u))

  pub put_int : Place → Bytes → ℤ → T → Step T
  put_int p k n t = lift (tree.put t p k (i2b n))

  pub closed : D × Option ℕ → D × Option Failure
  closed (d, none) = (d, none)
  closed (d, some e) = (d, some (database e))

  pub close : D → Step T → D × Option Failure
  close d (failed e) = (d, some e)
  close d (stepped t) = closed (tree.commit d t)

  -- `Update` of the database
  pub update : (T → Step T) → D → D × Option Failure
  unfolding close closed
  update f d = elim (tree.begin true d) [
    | refused e ↦ (d, some (database e))
    | done t ↦ close d (f t)
  ]

  -- behind the nil check of a bucket
  pub inside : {A : Type 0} → Place → T → Got A → Got A
  inside p t found = if tree.has t p then found else absent

  pub state_at : ℤ → T → Got UpdatesState
  unfolding inside read_state
  state_at u t = inside (i642b u ∷ []) t (
      inside (state_place u) t (
        read_state (tree.get t (state_place u) pts_name) (tree.get t (state_place u) qts_name)
          (tree.get t (state_place u) date_name) (tree.get t (state_place u) seq_name)))

  unfoldable pub get_state : ℤ → D → Got UpdatesState
  unfolding state_at
  get_state u d = elim (tree.begin false d) [
    | refused e ↦ fails (database e)
    | done t ↦ state_at u t
  ]

  pub put_state : Place → UpdatesState → T → Step T
  unfolding check checked
  put_state p s t =
      let first = check (t, none) (tree.put t p pts_name (i2b s.pts)) in
      let second = check first (tree.put first.0 p qts_name (i2b s.qts)) in
      let third = check second (tree.put second.0 p date_name (i2b s.date)) in
      checked (check third (tree.put third.0 p seq_name (i2b s.seq)))

  unfoldable pub set_state : ℤ → UpdatesState → D → D × Option Failure
  unfolding update user_bucket put_state
  set_state u s d =
      update
        (λ t. user_bucket u t >>= λ t1.
          lift (tree.create t1 (i642b u ∷ []) state_name) >>= λ t2. put_state (state_place u) s t2)
        d

  -- a function on the user's state bucket, which has to be there
  pub on_state : ℤ → (T → Step T) → T → Step T
  unfolding user_bucket
  on_state u f t =
      user_bucket u t >>= λ t1. if tree.has t1 (state_place u) then f t1 else failed state_not_found

  unfoldable pub set_pts : ℤ → ℤ → D → D × Option Failure
  unfolding update on_state put_int
  set_pts u n d = update (on_state u (put_int (state_place u) pts_name n)) d

  unfoldable pub set_qts : ℤ → ℤ → D → D × Option Failure
  unfolding update on_state put_int
  set_qts u n d = update (on_state u (put_int (state_place u) qts_name n)) d

  unfoldable pub set_date : ℤ → ℤ → D → D × Option Failure
  unfolding update on_state put_int
  set_date u n d = update (on_state u (put_int (state_place u) date_name n)) d

  unfoldable pub set_seq : ℤ → ℤ → D → D × Option Failure
  unfolding update on_state put_int
  set_seq u n d = update (on_state u (put_int (state_place u) seq_name n)) d

  unfoldable pub set_date_seq : ℤ → ℤ → ℤ → D → D × Option Failure
  unfolding update on_state put_int
  set_date_seq u date seq d =
      update
        (on_state u
          (λ t. put_int (state_place u) date_name date t >>= put_int (state_place u) seq_name seq))
        d

  pub pts_at : ℤ → ℤ → T → Got ℤ
  unfolding inside read_pts
  pts_at u c t =
      inside (i642b u ∷ []) t
        (inside (channels_place u) t (read_pts (tree.get t (channels_place u) (i642b c))))

  unfoldable pub get_channel_pts : ℤ → ℤ → D → Got ℤ
  unfolding pts_at
  get_channel_pts u c d = elim (tree.begin false d) [
    | refused e ↦ fails (database e)
    | done t ↦ pts_at u c t
  ]

  pub channels_bucket : ℤ → T → Step T
  unfolding user_bucket
  channels_bucket u t = user_bucket u t >>= λ t1. lift (tree.create t1 (i642b u ∷ []) channels_name)

  unfoldable pub set_channel_pts : ℤ → ℤ → ℤ → D → D × Option Failure
  unfolding update channels_bucket put_int
  set_channel_pts u c n d =
      update (λ t. channels_bucket u t >>= put_int (channels_place u) (i642b c) n) d

  pub left : {S : Type 0} → D → T → S × Option Failure → D × S × Option Failure
  unfolding closed
  left d t (s, some e) = (d, s, some e)
  left d t (s, none) = let (d', r) = closed (tree.commit d t) in (d', s, r)

  pub visit_bucket :
      {S : Type 0} → (ℤ → ℤ → S → S × Option ℕ) → ℤ → D → S → Step T → D × S × Option Failure
  unfolding left visit
  visit_bucket f u d s (failed e) = (d, s, some e)
  visit_bucket f u d s (stepped t) =
      left d t (visit f (tree.entries t (channels_place u)) (s, none))

  -- `s` is what the client's function keeps
  unfoldable pub for_each_channels :
      {S : Type 0} → ℤ → (ℤ → ℤ → S → S × Option ℕ) → D → S → D × S × Option Failure
  unfolding visit_bucket channels_bucket
  for_each_channels u f d s = elim (tree.begin true d) [
    | refused e ↦ (d, s, some (database e))
    | done t ↦ visit_bucket f u d s (channels_bucket u t)
  ]
