-- ===== src/State/Calls.antt =====
-- bbolt/state_storage.go: the writes of `State` as calls, and what a call does to the states and
-- to the channels that are read: the specification of the storage.
use tgcontrib.Base.{◌&&◌, Option, if◌then◌else◌}
use tgcontrib.Base.Int.{equal_ℤ, ℤ}
use tgcontrib.Base.Decimal.{IsInt64}
use tgcontrib.State.Tree.{Tree}
use tgcontrib.State.Ops.{
  UpdatesState, Failure, Got, value, set_state, set_pts, set_qts, set_date, set_seq, set_date_seq,
  set_channel_pts,
}

-- The first number of a call is the user.
pub data Call : Type 0 where
  state_set : ℤ → UpdatesState → Call
  pts_set qts_set date_set seq_set : ℤ → ℤ → Call
  date_seq_set channel_set : ℤ → ℤ → ℤ → Call

module _ {D T : Type 0} (tree : Tree D T) where
  unfoldable pub run : Call → D → D × Option Failure
  run (state_set u s) d = set_state tree u s d
  run (pts_set u n) d = set_pts tree u n d
  run (qts_set u n) d = set_qts tree u n d
  run (date_set u n) d = set_date tree u n d
  run (seq_set u n) d = set_seq tree u n d
  run (date_seq_set u m n) d = set_date_seq tree u m n d
  run (channel_set u c n) d = set_channel_pts tree u c n d

-- The numbers of a call are 64-bit.
abbrev pub InRange : Call → Type 0
InRange (state_set u s) = IsInt64 u × IsInt64 s.pts × IsInt64 s.qts × IsInt64 s.date × IsInt64 s.seq
InRange (pts_set u n) = IsInt64 u × IsInt64 n
InRange (qts_set u n) = IsInt64 u × IsInt64 n
InRange (date_set u n) = IsInt64 u × IsInt64 n
InRange (seq_set u n) = IsInt64 u × IsInt64 n
InRange (date_seq_set u m n) = IsInt64 u × IsInt64 m × IsInt64 n
InRange (channel_set u c n) = IsInt64 u × IsInt64 c × IsInt64 n

abbrev pub change : (UpdatesState → UpdatesState) → Got UpdatesState → Got UpdatesState
change f (value s) = value (f s)
change f g = g

-- The state of a user behind a call that succeeds, from the one before it.
abbrev pub state_after : Call → ℤ → Got UpdatesState → Got UpdatesState
state_after (state_set u s) w g = if equal_ℤ u w then value s else g
state_after (pts_set u n) w g = if equal_ℤ u w then change (λ s. record s { pts = n }) g else g
state_after (qts_set u n) w g = if equal_ℤ u w then change (λ s. record s { qts = n }) g else g
state_after (date_set u n) w g = if equal_ℤ u w then change (λ s. record s { date = n }) g else g
state_after (seq_set u n) w g = if equal_ℤ u w then change (λ s. record s { seq = n }) g else g
state_after (date_seq_set u m n) w g =
    if equal_ℤ u w then change (λ s. record s { date = m; seq = n }) g else g
state_after (channel_set u c n) w g = g

-- The pts of a channel of a user behind such a call.
abbrev pub pts_after : Call → ℤ → ℤ → Got ℤ → Got ℤ
pts_after (channel_set u c n) w d g = if equal_ℤ u w && equal_ℤ c d then value n else g
pts_after _ w d g = g
