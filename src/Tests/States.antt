-- ===== src/Tests/States.antt =====
-- bbolt/state_storage.go on a tree in memory.
use tgcontrib.Base.{ℕ, ◌≡◌, refl, [], ◌∷◌, List, Option, none, some, ◌++◌, arith, replicate}
use tgcontrib.Base.Int.{ℤ, pos, negsuc}
use tgcontrib.State.Words.{i2b, b2i, i642b, b2i64, b2i64-i642b}
use tgcontrib.State.Calls.{Call, state_set, pts_set, channel_set, run}
use tgcontrib.State.Ops.{
  UpdatesState, Failure, state_not_found, value, get_state, get_channel_pts, for_each_channels,
  set_state, set_pts, set_channel_pts,
}
use tgcontrib.State.Ops.Views.{IsStates}
use tgcontrib.State.Ops.Visits.{Ends, for_each_channels-Ends}
use tgcontrib.State.Refine.Runs.{
  run_all, accepted, states_after, get_state-run_all, run_all-Ran, get_channel_pts-run_all,
  run-get_state_absent,
}
use tgcontrib.Tests.Trees.{Buckets}
use tgcontrib.Tests.Databases.{memory, empty, memory-IsTree}

empty-IsStates : IsStates memory empty
empty-IsStates = record { saved = λ w h. cc; keyed = λ w k v h. cc; flat = λ w k. refl }

abbrev first : UpdatesState
first = record { pts = pos 1; qts = negsuc 1; date = pos 1700000000; seq = pos 4 }

-- The last call fails, since its user has no state.
abbrev calls : List Call
calls =
    state_set (pos 7) first
    ∷ pts_set (pos 7) (pos 300)
    ∷ channel_set (pos 7) (negsuc 9) (pos 12)
    ∷ pts_set (pos 8) (pos 1)
    ∷ []

key_of_minus_two : i642b (negsuc 1) ≡ 254 ∷ replicate 7 255 ++ replicate 8 0
unfolding i642b
key_of_minus_two = refl

short_value : b2i (1 ∷ 2 ∷ 3 ∷ []) ≡ none
unfolding b2i
short_value = refl

accepted_calls :
    accepted memory calls empty
    ≡ state_set (pos 7) first
      ∷ pts_set (pos 7) (pos 300)
      ∷ channel_set (pos 7) (negsuc 9) (pos 12)
      ∷ []
unfolding accepted run set_state set_pts set_channel_pts i2b i642b
accepted_calls = refl

no_state : (set_pts memory (pos 8) (pos 1) empty).1 ≡ some state_not_found
unfolding set_pts i642b
no_state = refl

b2i64-i642b_run : b2i64 (i642b (negsuc 41)) ≡ some (negsuc 41)
b2i64-i642b_run = b2i64-i642b (negsuc 41) (omega arith)

get_state-run_all_example :
    get_state memory (pos 7) (run_all memory calls empty)
    ≡ states_after (accepted memory calls empty) (pos 7) (get_state memory (pos 7) empty)
get_state-run_all_example =
    get_state-run_all memory (λ d. d) memory-IsTree calls empty (pos 7) empty
      (run_all memory calls empty) (omega arith) empty-IsStates (omega arith) refl refl

get_channel_pts-run_all_run :
    get_channel_pts memory (pos 7) (negsuc 9) (run_all memory calls empty) ≡ value (pos 12)
unfolding accepted run set_state set_pts set_channel_pts i2b i642b get_channel_pts
get_channel_pts-run_all_run =
    get_channel_pts-run_all memory (λ d. d) memory-IsTree calls empty (pos 7) (negsuc 9) empty
      (run_all memory calls empty) (omega arith) empty-IsStates (omega arith) (omega arith) refl
      refl

run-get_state_absent_example :
    (e : Failure) × ((run memory (pts_set (pos 8) (pos 1)) empty).1 ≡ some e)
    × ((run memory (pts_set (pos 8) (pos 1)) empty).0 ≡ empty)
unfolding get_state
run-get_state_absent_example =
    run-get_state_absent memory (λ d. d) memory-IsTree (pts_set (pos 8) (pos 1)) empty (pos 8) empty
      refl empty-IsStates refl refl

abbrev note : ℤ → ℤ → List (ℤ × ℤ) → List (ℤ × ℤ) × Option ℕ
note c n l = ((c, n) ∷ l, none)

abbrev filled : Buckets
filled = run_all memory calls empty

filled-IsStates : IsStates memory filled
filled-IsStates =
    (run_all-Ran memory (λ d. d) memory-IsTree calls empty (omega arith) empty-IsStates).shape

for_each_channels-Ends_example :
    Ends memory (λ d. d) note (pos 7) filled [] (for_each_channels memory (pos 7) note filled [])
for_each_channels-Ends_example =
    for_each_channels-Ends memory (λ d. d) memory-IsTree note (pos 7) filled [] filled-IsStates

visited_channels : (for_each_channels memory (pos 7) note filled []).1 ≡ (negsuc 9, pos 12) ∷ []
unfolding for_each_channels run_all run set_state set_pts set_channel_pts i2b i642b b2i b2i64
visited_channels = refl
