-- ===== src/Tests/Backgrounds.antt =====
-- Tests and runs of the client in the background.
use tgcontrib.Base.{ℕ, ◌≡◌, refl, Bool, true, List, [], ◌∷◌, Option, none, some, ◌==◌, ◌⊎◌}
use tgcontrib.Bg.{
  Connect, connect, Event, run_calls, function_returns, run_returns, sends, closes, sees_error,
  sees_init, stop_cancels, stop_receives, connected, refused, run,
}
use tgcontrib.Bg.Steps.{HasReturned, Reports}
use tgcontrib.Bg.Stops.{Stops, stopped-Reports}

-- The error 0 is context.Canceled.
abbrev is_zero : ℕ → Bool
is_zero e = e == 0

abbrev opened : List (Event ℕ)
opened = run_calls ∷ sees_init ∷ []

-- Two calls of the returned function, of which the second finds a closed channel.
abbrev stopped_twice : List (Event ℕ)
stopped_twice =
    run_calls
    ∷ sees_init
    ∷ stop_cancels
    ∷ function_returns
    ∷ run_returns (some 5)
    ∷ sends
    ∷ stop_receives
    ∷ closes
    ∷ stop_cancels
    ∷ stop_receives
    ∷ []

abbrev state_of : Option (Connect ℕ) → Connect ℕ
state_of none = connect
state_of (some s) = s

abbrev opened_state : Connect ℕ
opened_state = state_of (run 0 is_zero opened connect)

abbrev stopped_state : Connect ℕ
stopped_state = state_of (run 0 is_zero stopped_twice connect)

stops_twice : stopped_state.stopped ≡ some 5 ∷ none ∷ []
unfolding run connect
stops_twice = refl

-- A client that ends with no error before it is connected.
abbrev early : List (Event ℕ)
early = run_returns none ∷ sends ∷ sees_error ∷ []

early_refused : (state_of (run 0 is_zero early connect)).connection ≡ refused none
unfolding run connect
early_refused = refl

stopped-Reports_example :
    (stopped_state.stopped ≡ [])
    ⊎ ((stopped_state.connection ≡ connected)
        × (stopped_state.init_done ≡ true)
        × (e : Option ℕ) × HasReturned e stopped_state.runner
        × Reports e stopped_state.stopped)
unfolding run connect
stopped-Reports_example = stopped-Reports 0 is_zero stopped_twice stopped_state refl
