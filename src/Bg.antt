-- ===== src/Bg.antt =====
-- bg/connect.go: the client that runs in the background. Each event is one step of a goroutine,
-- and a step that cannot be taken is none. The client (`Client.Run`) chooses when it calls its
-- function, once, and when it returns; the options only choose the parent context.
pub mod Steps
pub mod Stops
use tgcontrib.Base.{
  ℕ, zero, suc, Bool, true, false, List, [], ◌∷◌, ◌++◌, Option, none, some, if◌then◌else◌,
}

-- `errC`, a channel of one place
pub data Channel (E : Type 0) : Type 0 where
  empty : Channel E
  holds : Option E → Channel E
  closed_full : Option E → Channel E
  closed_empty : Channel E

-- The goroutine of `client.Run`: before its function is called, in it, behind it with its error,
-- and behind `Run`, the send and `close`, with the error of `Run`.
pub data Runner (E : Type 0) : Type 0 where
  starting : Runner E
  inside : Runner E
  returning : Option E → Runner E
  ran : Option E → Runner E
  sent : Option E → Runner E
  ended : Option E → Runner E

-- The `select` of `Connect`, and what it led to: `gave_up` and `refused` with the returned error.
pub data Connection (E : Type 0) : Type 0 where
  selects : Connection E
  gave_up : Option E → Connection E
  refused : Option E → Connection E
  connected : Connection E

-- `context` is what `ctx.Err()` gives. `stopping` counts the calls of the returned function that
-- wait on the channel, and `stopped` holds what such calls have returned, the oldest first.
pub record Connect (E : Type 0) : Type 0 where
  pub context : Option E
  pub init_done : Bool
  pub runner : Runner E
  pub err_c : Channel E
  pub connection : Connection E
  pub stopping : ℕ
  pub stopped : List (Option E)

unfoldable pub connect : {E : Type 0} → Connect E
connect = record {
  context = none;
  init_done = false;
  runner = starting;
  err_c = empty;
  connection = selects;
  stopping = 0;
  stopped = [];
}

pub data Event (E : Type 0) : Type 0 where
  parent_ends : E → Event E
  run_calls : Event E
  function_returns : Event E
  run_returns : Option E → Event E
  sends : Event E
  closes : Event E
  sees_context : Event E
  sees_error : Event E
  sees_init : Event E
  stop_cancels : Event E
  stop_receives : Event E

module _ {E : Type 0} where
  -- the first error of a context stays
  pub end_context : E → Connect E → Connect E
  end_context e s = elim (s.context) [ none ↦ record s { context = some e } | some e' ↦ s ]

  pub call_function : Runner E → Connect E → Option (Connect E)
  call_function starting s = some (record s { runner = inside; init_done = true })
  call_function _ s = none

  -- `Run` can end before, during and behind its function.
  pub return_run : Runner E → Option E → Connect E → Option (Connect E)
  return_run starting e s = some (record s { runner = ran e })
  return_run inside e s = some (record s { runner = ran e })
  return_run (returning r) e s = some (record s { runner = ran e })
  return_run _ e s = none

  pub send_error : Runner E → Channel E → Connect E → Option (Connect E)
  send_error (ran e) empty s = some (record s { runner = sent e; err_c = holds e })
  send_error _ c s = none

  pub close : Runner E → Channel E → Connect E → Option (Connect E)
  close (sent e) empty s = some (record s { runner = ended e; err_c = closed_empty })
  close (sent e) (holds r) s = some (record s { runner = ended e; err_c = closed_full r })
  close _ c s = none

  -- A receive: a closed channel gives the zero value for ever.
  unfoldable pub receive : Channel E → Option (Option E × Channel E)
  receive empty = none
  receive (holds e) = some (e, empty)
  receive (closed_full e) = some (e, closed_empty)
  receive closed_empty = some (none, closed_empty)

  pub see_init : Connection E → Bool → Connect E → Option (Connect E)
  see_init selects true s = some (record s { connection = connected })
  see_init _ b s = none

  pub take_stop : ℕ → Option (Option E × Channel E) → Connect E → Option (Connect E)
  take_stop zero r s = none
  take_stop (suc n) none s = none
  take_stop (suc n) (some (e, c)) s =
      some (record s { err_c = c; stopping = n; stopped = s.stopped ++ e ∷ [] })

module _ {E : Type 0} (canceled : E) where
  unfoldable pub cancel : Connect E → Connect E
  unfolding end_context
  cancel s = end_context canceled s

  -- the cases of the `select`; those that fail cancel the context
  pub see_context : Connection E → Option E → Connect E → Option (Connect E)
  unfolding cancel
  see_context selects (some e) s = some (record (cancel s) { connection = gave_up (some e) })
  see_context _ e s = none

  pub take_error : Option (Option E × Channel E) → Connect E → Option (Connect E)
  unfolding cancel
  take_error none s = none
  take_error (some (e, c)) s = some (record (cancel s) { err_c = c; connection = refused e })

  pub see_error : Connection E → Connect E → Option (Connect E)
  unfolding take_error receive
  see_error selects s = take_error (receive s.err_c) s
  see_error _ s = none

  -- `stopFn` behind a connection; that of a failed one does nothing
  pub stop_cancel : Connection E → Connect E → Option (Connect E)
  unfolding cancel
  stop_cancel connected s = some (record (cancel s) { stopping = suc s.stopping })
  stop_cancel _ s = none

module _ {E : Type 0} (is_canceled : E → Bool) where
  -- the function that `Run` is given: it waits for the context
  function_result : E → Option E
  function_result e = if is_canceled e then none else some e

  pub return_function : Runner E → Option E → Connect E → Option (Connect E)
  unfolding function_result
  return_function inside (some e) s = some (record s { runner = returning (function_result e) })
  return_function _ e s = none

module _ {E : Type 0} (canceled : E) (is_canceled : E → Bool) where
  unfoldable pub step : Event E → Connect E → Option (Connect E)
  unfolding end_context call_function return_function return_run send_error close see_context
      see_error see_init stop_cancel take_stop receive
  step (parent_ends e) s = some (end_context e s)
  step run_calls s = call_function s.runner s
  step function_returns s = return_function is_canceled s.runner s.context s
  step (run_returns e) s = return_run s.runner e s
  step sends s = send_error s.runner s.err_c s
  step closes s = close s.runner s.err_c s
  step sees_context s = see_context canceled s.connection s.context s
  step sees_error s = see_error canceled s.connection s
  step sees_init s = see_init s.connection s.init_done s
  step stop_cancels s = stop_cancel canceled s.connection s
  step stop_receives s = take_stop s.stopping (receive s.err_c) s

  unfoldable pub run : List (Event E) → Connect E → Option (Connect E)
  unfolding step
  run [] s = some s
  run (e ∷ es) s = elim (step e s) [ none ↦ none | some s' ↦ run es s' ]
