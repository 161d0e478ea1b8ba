-- ===== src/Flood/Simple.antt =====
-- middleware/floodwait/simple_waiter.go: the waiter that sleeps and calls again.
-- `invoke i` is what the call number `i` gives, from 0 on, and `done i` is the error of the context
-- if it ends in the wait behind `i` calls. A wait ends by its timer or by the context.
pub mod Loop
use tgcontrib.Base.{
  ℕ, zero, suc, ◌+◌, Bool, true, false, not, ◌&&◌, List, [], ◌∷◌, ◌++◌, Option, none, some, ltb,
  ◌==◌, if◌then◌else◌,
}
use tgcontrib.Base.Int.{ℤ, pos}
use tgcontrib.Flood.Waiter.{second, exceeds}

pub record SimpleWaiter : Type 0 where
  pub max_retries : ℕ
  pub max_wait : ℤ

unfoldable pub new_simple_waiter : SimpleWaiter
new_simple_waiter = record { max_retries = 0; max_wait = pos 0 }

unfoldable pub clone : SimpleWaiter → SimpleWaiter
clone w = record { max_retries = w.max_retries; max_wait = w.max_wait }

-- the clock itself is left out
unfoldable pub with_clock : SimpleWaiter → SimpleWaiter
with_clock w = clone w

unfoldable pub with_max_retries : SimpleWaiter → ℕ → SimpleWaiter
unfolding clone
with_max_retries w m = record (clone w) { max_retries = m }

unfoldable pub with_max_wait : SimpleWaiter → ℤ → SimpleWaiter
unfolding clone
with_max_wait w m = record (clone w) { max_wait = m }

pub data Answer (E : Type 0) : Type 0 where
  result : Option E → Answer E
  retry_limit : ℕ → ℕ → E → Answer E
  too_big : ℕ → ℤ → E → Answer E
  canceled : E → Answer E
  out_of_fuel : Answer E

-- The answer, the calls that were made and the waits behind them, in order.
pub record Run (E : Type 0) : Type 0 where
  pub answer : Answer E
  pub calls : ℕ
  pub waits : List ℕ

abbrev pub stop : {E : Type 0} → Answer E → ℕ → List ℕ → Run E
stop a calls waits = record { answer = a; calls = calls; waits = waits }

module _ {E : Type 0} (as_flood_wait : E → Option ℕ) (w : SimpleWaiter) (done : ℕ → Option E) where
  -- `v != 0 && retries > v`
  unfoldable pub over : ℕ → Bool
  over retries = not (w.max_retries == 0) && ltb w.max_retries retries

  -- One round behind a flood wait of `d`; `calls` counts the call that met it, `retries` is new.
  after_flood : ℕ → ℕ → List ℕ → ℕ → E → (List ℕ → Run E) → Run E
  after_flood calls retries waits d err again =
      if over retries
      then stop (retry_limit retries w.max_retries err) calls waits
      else let d' = if d == 0 then second else d in
        if exceeds d' w.max_wait
        then stop (too_big d' w.max_wait err) calls waits
        else elim (done calls) [
          | some e ↦ stop (canceled e) calls (waits ++ d' ∷ [])
          | none ↦ again (waits ++ d' ∷ [])
        ]

  after_call : ℕ → ℕ → List ℕ → Option E → (List ℕ → Run E) → Run E
  after_call calls retries waits none again = stop (result none) calls waits
  after_call calls retries waits (some err) again = elim (as_flood_wait err) [
    | none ↦ stop (result (some err)) calls waits
    | some d ↦ after_flood calls (suc retries) waits d err again
  ]

  handle_loop : (ℕ → Option E) → ℕ → ℕ → List ℕ → Run E
  handle_loop invoke zero retries waits = stop out_of_fuel retries waits
  handle_loop invoke (suc f) retries waits =
      after_call (suc retries) retries waits (invoke retries)
        (λ waits'. handle_loop invoke f (suc retries) waits')

  -- `Handle`, with `rounds` calls at most. Before each call the retries count the earlier calls.
  unfoldable pub handle : ℕ → (ℕ → Option E) → Run E
  unfolding handle_loop after_call after_flood over exceeds
  handle rounds invoke = handle_loop invoke rounds 0 []
