-- ===== src/Invoke/Otel/Trace.antt =====
-- oteltg/middleware.go: what a call leaves in the trace.
use tgcontrib.Base.{◌≡◌, refl, Bool, true, false, List, [], ◌∷◌, ◌++◌, Option, none, some, Bytes}
use tgcontrib.Base.Decimal.{append_int}
use tgcontrib.Base.Text.{codes}
use tgcontrib.Invoke.Prom.{InvokeError, rpc, client}
use tgcontrib.Invoke.Otel.{
  Attributes, Event, span_started, counted, recorded, failure_counted, span_ended, attributes,
  span_name, error_attributes, error_status, after_call, handle,
}

-- The attributes of the events that count a call, and of those that count a failure.
abbrev pub counts : List Event → List Attributes
counts [] = []
counts (counted a ∷ es) = a ∷ counts es
counts (x ∷ es) = counts es

abbrev pub failure_counts : List Event → List Attributes
failure_counts [] = []
failure_counts (failure_counted a ∷ es) = a ∷ failure_counts es
failure_counts (x ∷ es) = failure_counts es

abbrev pub durations : List Event → List Attributes
durations [] = []
durations (recorded a ∷ es) = a ∷ durations es
durations (x ∷ es) = durations es

abbrev pub ended_last : List Event → Bool
ended_last [] = false
ended_last (span_ended ∷ []) = true
ended_last (span_ended ∷ x ∷ es) = false
ended_last (x ∷ es) = ended_last es

-- The failures that an answer counts: one, with the type of an error of Telegram, or none.
abbrev pub failures_of : Attributes → Option InvokeError → List Attributes
failures_of a none = []
failures_of a (some (rpc type code)) =
    (a ++ (codes "tg.rpc.err", type) ∷ (codes "tg.rpc.code", append_int code) ∷ []) ∷ []
failures_of a (some (client e)) = (a ++ (codes "tg.rpc.err", codes "CLIENT") ∷ []) ∷ []

-- A trace of one call with the attributes `a` and the answer `r`.
pub record Traces (a : Attributes) (r : Option InvokeError) (trace : List Event) : Type 0 where
  pub counted_once : counts trace ≡ a ∷ []
  pub timed_once : durations trace ≡ a ∷ []
  pub failures : failure_counts trace ≡ failures_of a r
  pub ended : ended_last trace ≡ true

after_call-Traces :
    (n : Bytes) (a : Attributes) (r : Option InvokeError)
    → Traces a r (span_started n a ∷ counted a ∷ (recorded a ∷ (after_call a r ++ span_ended ∷ [])))
unfolding after_call error_attributes error_status
after_call-Traces n a none = record {
  counted_once = refl;
  timed_once = refl;
  failures = refl;
  ended = refl;
}
after_call-Traces n a (some (rpc type code)) = record {
  counted_once = refl;
  timed_once = refl;
  failures = refl;
  ended = refl;
}
after_call-Traces n a (some (client e)) = record {
  counted_once = refl;
  timed_once = refl;
  failures = refl;
  ended = refl;
}

-- The tracing middleware returns what the invoker answers, and the trace counts the call and
-- its time once with the attributes of the input, counts a failure once where there is an error
-- and never otherwise, with the type and code of an error of Telegram, and ends the span last.
pub handle-Traces :
    {W : Type 0} (next : W → W × Option InvokeError) (input : Option Bytes) (w : W)
    → ((handle next input w).0 ≡ (next w).0)
      × ((handle next input w).1 ≡ (next w).1)
      × Traces (attributes input) (next w).1 (handle next input w).2
unfolding handle
handle-Traces next input w = (
  refl,
  refl,
  after_call-Traces (span_name (codes "tg.rpc") (attributes input)) (attributes input) (next w).1,
)
