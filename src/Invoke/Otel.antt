-- ===== src/Invoke/Otel.antt =====
-- oteltg/middleware.go. The calls of the meters and of the span are the trace of the middleware.
pub mod Trace
use tgcontrib.Base.{ℕ, Bool, List, [], ◌∷◌, ◌++◌, Option, none, some, if◌then◌else◌, Bytes}
use tgcontrib.Base.Int.{ℤ}
use tgcontrib.Base.Decimal.{append_int}
use tgcontrib.Base.Text.{codes, equal}
use tgcontrib.Invoke.Prom.{InvokeError, rpc, client}

abbrev pub Attributes : Type 0
Attributes = List (Bytes × Bytes)

pub data Status : Type 0 where
  status_ok rpc_error internal_error : Status

pub data Event : Type 0 where
  span_started : Bytes → Attributes → Event
  counted recorded failure_counted error_recorded : Attributes → Event
  status_set : Status → Event
  span_ended : Event

abbrev pub method_key : Bytes
method_key = codes "tg.method"

-- `attributes`; `none` is an input without a type name
unfoldable pub attributes : Option Bytes → Attributes
attributes none = []
attributes (some name) = (method_key, name) ∷ []

-- the loop that makes the name of the span
unfoldable pub span_name : Bytes → Attributes → Bytes
span_name s [] = s
span_name s ((k, v) ∷ rest) =
    span_name (if equal k method_key then s ++ (codes ": " ++ v) else s) rest

pub error_attributes : InvokeError → Attributes
error_attributes (rpc type code) =
    (codes "tg.rpc.err", type) ∷ (codes "tg.rpc.code", append_int code) ∷ []
error_attributes (client e) = (codes "tg.rpc.err", codes "CLIENT") ∷ []

pub error_status : InvokeError → Status
error_status (rpc type code) = rpc_error
error_status (client e) = internal_error

-- what is observed of the answer
pub after_call : Attributes → Option InvokeError → List Event
unfolding error_attributes error_status
after_call attrs none = status_set status_ok ∷ []
after_call attrs (some e) =
    status_set (error_status e)
    ∷ error_recorded (error_attributes e)
    ∷ failure_counted (attrs ++ error_attributes e)
    ∷ []

-- `Handle`: the state of the invoker, the error that is returned, and the trace. The span is ended
-- when the call returns.
unfoldable pub handle :
    {W : Type 0}
    → (W → W × Option InvokeError)
    → Option Bytes
    → W
    → W × Option InvokeError × List Event
unfolding after_call
handle next input w =
    let attrs = attributes input in
    let name = span_name (codes "tg.rpc") attrs in
    let (w', r) = next w in
    (
      w',
      r,
      span_started name attrs
          ∷ counted attrs
          ∷ (recorded attrs ∷ (after_call attrs r ++ span_ended ∷ [])),
    )

-- `New`: the three instruments in their order, each made or an error.
pub data Made : Type 0 where
  made : Made
  not_made : ℕ → Made

unfoldable pub new : (Bytes → Made) → Option ℕ
new instrument = elim (instrument (codes "tg.rpc.count")) [
  | not_made e ↦ some e
  | made ↦ elim (instrument (codes "tg.rpc.failures")) [
    | not_made e ↦ some e
    | made ↦ elim (instrument (codes "tg.rpc.duration")) [ not_made e ↦ some e | made ↦ none ]
  ]
]
