-- ===== src/Invoke/Prom.antt =====
-- middleware/tg_prom/middleware.go. A label set is a list of names and values; `valid` says whether
-- a vector with the given label names takes a label set, and `With` panics where it does not.
-- The calls of the vectors are the trace of the middleware.
pub mod Counts
use tgcontrib.Base.{
  ℕ, Bool, true, false, ◌&&◌, List, [], ◌∷◌, ◌++◌, Option, none, some, if◌then◌else◌, Bytes,
}
use tgcontrib.Base.Int.{ℤ}
use tgcontrib.Base.Decimal.{append_int}
use tgcontrib.Base.Text.{codes}

-- `tgerr.Error` by its type and code, and the other errors by a number
pub data InvokeError : Type 0 where
  rpc : Bytes → ℤ → InvokeError
  client : ℕ → InvokeError

abbrev pub Labels : Type 0
Labels = List (Bytes × Bytes)

pub data Vec : Type 0 where
  count failures duration : Vec

pub data Event : Type 0 where
  incremented observed : Vec → Labels → Event

abbrev pub label_err_type : Bytes
label_err_type = codes "tg_err_type"

abbrev pub label_err_code : Bytes
label_err_code = codes "tg_err_code"

abbrev pub label_method : Bytes
label_method = codes "tg_method"

-- the label names that `New` gives the vectors
abbrev pub names : Vec → List Bytes
names failures = label_method ∷ label_err_code ∷ label_err_type ∷ []
names _ = label_method ∷ []

-- `labels`; `none` is an input without a type name
unfoldable pub labels : Option Bytes → Labels
labels none = []
labels (some name) = (label_method, name) ∷ []

unfoldable pub failure_labels : Labels → InvokeError → Labels
failure_labels ls (rpc type code) =
    ls ++ (label_err_type, type) ∷ (label_err_code, append_int code) ∷ []
failure_labels ls (client e) = ls ++ (label_err_type, codes "CLIENT") ∷ []

-- What a call does: the state of the invoker, the error that is returned, and the trace.
pub data Handled (W : Type 0) : Type 0 where
  returned : W → Option InvokeError → List Event → Handled W
  panics : W → List Event → Handled W

module _ {W : Type 0} (valid : List Bytes → Labels → Bool) (next : W → W × Option InvokeError) where
  pub failed : Labels → W → InvokeError → List Event → Handled W
  failed ls w e trace =
      if valid (names failures) (failure_labels ls e)
      then returned w (some e) trace
      else panics w trace

  pub observe : Labels → List Event → W × Option InvokeError → Handled W
  unfolding failed
  observe ls trace (w, r) =
      if valid (names duration) ls
      then elim r [
        | none ↦ returned w none (trace ++ observed duration ls ∷ [])
        | some e ↦ failed ls w e (trace ++ observed duration ls ∷ [])
      ]
      else panics w trace

  -- `Handle`
  unfoldable pub handle : Option Bytes → W → Handled W
  unfolding observe
  handle input w =
      let ls = labels input in
      if valid (names count) ls
      then observe ls (incremented count ls ∷ []) (next w)
      else panics w []
