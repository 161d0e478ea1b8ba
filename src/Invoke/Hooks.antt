-- ===== src/Invoke/Hooks.antt =====
-- invoker/update.go and invoker/debug.go.
use tgcontrib.Base.{ℕ, List, [], ◌∷◌, ◌++◌, Option, none, some, Bytes}
use tgcontrib.Base.Text.{codes}

-- What `UpdateHook.Handle` returns.
pub data HookError : Type 0 where
  invoke_failed hook_failed : ℕ → HookError

-- `hook` on the updates, where the output is a `tg.UpdatesBox`
module _ {W U : Type 0} (next : W → W × Option ℕ) (output : W → Option U)
    (hook : U → W → W × Option ℕ) where
  hooked : W × Option ℕ → W × Option HookError
  hooked (w, none) = (w, none)
  hooked (w, some e) = (w, some (hook_failed e))

  with_output : W → Option U → W × Option HookError
  unfolding hooked
  with_output w none = (w, none)
  with_output w (some u) = hooked (hook u w)

  after_next : W × Option ℕ → W × Option HookError
  unfolding with_output
  after_next (w, some e) = (w, some (invoke_failed e))
  after_next (w, none) = with_output w (output w)

  unfoldable pub handle : W → W × Option HookError
  unfolding after_next
  handle w = after_next (next w)

-- `Debug`: the errors that are joined. `print_input`, `print_error` and `print_output` write to the
-- output, which a new Debug does not have: `none` is the panic of a write to it.
module _ {W : Type 0} (next : W → W × Option ℕ)
    (print_input print_output : W → Option (W × Option ℕ))
    (print_error : ℕ → W → Option (W × Option ℕ)) where
  errors : Option ℕ → List ℕ
  errors none = []
  errors (some e) = e ∷ []

  printed : List ℕ → Option (W × Option ℕ) → Option (W × List ℕ)
  unfolding errors
  printed es none = none
  printed es (some (w, e)) = some (w, es ++ errors e)

  answered : Option ℕ → W × Option ℕ → Option (W × List ℕ)
  unfolding printed errors
  answered r (w, some e) = printed (errors r ++ e ∷ []) (print_error e w)
  answered r (w, none) = printed (errors r) (print_output w)

  started : Option (W × Option ℕ) → Option (W × List ℕ)
  unfolding answered
  started none = none
  started (some (w, r)) = answered r (next w)

  unfoldable pub invoke : W → Option (W × List ℕ)
  unfolding started
  invoke w = started (print_input w)

-- What `formatObject` meets: an object of Telegram with its text, or a structure by what its fields
-- hold, with the name of its type.
pub data Shown : Type 0 where
  object : Bytes → Shown
  structure : List (Option Bytes) → Bytes → Shown

first_object : List (Option Bytes) → Bytes → Bytes
first_object [] name = name ++ codes " (not object)"
first_object (some t ∷ l) name = t
first_object (none ∷ l) name = first_object l name

-- `formatObject`
unfoldable pub format_object : Shown → Bytes
unfolding first_object
format_object (object t) = t
format_object (structure l name) = first_object l name
