-- ===== src/Invoke/Prom/Counts.antt =====
-- middleware/tg_prom/middleware.go: what is counted.
use tgcontrib.Base.{
  ℕ, ◌≡◌, refl, ap, ◌∙◌, Bool, true, false, ◌&&◌, List, [], ◌∷◌, Option, none, some, ◌==◌,
  if◌then◌else◌, length, Bytes,
}
use tgcontrib.Base.Int.{ℤ}
use tgcontrib.Base.Text.{equal}
use tgcontrib.Invoke.Prom.{
  InvokeError, rpc, client, Labels, count, failures, duration, incremented, observed, label_method,
  names, labels, failure_labels, Handled, returned, panics, failed, observe, handle,
}

abbrev pub named : Bytes → Labels → Bool
named n [] = false
named n ((m, v) ∷ ls) = if equal m n then true else named n ls

abbrev pub all_named : List Bytes → Labels → Bool
all_named [] ls = true
all_named (n ∷ ns) ls = named n ls && all_named ns ls

-- What Prometheus documents: the label set has the names of the vector and no other.
abbrev pub IsValid : (List Bytes → Labels → Bool) → Type 0
IsValid valid =
    (ns : List Bytes) (ls : Labels) → valid ns ls ≡ (length ns == length ls && all_named ns ls)

-- What a call on an input with a type name does, by the invoker's answer: it is counted and
-- observed once, its answer is returned, no failure is counted, and an error that is not one of
-- Telegram panics, since its label set has no code.
abbrev pub outcome : {W : Type 0} → Bytes → W × Option InvokeError → Handled W
outcome name (w, some (client e)) = panics w (
    incremented count ((label_method, name) ∷ [])
    ∷ observed duration ((label_method, name) ∷ [])
    ∷ [])
outcome name (w, r) = returned w r (
    incremented count ((label_method, name) ∷ [])
    ∷ observed duration ((label_method, name) ∷ [])
    ∷ [])

module _ {W : Type 0} (valid : List Bytes → Labels → Bool) (next : W → W × Option InvokeError)
    (laws : IsValid valid) where
  method_valid : (name : Bytes) → valid (names count) (labels (some name)) ≡ true
  unfolding labels
  method_valid name = laws (names count) (labels (some name))

  rpc_valid :
      (name type : Bytes) (code : ℤ)
      → valid (names failures) (failure_labels (labels (some name)) (rpc type code)) ≡ true
  unfolding labels failure_labels
  rpc_valid name type code =
      laws (names failures) (failure_labels (labels (some name)) (rpc type code))

  client_invalid :
      (name : Bytes) (e : ℕ)
      → valid (names failures) (failure_labels (labels (some name)) (client e)) ≡ false
  unfolding labels failure_labels
  client_invalid name e = laws (names failures) (failure_labels (labels (some name)) (client e))

  no_method_invalid : valid (names count) (labels none) ≡ false
  unfolding labels
  no_method_invalid = laws (names count) (labels none)

  observe-outcome :
      (name : Bytes) (r : W × Option InvokeError)
      → observe valid next (labels (some name)) (incremented count (labels (some name)) ∷ []) r
        ≡ outcome name r
  unfolding observe failed labels
  observe-outcome name (w, none) = rw (method_valid name) refl
  observe-outcome name (w, some (rpc type code)) =
      rw (method_valid name, rpc_valid name type code) refl
  observe-outcome name (w, some (client e)) = rw (method_valid name, client_invalid name e) refl

  -- With vectors that take exactly the label sets with their names: a call on an input with a
  -- type name reaches the invoker, is counted and observed once and returns the answer, and no
  -- failure is counted; an error that is not one of Telegram panics instead of being returned.
  -- A call on an input without a type name panics before the invoker is called.
  pub handle-outcome :
      (w : W)
      → ((name : Bytes) → handle valid next (some name) w ≡ outcome name (next w))
        × (handle valid next none w ≡ panics w [])
  unfolding handle
  handle-outcome w = (
    λ name.
        ap
          (λ b.
            if b
            then observe valid next (labels (some name))
                (incremented count (labels (some name)) ∷ []) (next w)
            else panics w [])
          (method_valid name)
        ∙ observe-outcome name (next w),
    rw no_method_invalid refl,
  )
