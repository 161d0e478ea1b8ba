-- ===== src/Bg/Stops.antt =====
-- bg/connect.go: what the calls of the returned function give.
use tgcontrib.Base.{
  ℕ, ◌≡◌, refl, Bool, true, List, [], ◌∷◌, ◌++◌, Option, none, some, inl, inr, ◌⊎◌,
}
use tgcontrib.Bg.{
  Channel, Runner, starting, inside, returning, ran, sent, ended, Connection, selects, gave_up,
  refused, connected, Connect, connect, Event, parent_ends, run_calls, function_returns,
  run_returns, sends, closes, sees_context, sees_error, sees_init, stop_cancels, stop_receives,
  receive, step, run,
}
use tgcontrib.Bg.Steps.{
  Reports, HasReturned, Flow, received, Link, IsSound, After, receive-Received, end_context-cases,
  call_function-After, return_function-After, return_run-After, send_error-After, close-After,
  see_init-After, take_stop-After, see_context-After, see_error-After, stop_cancel-After,
}

module _ {E : Type 0} where
  After-then :
      (o : Option (Connect E)) (f : Connect E → Option (Connect E))
      → After o
      → ((s : Connect E) → IsSound s → After (f s))
      → After (elim o [ none ↦ none | some s ↦ f s ])
  After-then none f h g = tt
  After-then (some s) f h g = g s h

  some_inj : {s t : Connect E} → some s ≡ some t → s ≡ t
  some_inj h = cc

  none-ne-some : {t : Connect E} → none ≡ some t → ⊥
  none-ne-some h = cc

  After-some : {o : Option (Connect E)} {t : Connect E} → After o → o ≡ some t → IsSound t
  After-some {o = none} h r = absurd (none-ne-some r)
  After-some {o = some s} h r = rw (← some_inj r) h

  told-Flow :
      (r : Runner E) (c : Channel E) {l : List (Option E)}
      → Flow r c l
      → (l ≡ []) ⊎ ((e : Option E) × HasReturned e r × Reports e l)
  told-Flow starting c f = inl f.1
  told-Flow inside c f = inl f.1
  told-Flow (returning x) c f = inl f.1
  told-Flow (ran x) c f = inl f.1
  told-Flow (sent x) c (inl f) = inl f.1
  told-Flow (sent x) c (inr f) = inr (x, refl, rw f.1 (refl, tt))
  told-Flow (ended x) c (inl f) = inl f.1
  told-Flow (ended x) c (inr f) = inr (x, refl, f.1)

  told_connected :
      (r : Runner E) {k : Connection E} {b : Bool} {l : List (Option E)}
      → k ≡ connected
      → (l ≡ []) ⊎ ((e : Option E) × HasReturned e r × Reports e l)
      → b ≡ true
      → (l ≡ []) ⊎ ((k ≡ connected) × (b ≡ true) × (e : Option E) × HasReturned e r × Reports e l)
  told_connected r k (inl h) b = inl h
  told_connected r k (inr (x, h, g)) b = inr (k, b, x, h, g)

  told :
      (r : Runner E) (k : Connection E) (c : Channel E) (b : Bool) (n : ℕ) {l : List (Option E)}
      → Flow r c (received k l)
      → Link k b n l
      → (l ≡ []) ⊎ ((k ≡ connected) × (b ≡ true) × (e : Option E) × HasReturned e r × Reports e l)
  told r connected c b n f h = told_connected r refl (told-Flow r c f) h
  told r selects c b n f h = inl h.1
  told r (gave_up e) c b n f h = inl h.1
  told r (refused e) c b n f h = inl h.1

  -- The events that are returning to the goroutine where `Run` returns `e`.
  abbrev pub rest : Runner E → Option E → List (Event E)
  rest (ran x) e = sends ∷ []
  rest (sent x) e = closes ∷ []
  rest (ended x) e = []
  rest _ e = run_returns e ∷ sends ∷ []

  -- One more call has returned, and `n` are waiting.
  abbrev pub Stops : ℕ → List (Option E) → Option (Connect E) → Type 0
  Stops n l none = ⊥
  Stops n l (some s) = (s.stopping ≡ n) × (x : Option E) × (s.stopped ≡ l ++ x ∷ [])

module _ {E : Type 0} (canceled : E) (is_canceled : E → Bool) where
  step-After : (e : Event E) (s : Connect E) → IsSound s → After (step canceled is_canceled e s)
  unfolding step
  step-After (parent_ends e) s (f, k) = rw (end_context-cases e s).1 (f, k)
  step-After run_calls s (f, k) = call_function-After s.runner s f k
  step-After function_returns s (f, k) = return_function-After is_canceled s.runner s.context s f k
  step-After (run_returns e) s (f, k) = return_run-After s.runner e s f k
  step-After sends s (f, k) = send_error-After s.runner s.err_c s f k
  step-After closes s (f, k) = close-After s.runner s.err_c s f k
  step-After sees_context s (f, k) = see_context-After canceled s.connection s.context s f k
  step-After sees_error s (f, k) = see_error-After canceled s.connection s f k
  step-After sees_init s (f, k) = see_init-After s.connection s.init_done s f k refl
  step-After stop_cancels s (f, k) = stop_cancel-After canceled s.connection s f k refl
  step-After stop_receives s (f, k) =
      take_stop-After s.connection s.stopping (receive s.err_c) s
        (receive-Received s.runner s.err_c (received s.connection s.stopped) f) k refl

  run-After :
      (es : List (Event E)) (s : Connect E) → IsSound s → After (run canceled is_canceled es s)
  unfolding run
  run-After [] s h = h
  run-After (e ∷ es) s h =
      After-then (step canceled is_canceled e s) (run canceled is_canceled es) (step-After e s h)
        (λ s' h'. run-After es s' h')

  connect-IsSound : IsSound {E = E} connect
  unfolding connect
  connect-IsSound = ((refl, refl), (refl, refl))

  -- After any events of the background client: either no call of the function that Connect
  -- returns has come back from the channel, or the client was connected and its Run has
  -- returned, the first of these calls to receive gave the error of Run, and every other one
  -- gave nil.
  pub stopped-Reports :
      (es : List (Event E)) (s : Connect E)
      → run canceled is_canceled es connect ≡ some s
      → (s.stopped ≡ [])
        ⊎ ((s.connection ≡ connected)
            × (s.init_done ≡ true)
            × (e : Option E) × HasReturned e s.runner
            × Reports e s.stopped)
  stopped-Reports es s r =
      let (f, k) = After-some (run-After es connect connect-IsSound) r in
      told s.runner s.connection s.err_c s.init_done s.stopping f k
