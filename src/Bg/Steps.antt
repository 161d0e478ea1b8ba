-- ===== src/Bg/Steps.antt =====
-- bg/connect.go: what a step does to the errors that are received from the channel.
use tgcontrib.Base.{
  ℕ, zero, suc, ◌≡◌, refl, ap, sym, Bool, true, List, [], ◌∷◌, ◌++◌, Option, none, some, inl, inr,
  ◌⊎◌, Option-cases, arith,
}
use tgcontrib.Bg.{
  Channel, empty, holds, closed_full, closed_empty, Runner, starting, inside, returning, ran, sent,
  ended, Connection, selects, gave_up, refused, connected, Connect, end_context, cancel,
  call_function, return_function, return_run, send_error, close, receive, see_context, take_error,
  see_error, see_init, stop_cancel, take_stop,
}

module _ {E : Type 0} where
  abbrev pub AreNone : List (Option E) → Type 0
  AreNone [] = Unit
  AreNone (x ∷ l) = (x ≡ none) × AreNone l

  -- The first is the error `e`, the others are nil.
  abbrev pub Reports : Option E → List (Option E) → Type 0
  Reports e [] = ⊥
  Reports e (x ∷ l) = (x ≡ e) × AreNone l

  -- `Run` has returned the error `e`.
  abbrev pub HasReturned : Option E → Runner E → Type 0
  HasReturned e (ran x) = x ≡ e
  HasReturned e (sent x) = x ≡ e
  HasReturned e (ended x) = x ≡ e
  HasReturned e _ = ⊥

  -- What was received from the channel, where the goroutine is at `r`.
  abbrev pub Flow : Runner E → Channel E → List (Option E) → Type 0
  Flow (sent e) c l = ((c ≡ holds e) × (l ≡ [])) ⊎ ((c ≡ empty) × (l ≡ e ∷ []))
  Flow (ended e) c l = ((c ≡ closed_full e) × (l ≡ [])) ⊎ ((c ≡ closed_empty) × Reports e l)
  Flow _ c l = (c ≡ empty) × (l ≡ [])

  abbrev pub received : Connection E → List (Option E) → List (Option E)
  received (refused e) l = e ∷ l
  received _ l = l

  abbrev pub Link : Connection E → Bool → ℕ → List (Option E) → Type 0
  Link connected b n l = b ≡ true
  Link _ b n l = (n ≡ 0) × (l ≡ [])

  abbrev pub IsSound : Connect E → Type 0
  IsSound s =
      Flow s.runner s.err_c (received s.connection s.stopped)
      × Link s.connection s.init_done s.stopping s.stopped

  abbrev pub After : Option (Connect E) → Type 0
  After none = Unit
  After (some s) = IsSound s

  AreNone-append : (l : List (Option E)) → AreNone l → AreNone (l ++ none ∷ [])
  AreNone-append [] h = (refl, tt)
  AreNone-append (x ∷ l) h = (h.0, AreNone-append l h.1)

  abbrev pub Received : Runner E → List (Option E) → Option (Option E × Channel E) → Type 0
  Received r l none = Unit
  Received r l (some (e, c)) = Flow r c (l ++ e ∷ [])

  pub receive-Received :
      (r : Runner E) (c : Channel E) (l : List (Option E)) → Flow r c l → Received r l (receive c)
  unfolding receive
  receive-Received starting c l h = rw h.0 tt
  receive-Received inside c l h = rw h.0 tt
  receive-Received (returning x) c l h = rw h.0 tt
  receive-Received (ran x) c l h = rw h.0 tt
  receive-Received (sent x) c l (inl h) = rw (h.0, h.1) (inr (refl, refl))
  receive-Received (sent x) c l (inr h) = rw h.0 tt
  receive-Received (ended x) c l (inl h) = rw (h.0, h.1) (inr (refl, (refl, tt)))
  receive-Received (ended x) c [] (inr h) = absurd h.1
  receive-Received (ended x) c (y ∷ l) (inr h) =
      rw h.0 (inr (refl, (h.1.0, AreNone-append l h.1.1)))

  Link-true :
      (k : Connection E) (b : Bool) (n : ℕ) (l : List (Option E)) → Link k b n l → Link k true n l
  Link-true selects b n l h = h
  Link-true (gave_up e) b n l h = h
  Link-true (refused e) b n l h = h
  Link-true connected b n l h = refl

  empty-ne-holds : {e : Option E} → empty ≡ holds e → ⊥
  empty-ne-holds h = cc

  pub refused-ne-connected : {e : Option E} → refused e ≡ connected → ⊥
  refused-ne-connected h = cc

  holds-inj : {e x : Option E} → holds e ≡ holds x → e ≡ x
  holds-inj h = cc

  end_context_there : {x : E} (e : E) (s : Connect E) → s.context ≡ some x → end_context e s ≡ s
  unfolding end_context
  end_context_there e s h = rw h refl

  -- A step of the context changes nothing that is counted.
  pub end_context-cases :
      (e : E) (s : Connect E) → (c : Option E) × (end_context e s ≡ record s { context = c })
  unfolding end_context
  end_context-cases e s = elim (Option-cases s.context) [
    | inl h ↦ (some e, rw h refl)
    | inr h ↦ (s.context, end_context_there e s h.1)
  ]

  pub call_function-After :
      (r : Runner E) (s : Connect E)
      → Flow r s.err_c (received s.connection s.stopped)
      → Link s.connection s.init_done s.stopping s.stopped
      → After (call_function r s)
  unfolding call_function
  call_function-After starting s f k =
      (f, Link-true s.connection s.init_done s.stopping s.stopped k)
  call_function-After _ s f k = tt

module _ {E : Type 0} (is_canceled : E → Bool) where
  pub return_function-After :
      (r : Runner E) (e : Option E) (s : Connect E)
      → Flow r s.err_c (received s.connection s.stopped)
      → Link s.connection s.init_done s.stopping s.stopped
      → After (return_function is_canceled r e s)
  unfolding return_function
  return_function-After inside (some e) s f k = (f, k)
  return_function-After _ e s f k = tt

module _ {E : Type 0} where
  pub return_run-After :
      (r : Runner E) (e : Option E) (s : Connect E)
      → Flow r s.err_c (received s.connection s.stopped)
      → Link s.connection s.init_done s.stopping s.stopped
      → After (return_run r e s)
  unfolding return_run
  return_run-After starting e s f k = (f, k)
  return_run-After inside e s f k = (f, k)
  return_run-After (returning x) e s f k = (f, k)
  return_run-After _ e s f k = tt

  pub send_error-After :
      (r : Runner E) (c : Channel E) (s : Connect E)
      → Flow r c (received s.connection s.stopped)
      → Link s.connection s.init_done s.stopping s.stopped
      → After (send_error r c s)
  unfolding send_error
  send_error-After (ran e) empty s f k = (inl (refl, f.1), k)
  send_error-After _ c s f k = tt

  pub close-After :
      (r : Runner E) (c : Channel E) (s : Connect E)
      → Flow r c (received s.connection s.stopped)
      → Link s.connection s.init_done s.stopping s.stopped
      → After (close r c s)
  unfolding close
  close-After (sent e) empty s (inl f) k = absurd (empty-ne-holds f.0)
  close-After (sent e) empty s (inr f) k = (inr (refl, rw f.1 (refl, tt)), k)
  close-After (sent e) (holds x) s (inl f) k = (inl (ap closed_full (holds-inj f.0), f.1), k)
  close-After (sent e) (holds x) s (inr f) k = absurd (empty-ne-holds (sym f.0))
  close-After _ c s f k = tt

  pub see_init-After :
      (c : Connection E) (b : Bool) (s : Connect E)
      → Flow s.runner s.err_c (received c s.stopped)
      → Link c b s.stopping s.stopped
      → s.init_done ≡ b
      → After (see_init c b s)
  unfolding see_init
  see_init-After selects true s f k h = (f, h)
  see_init-After _ b s f k h = tt

  pub take_stop-After :
      (c : Connection E) (n : ℕ) (r : Option (Option E × Channel E)) (s : Connect E)
      → Received s.runner (received c s.stopped) r
      → Link c s.init_done n s.stopped
      → s.connection ≡ c
      → After (take_stop n r s)
  unfolding take_stop
  take_stop-After c zero r s f k h = tt
  take_stop-After c (suc n) none s f k h = tt
  take_stop-After connected (suc n) (some (e, c)) s f k h = rw h (f, k)
  take_stop-After selects (suc n) (some x) s f k h = absurd (omega (arith, k.0))
  take_stop-After (gave_up e) (suc n) (some x) s f k h = absurd (omega (arith, k.0))
  take_stop-After (refused e) (suc n) (some x) s f k h = absurd (omega (arith, k.0))

module _ {E : Type 0} (canceled : E) where
  pub cancel-cases :
      (s : Connect E) → (c : Option E) × (cancel canceled s ≡ record s { context = c })
  unfolding cancel
  cancel-cases s = end_context-cases canceled s

  pub see_context-After :
      (c : Connection E) (e : Option E) (s : Connect E)
      → Flow s.runner s.err_c (received c s.stopped)
      → Link c s.init_done s.stopping s.stopped
      → After (see_context canceled c e s)
  unfolding see_context
  see_context-After selects (some e) s f k = rw ((cancel-cases s).1) (f, k)
  see_context-After _ e s f k = tt

  take_error-After :
      (r : Option (Option E × Channel E)) (s : Connect E)
      → Received s.runner [] r
      → s.stopping ≡ 0
      → s.stopped ≡ []
      → After (take_error canceled r s)
  unfolding take_error
  take_error-After none s f n l = tt
  take_error-After (some (e, c)) s f n l = rw ((cancel-cases s).1, l) (f, (n, refl))

  pub see_error-After :
      (c : Connection E) (s : Connect E)
      → Flow s.runner s.err_c (received c s.stopped)
      → Link c s.init_done s.stopping s.stopped
      → After (see_error canceled c s)
  unfolding see_error
  see_error-After selects s f k =
      take_error-After (receive s.err_c) s (receive-Received s.runner s.err_c [] (rw (← k.1) f)) k.0
        k.1
  see_error-After _ s f k = tt

  pub stop_cancel-After :
      (c : Connection E) (s : Connect E)
      → Flow s.runner s.err_c (received c s.stopped)
      → Link c s.init_done s.stopping s.stopped
      → s.connection ≡ c
      → After (stop_cancel canceled c s)
  unfolding stop_cancel
  stop_cancel-After connected s f k h = rw (cancel-cases s).1 (rw h (f, k))
  stop_cancel-After _ s f k h = tt
