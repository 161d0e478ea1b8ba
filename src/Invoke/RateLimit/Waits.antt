-- ===== src/Invoke/RateLimit/Waits.antt =====
-- middleware/ratelimit/ratelimit.go: which calls go on, and what they take of the limiter.
use tgcontrib.Base.{
  ℕ, ◌≡◌, ◌≢◌, ◌⊎◌, inl, inr, refl, sym, ap, true, false, Option, none, some, Bool-cases, ◌==◌,
  ==_iff,
}
use tgcontrib.Invoke.RateLimit.{
  Limiter, Race, fires, context_ends, Call, WaitError, context_error, no_burst, deadline_exceeded,
  too_late, raced, reserved, started, wait, invoked, handle,
}

-- Why a call goes on: its turn is now, or the timer fires and the deadline is no earlier.
abbrev pub GoesOn : Call → ℕ → Type 0
GoesOn c delay = (delay ≡ 0) ⊎ ((too_late delay c.until_deadline ≡ false) × (c.race ≡ fires))

-- Why a call waits for its timer: its turn is later, and the deadline is no earlier.
abbrev pub Waits : {L : Type 0} → Limiter L → Call → L → ℕ → Type 0
Waits limiter c l delay =
    (c.ended ≡ none)
    × ((limiter.reserve c.now l).1 ≡ some delay)
    × (delay ≢ 0)
    × (too_late delay c.until_deadline ≡ false)

-- What a wait leaves of the limiter, by its error: a context that had ended takes nothing, one that
-- ends before the timer cancels the reservation, and in all other cases the reservation stays.
abbrev pub Taken : {L : Type 0} → Limiter L → Call → L → L × Option WaitError → Type 0
Taken limiter c l (l', none) =
    (c.ended ≡ none)
    × (l' ≡ (limiter.reserve c.now l).0)
    × ((delay : ℕ) × ((limiter.reserve c.now l).1 ≡ some delay) × GoesOn c delay)
Taken limiter c l (l', some (context_error e)) =
    ((c.ended ≡ some e) × (l' ≡ l))
    ⊎ ((delay : ℕ) × (t : ℕ) × Waits limiter c l delay
        × (c.race ≡ context_ends t e)
        × (l' ≡ limiter.cancel c.now delay t (limiter.reserve c.now l).0))
Taken limiter c l (l', some no_burst) =
    (c.ended ≡ none) × (l' ≡ (limiter.reserve c.now l).0) × ((limiter.reserve c.now l).1 ≡ none)
Taken limiter c l (l', some deadline_exceeded) =
    (c.ended ≡ none)
    × (l' ≡ (limiter.reserve c.now l).0)
    × ((delay : ℕ) × ((limiter.reserve c.now l).1 ≡ some delay)
        × (delay ≢ 0)
        × (too_late delay c.until_deadline ≡ true))

module _ {L : Type 0} (limiter : Limiter L) (c : Call) (l : L) (open_context : c.ended ≡ none) where
  raced-Taken :
      (delay : ℕ) (r : Race)
      → Waits limiter c l delay
      → c.race ≡ r
      → Taken limiter c l (raced limiter c delay (limiter.reserve c.now l).0 r)
  unfolding raced
  raced-Taken delay fires (o, h, z, n) e = (open_context, refl, (delay, h, inr (n, e)))
  raced-Taken delay (context_ends t x) w e = inr (delay, t, w, e, refl)

  reserved-Taken :
      (r : L × Option ℕ) → limiter.reserve c.now l ≡ r → Taken limiter c l (reserved limiter c r)
  unfolding reserved
  reserved-Taken (l', none) e = (open_context, sym (ap (λ z. z.0) e), ap (λ z. z.1) e)
  reserved-Taken (l', some delay) e =
      let left : (limiter.reserve c.now l).0 ≡ l' = ap (λ z. z.0) e in
      let got : (limiter.reserve c.now l).1 ≡ some delay = ap (λ z. z.1) e in
      elim (Bool-cases (delay == 0)) [
        | inl z ↦ rw z (open_context, sym left, (delay, got, inl ((==_iff delay 0).0 z)))
        | inr z ↦
            let later : delay ≢ 0 = λ q. cc (z, (==_iff delay 0).1 q) in
            elim (Bool-cases (too_late delay c.until_deadline)) [
              | inl late ↦ rw (z, late) (open_context, sym left, (delay, got, later, late))
              | inr soon ↦
                  rw (z, soon, ← left)
                    (raced-Taken delay c.race (open_context, got, later, soon) refl)
            ]
      ]

-- The invoker is called when the wait reports no error, and only then.
abbrev pub Called : {W R : Type 0} → (W → W × R) → W → Option WaitError → W → Option R → Type 0
Called next w none w' r = (w' ≡ (next w).0) × (r ≡ some (next w).1)
Called next w (some e) w' r = (w' ≡ w) × (r ≡ none)

module _ {L : Type 0} (limiter : Limiter L) where
  started-Taken :
      (c : Call) (l : L) (o : Option ℕ) → c.ended ≡ o → Taken limiter c l (started limiter c l o)
  unfolding started
  started-Taken c l (some e) h = inl (h, refl)
  started-Taken c l none h = reserved-Taken limiter c l h (limiter.reserve c.now l) refl

  invoked-Called :
      {W R : Type 0} (next : W → W × R) (w : W) (c : Call) (l : L) (r : L × Option WaitError)
      → Taken limiter c l r
      → Taken limiter c l ((invoked limiter next w r).0, (invoked limiter next w r).2)
        × Called next w
            (invoked limiter next w r).2
            (invoked limiter next w r).1
            (invoked limiter next w r).3
  unfolding invoked
  invoked-Called next w c l (l', none) h = (h, (refl, refl))
  invoked-Called next w c l (l', some e) h = (h, (refl, refl))

  -- A call reaches the invoker exactly where its wait reports no error, which means that its
  -- context has not ended, and its delay is zero, or does not pass the deadline and the timer
  -- fires first; it has then made one reservation. A call whose context had ended leaves the
  -- limiter as it was; one whose context ends before the timer has made a reservation and
  -- cancelled it, at the time at which the context ends; one that is refused, or whose delay
  -- passes the deadline, has made a reservation and cancels nothing.
  pub handle-Taken :
      {W R : Type 0} (next : W → W × R) (c : Call) (l : L) (w : W)
      → Taken limiter c l ((handle limiter next c l w).0, (handle limiter next c l w).2)
        × Called next w
            (handle limiter next c l w).2
            (handle limiter next c l w).1
            (handle limiter next c l w).3
  unfolding handle wait
  handle-Taken next c l w =
      invoked-Called next w c l (wait limiter c l) (started-Taken c l c.ended refl)
