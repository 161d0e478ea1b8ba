-- ===== src/Invoke/RateLimit.antt =====
-- middleware/ratelimit/ratelimit.go.
-- The limiter (golang.org/x/time/rate) is a parameter, as are the context and the timer.
pub mod Waits
use tgcontrib.Base.{
  ℕ, Bool, true, false, List, [], ◌∷◌, Option, none, some, ltb, ◌==◌, if◌then◌else◌, Bytes,
}
use tgcontrib.Base.Int.{ℤ, ◌+ℤ◌}
use tgcontrib.Base.Text.{codes}

-- `rate.Limiter`, on its state `L`. `reserve` gives the delay of a reservation, or none where the
-- burst is no more than zero; `cancel` is `CancelAt` of the reservation that was made at the first
-- time with the delay, at the second time.
pub record Limiter (L : Type 0) : Type 0 where
  pub reserve : ℕ → L → L × Option ℕ
  pub cancel : ℕ → ℕ → ℕ → L → L

-- What a call meets: the error of a context that has ended before, the time to its deadline, and
-- whether the timer fires or the context ends first, at a time and with an error.
pub data Race : Type 0 where
  fires : Race
  context_ends : ℕ → ℕ → Race

pub record Call : Type 0 where
  pub ended : Option ℕ
  pub now : ℕ
  pub until_deadline : Option ℕ
  pub race : Race

pub data WaitError : Type 0 where
  context_error : ℕ → WaitError
  no_burst deadline_exceeded : WaitError

-- `delay > time.Until(deadline)`, where there is a deadline
abbrev pub too_late : ℕ → Option ℕ → Bool
too_late delay none = false
too_late delay (some left) = ltb left delay

module _ {L : Type 0} (limiter : Limiter L) where
  pub raced : Call → ℕ → L → Race → L × Option WaitError
  raced c delay l fires = (l, none)
  raced c delay l (context_ends t e) = (limiter.cancel c.now delay t l, some (context_error e))

  pub reserved : Call → L × Option ℕ → L × Option WaitError
  unfolding raced
  reserved c (l, none) = (l, some no_burst)
  reserved c (l, some delay) =
      if delay == 0
      then (l, none)
      else if too_late delay c.until_deadline
      then (l, some deadline_exceeded)
      else raced c delay l c.race

  pub started : Call → L → Option ℕ → L × Option WaitError
  unfolding reserved
  started c l (some e) = (l, some (context_error e))
  started c l none = reserved c (limiter.reserve c.now l)

  -- `wait`
  unfoldable pub wait : Call → L → L × Option WaitError
  unfolding started
  wait c l = started c l c.ended

  -- `Handle`: `next` is the invoker, on its state `W`. The result is the error of the wait, or what
  -- the invoker returned.
  pub invoked :
      {W R : Type 0} → (W → W × R) → W → L × Option WaitError → L × W × Option WaitError × Option R
  invoked next w (l, some e) = (l, w, some e, none)
  invoked next w (l, none) = let (w', r) = next w in (l, w', none, some r)

  unfoldable pub handle :
      {W R : Type 0} → (W → W × R) → Call → L → W → L × W × Option WaitError × Option R
  unfolding invoked
  handle next c l w = invoked next w (wait c l)

-- The rate limiter with its clock and its limiter, which `rate.NewLimiter` makes of a rate and a
-- burst.
pub record RateLimiter (C L : Type 0) : Type 0 where
  pub clock : C
  pub lim : L

module _ {C L : Type 0} where
  unfoldable pub new_rate_limiter : {R : Type 0} → C → (R → ℤ → L) → R → ℤ → RateLimiter C L
  new_rate_limiter system new_limiter r b = record { clock = system; lim = new_limiter r b }

  unfoldable pub clone : RateLimiter C L → RateLimiter C L
  clone l = record { clock = l.clock; lim = l.lim }

  unfoldable pub with_clock : RateLimiter C L → C → RateLimiter C L
  unfolding clone
  with_clock l c = record (clone l) { clock = c }
