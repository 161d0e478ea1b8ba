-- ===== src/Flood/Scheduler/Delays.antt =====
-- middleware/floodwait/scheduler.go: the delay of a key under `flood` and `nice`.
use tgcontrib.Base.{
  ℕ, zero, suc, ◌-◌, ◌*◌, ◌≤◌, ◌<◌, ◌≡◌, refl, Bool-cases, inl, inr, none, some, arith, ltb, leb,
  ◌==◌, if◌then◌else◌,
}
use tgcontrib.Flood.Queue.{Request}
use tgcontrib.Flood.Scheduler.{Scheduler, nice, flood, lowered, raised}

rounds_left : (n d v : ℕ) → d < v → v ≤ suc n * d → 0 < n
rounds_left zero d v h p = absurd (omega arith)
rounds_left (suc n) d v h p = omega arith

module _ {P : Type 0} where
  -- After a flood wait the delay of its key is the longest asked for, and no other delay changes.
  pub flood_state :
      (now : ℕ) (s : Scheduler P) (r : Request P) (d j : ℕ)
      → (flood now s r d).state j ≡ (
          if r.key == j
          then elim (s.state r.key) [ none ↦ some d | some v ↦ some (if ltb v d then d else v) ]
          else s.state j)
  unfolding flood raised
  flood_state now s r d j = ground arith

  abbrev pub repeat_nice : ℕ → Scheduler P → ℕ → Scheduler P
  repeat_nice zero s k = s
  repeat_nice (suc n) s k = repeat_nice n (nice s k) k

  nice-none : (s : Scheduler P) (k : ℕ) → s.state k ≡ none → (nice s k).state k ≡ none
  unfolding nice lowered
  nice-none s k e = ground arith

  repeat_nice-none :
      (n : ℕ) (s : Scheduler P) (k : ℕ) → s.state k ≡ none → (repeat_nice n s k).state k ≡ none
  repeat_nice-none zero s k e = e
  repeat_nice-none (suc n) s k e = repeat_nice-none n (nice s k) k (nice-none s k e)

  nice_last :
      (s : Scheduler P) (k v : ℕ) → s.state k ≡ some v → v ≤ s.dec → (nice s k).state k ≡ none
  unfolding nice lowered
  nice_last s k v e h = ground arith

  nice_less :
      (s : Scheduler P) (k v : ℕ)
      → s.state k ≡ some v
      → s.dec < v
      → (nice s k).state k ≡ some (v - s.dec)
  unfolding nice lowered
  nice_less s k v e h = ground arith

  nice-dec : (s : Scheduler P) (k : ℕ) → (nice s k).dec ≡ s.dec
  unfolding nice
  nice-dec s k = refl

  -- A delay of at most n decrements, for a positive n, is gone after n requests of its key that
  -- met no flood wait.
  pub repeat_nice_clears :
      (n : ℕ) (s : Scheduler P) (k v : ℕ)
      → s.state k ≡ some v
      → 0 < n
      → v ≤ n * s.dec
      → (repeat_nice n s k).state k ≡ none
  repeat_nice_clears zero s k v e p h = absurd (omega arith)
  repeat_nice_clears (suc n) s k v e p h = elim (Bool-cases (leb v s.dec)) [
    | inl last ↦ repeat_nice-none n (nice s k) k (nice_last s k v e (ground arith))
    | inr more ↦
        repeat_nice_clears n (nice s k) k (v - s.dec) (nice_less s k v e (ground arith))
          (rounds_left n s.dec v (ground arith) h) (rw (nice-dec s k) (omega arith))
  ]
