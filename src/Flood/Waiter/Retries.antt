-- ===== src/Flood/Waiter/Retries.antt =====
-- middleware/floodwait/waiter.go: the limit of `send`, and the callback of the builders.
use mathlib.Core.List.{Mem, mem-cons, mem-cons_self, mem-cons_of_mem, not-mem-nil}
use mathlib.Core.List.Perm
use mathlib.Core.Logic.Or
use native.Mathlib.Bridge.{le_prop}
use tgcontrib.Base.{
  ℕ, suc, ◌+◌, ◌≤◌, ◌≡◌, Bool-cases, Option-cases, inl, inr, false, [], ◌∷◌, Option, none, some,
  arith, ltb, if◌then◌else◌,
}
use tgcontrib.Base.Int.{ℤ, pos}
use tgcontrib.Flood.Queue.{Request, Scheduled, Queue, add}
use tgcontrib.Flood.Queue.Move.{Moved, move-Moved}
use tgcontrib.Flood.Scheduler.{Scheduler, nice, flood}
use tgcontrib.Flood.Scheduler.Steps.{IsValid, add-IsHeap}
use tgcontrib.Flood.Waiter.{
  second, Waiter, clone, with_clock, with_max_wait, with_max_retries, with_tick, exceeds, is_zero,
  panicked, send, send_flood,
}

-- A waiter made by WithClock, WithMaxWait, WithMaxRetries or WithTick has no callback: the
-- first flood wait that it meets is a panic.
pub send_panics :
    {P E : Type 0} (as_flood_wait : E → Option ℕ) (w : Waiter) (m : ℤ) (now : ℕ) (sch : Scheduler P)
    (s : Scheduled P) (err : E) (d : ℕ)
    → as_flood_wait err ≡ some d
    → (send as_flood_wait (with_clock w) now sch s (some err) ≡ (panicked, sch))
      × (send as_flood_wait (with_max_wait w m) now sch s (some err) ≡ (panicked, sch))
      × (send as_flood_wait (with_max_retries w m) now sch s (some err) ≡ (panicked, sch))
      × (send as_flood_wait (with_tick w m) now sch s (some err) ≡ (panicked, sch))
unfolding send with_clock with_max_wait with_max_retries with_tick clone
send_panics as_flood_wait w m now sch s err d e =
    (rw (e, send), rw (e, send), rw (e, send), rw (e, send))

pub exceeds_limit : (n m : ℕ) → exceeds n (pos (suc m)) ≡ false → n ≤ suc m
unfolding exceeds is_zero
exceeds_limit n m h = ground arith

module _ {P : Type 0} (R : ℕ → Type 0) (R-prop : (n : ℕ) → IsProp (R n)) where
  -- The number of retries of each queued request.
  abbrev pub AllRetries : Queue P → Type 0
  AllRetries q = (y : Scheduled P) → Mem y q → R y.request.retry

  Moved-AllRetries : (k d : ℕ) (q r : Queue P) → Moved k d q r → AllRetries q → AllRetries r
  Moved-AllRetries k d q [] mv h y t = absurd (not-mem-nil t)
  Moved-AllRetries k d [] (x ∷ r) mv h y t = absurd mv
  Moved-AllRetries k d (s ∷ q) (x ∷ r) mv h y t =
      Or.elim (R-prop _) (mem-cons.0 t) (λ e. rw (e, mv.0) (h s mem-cons_self))
        (Moved-AllRetries k d q r mv.2 (λ z u. h z (mem-cons_of_mem s u)) y)

  flood-AllRetries :
      (now : ℕ) (s : Scheduler P) (r : Request P) (d : ℕ)
      → IsValid s
      → AllRetries s.queue
      → R r.retry
      → AllRetries (flood now s r d).queue
  unfolding flood
  flood-AllRetries now s r d v h le y t =
      let (heap, added) = add-IsHeap s.queue r (now + d) v.heap in
      let (q, moved, heap', same) = move-Moved (add s.queue r (now + d)) r.key now d in
      Moved-AllRetries r.key d _ q moved
        (λ z u. Or.elim (R-prop _) (mem-cons.0 ((Perm.mem_iff added).0 u)) (λ e. rw e le) (h z)) y
        ((Perm.mem_iff same).0 t)

  send_flood-AllRetries :
      {E : Type 0} (w : Waiter) (now : ℕ) (sch : Scheduler P) (r : Request P) (d : ℕ) (err : E)
      → IsValid sch
      → (exceeds r.retry w.max_retries ≡ false → R r.retry)
      → AllRetries sch.queue
      → AllRetries (send_flood w now sch r d err).1.queue
  unfolding send_flood
  send_flood-AllRetries w now sch r d err v fits h =
      let d' = if ltb d second then second else d in
      elim (Bool-cases (exceeds r.retry w.max_retries)) [
        | inl over ↦ rw over h
        | inr within ↦ elim (Bool-cases (exceeds d' w.max_wait)) [
          | inl big ↦ rw (within, big) h
          | inr short ↦ rw (within, short) (flood-AllRetries now sch r d' v h (fits within))
        ]
      ]

  pub send-AllRetries :
      {E : Type 0} (as_flood_wait : E → Option ℕ) (w : Waiter) (now : ℕ) (sch : Scheduler P)
      (s : Scheduled P) (err : Option E)
      → IsValid sch
      → (exceeds (s.request.retry + 1) w.max_retries ≡ false → R (s.request.retry + 1))
      → AllRetries sch.queue
      → AllRetries (send as_flood_wait w now sch s err).1.queue
  unfolding send
  send-AllRetries as_flood_wait w now sch s none v fits h = unfold nice in h
  send-AllRetries as_flood_wait w now sch s (some err) v fits h =
      elim (Option-cases (as_flood_wait err)) [
        | inl f ↦ rw (f, send) (unfold nice in h)
        | inr (d, f) ↦ elim (Bool-cases w.on_wait) [
          | inl on ↦
              rw (f, send)
                (rw on (
                  send_flood-AllRetries w now sch
                    (record (s.request) { retry = s.request.retry + 1 }) d err v fits h))
          | inr off ↦ rw (f, send) (rw off h)
        ]
      ]

module _ {P : Type 0} where
  -- No queued request was retried more than `m` times.
  abbrev pub RetriesWithin : ℕ → Queue P → Type 0
  RetriesWithin m q = (y : Scheduled P) → Mem y q → y.request.retry ≤ m

  -- Under a positive limit of retries and for a valid scheduler, where no queued request was
  -- retried more often than the limit, send leaves none that was.
  pub send-RetriesWithin :
      {E : Type 0} (as_flood_wait : E → Option ℕ) (w : Waiter) (m now : ℕ) (sch : Scheduler P)
      (s : Scheduled P) (err : Option E)
      → w.max_retries ≡ pos (suc m)
      → IsValid sch
      → RetriesWithin (suc m) sch.queue
      → RetriesWithin (suc m) (send as_flood_wait w now sch s err).1.queue
  send-RetriesWithin as_flood_wait w m now sch s err e v h =
      send-AllRetries (λ n. n ≤ suc m) (λ n. le_prop) as_flood_wait w now sch s err v
        (λ within. exceeds_limit _ m (rw e at within)) h
