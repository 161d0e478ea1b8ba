-- ===== src/Flood/Waiter/Tick.antt =====
-- middleware/floodwait/waiter.go: the requests before and after a tick of `Run`.
use mathlib.Core.List.{Perm, append_assoc, append-nil, map-append, perm_middle}
use mathlib.Core.List.Perm
use tgcontrib.Base.{
  ℕ, ◌+◌, ◌≡◌, refl, Bool-cases, Option-cases, inl, inr, true, List, [], ◌∷◌, ◌++◌, map, Option,
  none, some, arith, ltb, if◌then◌else◌,
}
use tgcontrib.Flood.Queue.{Request, Scheduled, Queue, add}
use tgcontrib.Flood.Queue.Gather.{gather-Gathered}
use tgcontrib.Flood.Queue.Move.{Moved, move-Moved}
use tgcontrib.Flood.Scheduler.{Scheduler, gather, nice, flood}
use tgcontrib.Flood.Scheduler.Steps.{
  IsValid, add-IsHeap, nice-IsValid, flood-IsValid, gather-IsValid,
}
use tgcontrib.Flood.Waiter.{
  second, Waiter, exceeds, Answer, result, Sent, answered, waits, panicked, send, send_flood, Ran,
  ran, crashed, after_send, send_all, run_tick,
}

abbrev pub payload_of : {P : Type 0} → Scheduled P → P
payload_of s = s.request.payload

abbrev pub answered_of : {P E : Type 0} → Request P × Answer E → P
answered_of a = a.0.payload

abbrev pub payloads : {P : Type 0} → Scheduler P → List P
payloads s = map payload_of s.queue

module _ {P : Type 0} where
  Moved-payloads : (k d : ℕ) (q r : Queue P) → Moved k d q r → map payload_of r ≡ map payload_of q
  Moved-payloads k d [] [] h = refl
  Moved-payloads k d [] (t ∷ r) h = absurd h
  Moved-payloads k d (s ∷ q) [] h = absurd h
  Moved-payloads k d (s ∷ q) (t ∷ r) h = ground (arith, h.0, Moved-payloads k d q r h.2)

  flood-payloads :
      (now : ℕ) (s : Scheduler P) (r : Request P) (d : ℕ)
      → IsValid s
      → Perm (payloads (flood now s r d)) (r.payload ∷ payloads s)
  unfolding flood
  flood-payloads now s r d v =
      let a = add s.queue r (now + d) in
      let (heap, added) = add-IsHeap s.queue r (now + d) v.heap in
      let (m, moved, heap', same) = move-Moved a r.key now d in
      Perm.trans (Perm.map payload_of same)
        (rw (Moved-payloads r.key d a m moved) (Perm.map payload_of added))

  pub gather-payloads :
      (now : ℕ) (s : Scheduler P)
      → IsValid s
      → Perm (map payload_of (gather now s []).0 ++ payloads (gather now s []).1) (payloads s)
  unfolding gather
  gather-payloads now s v =
      let (due, q, e, g) = gather-Gathered s.queue now [] v.heap in
      rw e (rw (← map-append payload_of) (Perm.map payload_of g.same))

module _ {P E : Type 0} where
  -- What one `send` does to the queued requests.
  abbrev pub Keeps : Scheduler P → P → Sent E × Scheduler P → Type 0
  Keeps sch p (answered a, sch') = IsValid sch' × (payloads sch' ≡ payloads sch)
  Keeps sch p (waits, sch') = IsValid sch' × Perm (payloads sch') (p ∷ payloads sch)
  Keeps sch p (panicked, sch') = ⊥

  nice-Keeps :
      (sch : Scheduler P) (k : ℕ) (p : P) (a : Answer E)
      → IsValid sch
      → Keeps sch p (answered a, nice sch k)
  nice-Keeps sch k p a v = (nice-IsValid sch k v, unfold nice in refl)

  send_flood-Keeps :
      (w : Waiter) (now : ℕ) (sch : Scheduler P) (r : Request P) (d : ℕ) (err : E)
      → IsValid sch
      → Keeps sch r.payload (send_flood w now sch r d err)
  unfolding send_flood
  send_flood-Keeps w now sch r d err v =
      let d' = if ltb d second then second else d in
      elim (Bool-cases (exceeds r.retry w.max_retries)) [
        | inl over ↦ rw over (v, refl)
        | inr within ↦ elim (Bool-cases (exceeds d' w.max_wait)) [
          | inl big ↦ rw (within, big) (v, refl)
          | inr fits ↦
              rw (within, fits)
                (flood-IsValid now sch r d' (ground arith) v, flood-payloads now sch r d' v)
        ]
      ]

  pub send-Keeps :
      (as_flood_wait : E → Option ℕ) (w : Waiter) (now : ℕ) (sch : Scheduler P) (s : Scheduled P)
      (err : Option E)
      → w.on_wait ≡ true
      → IsValid sch
      → Keeps sch (payload_of s) (send as_flood_wait w now sch s err)
  unfolding send
  send-Keeps as_flood_wait w now sch s none on v =
      nice-Keeps sch s.request.key (payload_of s) (result none) v
  send-Keeps as_flood_wait w now sch s (some err) on v = elim (Option-cases (as_flood_wait err)) [
    | inl e ↦ rw (e, send) (nice-Keeps sch s.request.key (payload_of s) (result (some err)) v)
    | inr (d, e) ↦
        rw (e, send)
          (rw on (
            send_flood-Keeps w now sch (record (s.request) { retry = s.request.retry + 1 }) d err
              v))
  ]

concat-perm {ℓ} : {A : Type ℓ} (a : List A) (x : A) → Perm (a ++ x ∷ []) (x ∷ a)
concat-perm a x = rw (append-nil a) at (perm_middle {a = x} a [])

behind {ℓ} :
    {A : Type ℓ} (a b c : List A) (x : A) → Perm (a ++ (b ++ (c ++ x ∷ []))) (x ∷ (a ++ (b ++ c)))
behind a b c x = simp append_assoc at (concat-perm (a ++ (b ++ c)) x)

module _ {P E W : Type 0} where
  -- The run has ended, and the queued and the answered requests together are those of `before`.
  abbrev pub Conserves : List P → Ran P E W → Type 0
  Conserves before (ran answers sch w) =
      IsValid sch × Perm (payloads sch ++ map answered_of answers) before
  Conserves before crashed = ⊥

  Conserves-perm : {b b' : List P} (o : Ran P E W) → Perm b b' → Conserves b o → Conserves b' o
  Conserves-perm (ran answers sch w) p (v, c) = (v, Perm.trans c p)
  Conserves-perm crashed p c = c

module _ {P E W : Type 0} (as_flood_wait : E → Option ℕ)
    (invoke : W → Request P → W × Option E) where
  after_send-Conserves :
      (r : Request P) (rest : List P) (answers : List (Request P × Answer E)) (w : W)
      (sch : Scheduler P) (o : Sent E × Scheduler P)
      (next : List (Request P × Answer E) → Scheduler P → W → Ran P E W)
      → Keeps sch r.payload o
      → ((answers' : List (Request P × Answer E)) (sch' : Scheduler P) (w' : W)
          → IsValid sch'
          → Conserves (rest ++ (payloads sch' ++ map answered_of answers')) (next answers' sch' w'))
      → Conserves
          (r.payload ∷ (rest ++ (payloads sch ++ map answered_of answers)))
          (after_send as_flood_wait invoke r answers w o next)
  unfolding after_send
  after_send-Conserves r rest answers w sch (answered a, sch') next (v, e) ih =
      Conserves-perm (next (answers ++ (r, a) ∷ []) sch' w)
        (rw (e, map-append) (behind rest (payloads sch) (map answered_of answers) r.payload))
        (ih (answers ++ (r, a) ∷ []) sch' w v)
  after_send-Conserves r rest answers w sch (waits, sch') next (v, p) ih =
      Conserves-perm (next answers sch' w)
        (Perm.trans (Perm.append_left rest (Perm.append_right (map answered_of answers) p))
          (perm_middle rest (payloads sch ++ map answered_of answers)))
        (ih answers sch' w v)
  after_send-Conserves r rest answers w sch (panicked, sch') next k ih = absurd k

  send_all-Conserves :
      (wt : Waiter) (clock : W → ℕ) (l : List (Scheduled P)) (answers : List (Request P × Answer E))
      (sch : Scheduler P) (w : W)
      → wt.on_wait ≡ true
      → IsValid sch
      → Conserves
          (map payload_of l ++ (payloads sch ++ map answered_of answers))
          (send_all as_flood_wait invoke wt clock l answers sch w)
  unfolding send_all
  send_all-Conserves wt clock [] answers sch w on v = (v, Perm.refl _)
  send_all-Conserves wt clock (s ∷ l) answers sch w on v =
      let step = invoke w s.request in
      after_send-Conserves s.request (map payload_of l) answers step.0 sch
        (send as_flood_wait wt (clock step.0) sch s step.1)
        (λ answers' sch' w''. send_all as_flood_wait invoke wt clock l answers' sch' w'')
        (send-Keeps as_flood_wait wt (clock step.0) sch s step.1 on v)
        (λ answers' sch' w' v'. send_all-Conserves wt clock l answers' sch' w' on v')

  -- For a waiter with a callback and a valid scheduler a tick ends, whatever the invokers
  -- answer, in a valid scheduler, and each queued request is afterwards either still queued or
  -- answered, once: none is lost and none is doubled.
  pub run_tick-Conserves :
      (wt : Waiter) (clock : W → ℕ) (sch : Scheduler P) (w : W)
      → wt.on_wait ≡ true
      → IsValid sch
      → Conserves (payloads sch) (run_tick as_flood_wait invoke wt clock sch w)
  unfolding run_tick
  run_tick-Conserves wt clock sch w on v =
      let (due, sch') = gather (clock w) sch [] in
      Conserves-perm (send_all as_flood_wait invoke wt clock due [] sch' w)
        (rw append-nil (gather-payloads (clock w) sch v))
        (send_all-Conserves wt clock due [] sch' w on (gather-IsValid (clock w) sch v))
