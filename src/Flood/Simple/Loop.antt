-- ===== src/Flood/Simple/Loop.antt =====
-- middleware/floodwait/simple_waiter.go: the rounds of `Handle`.
use mathlib.Core.List.{append-nil, append_assoc}
use native.Mathlib.Nat.{zero-add, add-zero}
use tgcontrib.Base.{
  ℕ, zero, suc, ◌+◌, ◌≤◌, ◌<◌, ◌≡◌, ◌≢◌, refl, ◌∙◌, Bool-cases, Option-cases, inl, inr, not, ◌&&◌,
  false, List, [], ◌∷◌, ◌++◌, Option, none, some, arith, ltb, ◌==◌, if◌then◌else◌, length,
  length-append,
}
use tgcontrib.Flood.Waiter.{second, exceeds}
use tgcontrib.Flood.Simple.{
  SimpleWaiter, result, out_of_fuel, Run, stop, over, after_flood, after_call, handle_loop, handle,
}

-- The loop has ended, after `n` calls at most and no more waits than calls.
pub record Ends {E : Type 0} (n : ℕ) (r : Run E) : Type 0 where
  pub ended : r.answer ≢ out_of_fuel
  pub calls_within : r.calls ≤ n
  pub waits_within : length r.waits ≤ r.calls

module _ {E : Type 0} (as_flood_wait : E → Option ℕ) (w : SimpleWaiter) (done : ℕ → Option E) where
  after_flood-Ends :
      (m retries : ℕ) (waits : List ℕ) (d : ℕ) (err : E) (again : List ℕ → Run E)
      → w.max_retries ≡ suc m
      → retries ≤ suc m
      → length waits ≡ retries
      → ((waits' : List ℕ)
          → length waits' ≡ suc retries
          → suc retries ≤ suc m
          → Ends (suc (suc m)) (again waits'))
      → Ends
          (suc (suc m))
          (after_flood as_flood_wait w done (suc retries) (suc retries) waits d err again)
  unfolding after_flood over
  after_flood-Ends m retries waits d err again e le l ih =
      let d' = if d == 0 then second else d in
      let size = length-append waits (d' ∷ []) in
      elim (Bool-cases (not (w.max_retries == 0) && ltb w.max_retries (suc retries))) [
        | inl limit ↦
            rw limit
              (record { ended = λ x. cc; calls_within = omega arith; waits_within = omega arith })
        | inr more ↦ elim (Bool-cases (exceeds d' w.max_wait)) [
          | inl big ↦
              rw (more, big)
                (record { ended = λ x. cc; calls_within = omega arith; waits_within = omega arith })
          | inr fits ↦ elim (Option-cases (done (suc retries))) [
            | inl open_ ↦
                rw (more, fits)
                  (rw (open_, after_flood) (ih (waits ++ d' ∷ []) (omega arith) (ground arith)))
            | inr (x, ends) ↦
                rw (more, fits)
                  (rw (ends, after_flood)
                    (record {
                      ended = λ x. cc;
                      calls_within = omega arith;
                      waits_within = omega arith;
                    }))
          ]
        ]
      ]

  after_call-Ends :
      (m retries : ℕ) (waits : List ℕ) (o : Option E) (again : List ℕ → Run E)
      → w.max_retries ≡ suc m
      → retries ≤ suc m
      → length waits ≡ retries
      → ((waits' : List ℕ)
          → length waits' ≡ suc retries
          → suc retries ≤ suc m
          → Ends (suc (suc m)) (again waits'))
      → Ends (suc (suc m)) (after_call as_flood_wait w done (suc retries) retries waits o again)
  unfolding after_call
  after_call-Ends m retries waits none again e le l ih = record {
    ended = λ x. cc;
    calls_within = omega arith;
    waits_within = omega arith;
  }
  after_call-Ends m retries waits (some err) again e le l ih =
      elim (Option-cases (as_flood_wait err)) [
        | inl f ↦
            rw (f, after_call)
              (record { ended = λ x. cc; calls_within = omega arith; waits_within = omega arith })
        | inr (d, f) ↦ rw (f, after_call) (after_flood-Ends m retries waits d err again e le l ih)
      ]

  handle_loop-Ends :
      (invoke : ℕ → Option E) (m f retries : ℕ) (waits : List ℕ)
      → w.max_retries ≡ suc m
      → retries ≤ suc m
      → suc (suc m) ≤ f + retries
      → length waits ≡ retries
      → Ends (suc (suc m)) (handle_loop as_flood_wait w done invoke f retries waits)
  unfolding handle_loop
  handle_loop-Ends invoke m zero retries waits e le enough l = absurd (omega arith)
  handle_loop-Ends invoke m (suc f) retries waits e le enough l =
      after_call-Ends m retries waits (invoke retries) _ e le l
        (λ waits' l' le'. handle_loop-Ends invoke m f (suc retries) waits' e le' (omega arith) l')

  -- With a positive limit of retries and more rounds than the limit, the loop of the simple
  -- waiter ends, whatever the invoker and the context do: after at most one call more than the
  -- limit, and with no more waits than calls.
  pub handle-Ends :
      (invoke : ℕ → Option E) (m rounds : ℕ)
      → w.max_retries ≡ suc m
      → suc m < rounds
      → Ends (suc (suc m)) (handle as_flood_wait w done rounds invoke)
  unfolding handle
  handle-Ends invoke m rounds e enough =
      handle_loop-Ends invoke m rounds 0 [] e (omega arith) (omega arith) refl

  -- The wait behind a flood wait of `d`.
  abbrev pub pause : ℕ → ℕ
  pause d = if d == 0 then second else d

  abbrev pub pauses : (ℕ → ℕ) → ℕ → ℕ → List ℕ
  pauses d i zero = []
  pauses d i (suc k) = pause (d i) ∷ pauses d (suc i) k

  -- The call number `i` meets a flood wait of `d` that the limits and the context allow.
  pub record Floods (invoke : ℕ → Option E) (i d : ℕ) : Type 0 where
    pub error : E
    pub given : invoke i ≡ some error
    pub flood : as_flood_wait error ≡ some d
    pub retried : over as_flood_wait w done (suc i) ≡ false
    pub fits : exceeds (pause d) w.max_wait ≡ false
    pub open_ : done (suc i) ≡ none

  abbrev pub IsFinal : Option E → Type 0
  IsFinal none = Unit
  IsFinal (some e) = as_flood_wait e ≡ none

  after_call-Floods :
      (invoke : ℕ → Option E) (i d : ℕ) (waits : List ℕ) (again : List ℕ → Run E)
      → Floods invoke i d
      → after_call as_flood_wait w done (suc i) i waits (invoke i) again
        ≡ again (waits ++ pause d ∷ [])
  unfolding after_call after_flood
  after_call-Floods invoke i d waits again f =
      rw (f.given, after_call)
        (rw (f.flood, after_call) (rw (f.retried, f.fits) (rw (f.open_, after_flood))))

  after_call-IsFinal :
      (calls retries : ℕ) (waits : List ℕ) (o : Option E) (again : List ℕ → Run E)
      → IsFinal o
      → after_call as_flood_wait w done calls retries waits o again ≡ stop (result o) calls waits
  unfolding after_call
  after_call-IsFinal calls retries waits none again h = refl
  after_call-IsFinal calls retries waits (some e) again h = rw (h, after_call)

  handle_loop_result :
      (invoke : ℕ → Option E) (d : ℕ → ℕ) (k i : ℕ) (waits : List ℕ)
      → ((j : ℕ) → i ≤ j → j < k + i → Floods invoke j (d j))
      → IsFinal (invoke (k + i))
      → handle_loop as_flood_wait w done invoke (suc k) i waits
        ≡ stop (result (invoke (k + i))) (suc (k + i)) (waits ++ pauses d i k)
  unfolding handle_loop
  handle_loop_result invoke d zero i waits floods final =
      rw zero-add
        (after_call-IsFinal (suc i) i waits (invoke i) _ (rw zero-add at final) ∙ rw append-nil)
  handle_loop_result invoke d (suc k) i waits floods final =
      let e : suc k + i ≡ k + suc i = omega arith in
      after_call-Floods invoke i (d i) waits _ (floods i (omega arith) (omega arith))
      ∙ rw e (
          handle_loop_result invoke d k (suc i) (waits ++ pause (d i) ∷ [])
            (λ j lo hi. floods j (omega arith) (omega arith)) (rw e at final)
          ∙ rw append_assoc)

  -- Where the first n calls meet flood waits that the limits and the context allow and the next
  -- one does not meet one, its result is the answer: after n + 1 calls, with the wait that was
  -- asked for behind each of the first n, or a second where none was asked for.
  pub handle_result :
      (invoke : ℕ → Option E) (d : ℕ → ℕ) (n : ℕ)
      → ((j : ℕ) → j < n → Floods invoke j (d j))
      → IsFinal (invoke n)
      → handle as_flood_wait w done (suc n) invoke ≡ stop (result (invoke n)) (suc n) (pauses d 0 n)
  unfolding handle
  handle_result invoke d n floods final =
      let r =
        handle_loop_result invoke d n 0 [] (λ j lo hi. floods j (omega arith))
          (rw add-zero final) in
      rw add-zero at r
