-- ===== src/Flood/Calls/Answers.antt =====
-- middleware/floodwait/waiter.go: where the request of each call of `Handle` stands.
use tgcontrib.Base.{ℕ, ◌+◌, ◌≡◌, refl, ap, List, [], ◌∷◌, ◌++◌, map, Option, some, arith, true}
use tgcontrib.Flood.Queue.{Request, Scheduled}
use tgcontrib.Flood.Scheduler.{Scheduler}
use tgcontrib.Flood.Scheduler.Steps.{gather-IsValid, new_scheduler-IsValid}
use tgcontrib.Flood.Waiter.{Waiter, Answer, Sent, answered, waits, panicked, send, second}
use tgcontrib.Flood.Waiter.Tick.{payload_of, Keeps, send-Keeps}
use tgcontrib.Base.Counts.{count, count-perm, count-middle}
use tgcontrib.Flood.Calls.{
  Calls, ids, in_batch, init, put_answer, after_answer, send_next, Step, enters, refuses, queues,
  starts, gathers, sends, loop_ends, run_returns, receives, gives_up, passes, Reach, here, next,
}
use tgcontrib.Flood.Calls.Counts.{
  ids-middle, queued-new, queued-gather, new-IsValid, queue-new_scheduler, some_inj, once-cons,
  CountsOf, Inv, batch_room, put_answer-room, ids-append_one,
}

module _ {E W : Type 0} (as_flood_wait : E → Option ℕ) (invoke : W → Request ℕ → W × Option E)
    (wt : Waiter) (clock : W → ℕ) where
  after_answer-Inv :
      (s t : Calls E W) (y : Scheduled ℕ) (rest : List (Scheduled ℕ)) (w : W)
      (o : Sent E × Scheduler ℕ)
      → s.batch ≡ y ∷ rest
      → Keeps s.scheduler y.request.payload o
      → Inv s
      → after_answer as_flood_wait invoke wt clock y.request.payload rest s w o ≡ some t
      → Inv t
  unfolding after_answer
  after_answer-Inv s t y rest w (answered a, sch) k (v, q) i e = rw (← some_inj e) (record {
    valid = v;
    counts = λ x.
        let n = i.counts x in
        let p = y.request.payload in
        let room = batch_room s y rest k (i.counts p) in
        let b : count x (in_batch s) ≡ count x (map payload_of (y ∷ rest)) =
          ap (λ (l : List (Scheduled ℕ)). count x (map payload_of l)) k in
        let c : count x (ids (put_answer p a s.channels))
            ≡ count x (ids s.channels) + count x (p ∷ []) =
          rw (put_answer-room p a s.channels room) (ids-append_one x s.channels p a) in
        record {
          balanced = omega (arith, n.balanced, b, c, ap (count x) q);
          called = n.called;
          once = n.once;
          left_once = n.left_once;
        };
  })
  after_answer-Inv s t y rest w (waits, sch) k (v, q) i e = rw (← some_inj e) (record {
    valid = v;
    counts = λ x.
        let n = i.counts x in
        let b : count x (in_batch s) ≡ count x (map payload_of (y ∷ rest)) =
          ap (λ (l : List (Scheduled ℕ)). count x (map payload_of l)) k in
        record {
          balanced = omega (arith, n.balanced, b, count-perm x q);
          called = n.called;
          once = n.once;
          left_once = n.left_once;
        };
  })
  after_answer-Inv s t y rest w (panicked, sch) k f i e = absurd f

  pub Step-Inv :
      {s t : Calls E W} → wt.on_wait ≡ true → Step as_flood_wait invoke wt clock s t → Inv s → Inv t
  unfolding send_next
  Step-Inv {s} on (enters p f r) i = record {
    valid = i.valid;
    counts = λ x.
        let c = i.counts x in
        record {
          balanced = c.balanced;
          called = omega (arith, c.called);
          once = once-cons x p s.calls f c.once;
          left_once = c.left_once;
        };
  }
  Step-Inv {s} on (refuses p f r) i = record {
    valid = i.valid;
    counts = λ x.
        let c = i.counts x in
        record {
          balanced = c.balanced;
          called = omega (arith, c.called);
          once = once-cons x p s.calls f c.once;
          left_once = omega (arith, c.left_once);
        };
  }
  Step-Inv {s} on (queues a p b input h) i = record {
    valid = new-IsValid (clock s.world) s.scheduler p input i.valid;
    counts = λ x.
        let c = i.counts x in
        let m = count-middle x a p b in
        let q = queued-new (clock s.world) s.scheduler p input x i.valid in
        record {
          balanced = omega (arith, c.balanced, q);
          called = omega (arith, c.called, m, ap (count x) h);
          once = c.once;
          left_once = c.left_once;
        };
  }
  Step-Inv {s} on (starts h) i = record { valid = i.valid; counts = i.counts }
  Step-Inv {s} on (gathers h k) i = record {
    valid = gather-IsValid (clock s.world) s.scheduler i.valid;
    counts = λ x.
        let c = i.counts x in
        let q = queued-gather (clock s.world) s.scheduler x i.valid in
        let none_left : count x (in_batch s) ≡ 0 = rw k refl in
        record {
          balanced = omega (arith, c.balanced, q, none_left);
          called = c.called;
          once = c.once;
          left_once = c.left_once;
        };
  }
  Step-Inv {s} on (sends y rest h k e) i =
      let a = invoke s.world y.request in
      after_answer-Inv s _ y rest a.0 (send as_flood_wait wt (clock a.0) s.scheduler y a.1) k
        (send-Keeps as_flood_wait wt (clock a.0) s.scheduler y a.1 on i.valid) i e
  Step-Inv {s} on (loop_ends h k) i = record { valid = i.valid; counts = i.counts }
  Step-Inv {s} on (run_returns h) i = record { valid = i.valid; counts = i.counts }
  Step-Inv {s} on (receives a p b c r d h k) i = record {
    valid = i.valid;
    counts = λ x.
        let n = i.counts x in
        let m = count-middle x a p b in
        let l = ids-middle x c p r d in
        let h' = ap (count x) h in
        let k' = ap (λ (z : List (ℕ × Answer E)). count x (ids z)) k in
        record {
          balanced = omega (arith, n.balanced, m, l, h', k');
          called = omega (arith, n.called, m, h');
          once = n.once;
          left_once = omega (arith, n.left_once);
        };
  }
  Step-Inv {s} on (gives_up a p b e h) i = record {
    valid = i.valid;
    counts = λ x.
        let n = i.counts x in
        let m = count-middle x a p b in
        let h' = ap (count x) h in
        record {
          balanced = omega (arith, n.balanced, m, h');
          called = omega (arith, n.called, m, h');
          once = n.once;
          left_once = omega (arith, n.left_once);
        };
  }
  Step-Inv {s} on (passes w) i = record { valid = i.valid; counts = i.counts }

  init-Inv : (w : W) → Inv {E = E} (init w)
  unfolding init
  init-Inv w = record {
    valid = new_scheduler-IsValid second;
    counts = λ x. record {
      balanced = rw (queue-new_scheduler second) refl;
      called = refl;
      once = omega arith;
      left_once = omega arith;
    };
  }

  pub Inv-Reach :
      {s t : Calls E W}
      → wt.on_wait ≡ true
      → Inv s
      → Reach as_flood_wait invoke wt clock s t
      → Inv t
  Inv-Reach on i here = i
  Inv-Reach on i (next r st) = Step-Inv on st (Inv-Reach on i r)

  pub Reach-Inv :
      (w : W) {s : Calls E W}
      → wt.on_wait ≡ true
      → Reach as_flood_wait invoke wt clock (init w) s
      → Inv s
  Reach-Inv w on r = Inv-Reach on (init-Inv w) r

  -- For a waiter with a callback, in every state that calls of Handle, ends of their contexts
  -- and starts, ticks and ends of Run lead to, in any order: each call is entering, waiting or
  -- has returned, once, and its request is queued, in the batch or answered but not received
  -- exactly as often as the call waits or has gone, so none is lost and none is doubled.
  pub Reach-Counts :
      (w : W) {s : Calls E W}
      → wt.on_wait ≡ true
      → Reach as_flood_wait invoke wt clock (init w) s
      → (x : ℕ) → CountsOf s x
  Reach-Counts w on r x = (Reach-Inv w on r).counts x

  -- For a waiter with a callback, in every state that such steps lead to, the result channel of
  -- the next request of the batch is empty: the answer that Run sends to it without waiting is
  -- not dropped.
  pub answer_has_room :
      (w : W) {s : Calls E W} (y : Scheduled ℕ) (rest : List (Scheduled ℕ)) (a : Answer E)
      → wt.on_wait ≡ true
      → Reach as_flood_wait invoke wt clock (init w) s
      → s.batch ≡ y ∷ rest
      → put_answer y.request.payload a s.channels ≡ s.channels ++ (y.request.payload, a) ∷ []
  answer_has_room w {s} y rest a on r k =
      put_answer-room y.request.payload a s.channels
        (batch_room s y rest k ((Reach-Inv w on r).counts y.request.payload))
