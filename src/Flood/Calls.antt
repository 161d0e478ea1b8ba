-- ===== src/Flood/Calls.antt =====
-- middleware/floodwait/waiter.go: the calls of `Handle` and the loop of `Run`, interleaved in any
-- order. A call is known by a number, which stands for its result channel and is the payload of its
-- request. What the invokers and the clock depend on is the world `W`, which moves on at any time.
-- One `Run` goes on at a time. A call of an invoker and what `Run` does with its answer are one step:
-- an invoker touches neither the scheduler nor the channels. Left out is a call of `schedule` between
-- the two steps of `flood`, which Scheduler/Steps takes apart: its request, if it has the key of the
-- flood wait, would be put off by the wait as well.
pub mod Counts
pub mod Due
pub mod Answers
pub mod Retries
pub mod Rounds
use tgcontrib.Base.{
  ℕ, ◌+◌, ◌≡◌, Bool, true, false, List, [], ◌∷◌, ◌++◌, map, Option, none, some, ltb, ◌==◌,
  if◌then◌else◌,
}
use tgcontrib.Base.Counts.{count}
use tgcontrib.Flood.Queue.{Request, Scheduled}
use tgcontrib.Flood.Scheduler.{Scheduler, new_scheduler, new, gather}
use tgcontrib.Flood.Waiter.{Waiter, second, Answer, Sent, answered, waits, panicked, send}

-- `ending`: the loop has returned, and `running` is still set.
pub data Phase : Type 0 where
  stopped looping ending : Phase

-- `running`
abbrev pub is_running : Phase → Bool
is_running stopped = false
is_running looping = true
is_running ending = true

-- What a call of `Handle` returns.
pub data Return (E : Type 0) : Type 0 where
  not_running : Return E
  received : Answer E → Return E
  context_ended : ℕ → Return E

-- `batch` is what is left of the gathered requests, `channels` holds the answers that nobody has
-- received, `entering` the calls behind the test of `running` and `waiting` those in the `select`.
-- `gone` are the calls whose context ended there; `calls` are all calls.
pub record Calls (E W : Type 0) : Type 0 where
  pub phase : Phase
  pub scheduler : Scheduler ℕ
  pub batch : List (Scheduled ℕ)
  pub channels : List (ℕ × Answer E)
  pub world : W
  pub calls : List ℕ
  pub entering : List ℕ
  pub waiting : List ℕ
  pub gone : List ℕ
  pub returned : List (ℕ × Return E)

abbrev pub ids : {A : Type 0} → List (ℕ × A) → List ℕ
ids l = map (λ x. x.0) l

abbrev pub queued : {E W : Type 0} → Calls E W → List ℕ
queued s = map (λ (y : Scheduled ℕ). y.request.payload) s.scheduler.queue

abbrev pub in_batch : {E W : Type 0} → Calls E W → List ℕ
in_batch s = map (λ (y : Scheduled ℕ). y.request.payload) s.batch

-- A waiter that was never run, with the scheduler of `NewWaiter`.
unfoldable pub init : {E W : Type 0} → W → Calls E W
unfolding new_scheduler
init w = record {
  phase = stopped;
  scheduler = new_scheduler second;
  batch = [];
  channels = [];
  world = w;
  calls = [];
  entering = [];
  waiting = [];
  gone = [];
  returned = [];
}

-- A result channel has one place: an answer to a full one is dropped.
pub put_answer : {E : Type 0} → ℕ → Answer E → List (ℕ × Answer E) → List (ℕ × Answer E)
put_answer p a c = if ltb 0 (count p (ids c)) then c else c ++ (p, a) ∷ []

module _ {E W : Type 0} (as_flood_wait : E → Option ℕ) (invoke : W → Request ℕ → W × Option E)
    (wt : Waiter) (clock : W → ℕ) where
  -- behind `send` in the loop over the gathered requests
  pub after_answer :
      ℕ → List (Scheduled ℕ) → Calls E W → W → Sent E × Scheduler ℕ → Option (Calls E W)
  unfolding put_answer
  after_answer p rest s w (answered a, sch) =
      some (record s {
        scheduler = sch;
        batch = rest;
        channels = put_answer p a s.channels;
        world = w;
      })
  after_answer p rest s w (waits, sch) =
      some (record s { scheduler = sch; batch = rest; world = w })
  after_answer p rest s w (panicked, sch) = none

  unfoldable pub send_next : Scheduled ℕ → List (Scheduled ℕ) → Calls E W → Option (Calls E W)
  unfolding after_answer
  send_next y rest s =
      let (w, err) = invoke s.world y.request in
      after_answer y.request.payload rest s w (send as_flood_wait wt (clock w) s.scheduler y err)

  pub data Step (s : Calls E W) : Calls E W → Type 0 where
    enters :
        (p : ℕ)
        → count p s.calls ≡ 0
        → is_running s.phase ≡ true
        → Step s (record s { calls = p ∷ s.calls; entering = p ∷ s.entering })
    refuses :
        (p : ℕ)
        → count p s.calls ≡ 0
        → is_running s.phase ≡ false
        → Step s (record s { calls = p ∷ s.calls; returned = (p, not_running) ∷ s.returned })
    queues :
        (a : List ℕ) (p : ℕ) (b : List ℕ) (input : Option ℕ)
        → s.entering ≡ a ++ p ∷ b
        → Step s (record s {
          scheduler = new (clock s.world) s.scheduler p input;
          entering = a ++ b;
          waiting = p ∷ s.waiting;
        })
    starts : s.phase ≡ stopped → Step s (record s { phase = looping })
    gathers :
        s.phase ≡ looping
        → s.batch ≡ []
        → Step s (record s {
          scheduler = (gather (clock s.world) s.scheduler []).1;
          batch = (gather (clock s.world) s.scheduler []).0;
        })
    sends :
        {t : Calls E W} (y : Scheduled ℕ) (rest : List (Scheduled ℕ))
        → s.phase ≡ looping
        → s.batch ≡ y ∷ rest
        → send_next y rest s ≡ some t
        → Step s t
    loop_ends : s.phase ≡ looping → s.batch ≡ [] → Step s (record s { phase = ending })
    run_returns : s.phase ≡ ending → Step s (record s { phase = stopped })
    receives :
        (a : List ℕ) (p : ℕ) (b : List ℕ) (c : List (ℕ × Answer E)) (r : Answer E)
        (d : List (ℕ × Answer E))
        → s.waiting ≡ a ++ p ∷ b
        → s.channels ≡ c ++ (p, r) ∷ d
        → Step s (record s {
          waiting = a ++ b;
          channels = c ++ d;
          returned = (p, received r) ∷ s.returned;
        })
    gives_up :
        (a : List ℕ) (p : ℕ) (b : List ℕ) (e : ℕ)
        → s.waiting ≡ a ++ p ∷ b
        → Step s (record s {
          waiting = a ++ b;
          gone = p ∷ s.gone;
          returned = (p, context_ended e) ∷ s.returned;
        })
    passes : (w : W) → Step s (record s { world = w })

  pub data Reach (s : Calls E W) : Calls E W → Type 0 where
    here : Reach s s
    next : {t u : Calls E W} → Reach s t → Step t u → Reach s u
