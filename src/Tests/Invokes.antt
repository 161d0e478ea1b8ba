-- ===== src/Tests/Invokes.antt =====
-- The middlewares on concrete calls.
use tgcontrib.Base.{
  ℕ, ◌≡◌, refl, ◌-◌, ◌+◌, ◌*◌, Bool, ◌&&◌, List, [], ◌∷◌, Option, none, some, ◌==◌, length, Bytes,
}
use tgcontrib.Base.Int.{pos}
use tgcontrib.Base.Text.{codes}
use tgcontrib.Invoke.RateLimit.{Limiter, fires, Call, deadline_exceeded, handle, wait}
use tgcontrib.Invoke.Clock.{new_ntp, offset, ntp_clock, too_many_hosts}
use tgcontrib.Invoke.RateLimit.Waits.{Taken, Called, handle-Taken}
use tgcontrib.Invoke.Prom
use tgcontrib.Invoke.Prom.{InvokeError, rpc, client, Labels, Handled, returned, panics}
use tgcontrib.Invoke.Prom.Counts.{all_named, outcome, handle-outcome}
use tgcontrib.Invoke.Otel
use tgcontrib.Invoke.Otel.{attributes}
use tgcontrib.Invoke.Otel.Trace.{Traces, handle-Traces}

-- A limiter that counts what it has given away; each reservation waits for those before it.
abbrev limiter : Limiter ℕ
limiter = record { reserve = λ now l. (l + 1, some (l * 10)); cancel = λ now delay t l. l - 1 }

abbrev late_call : Call
late_call = record { ended = none; now = 5; until_deadline = some 3; race = fires }

abbrev next : ℕ → ℕ × ℕ
next w = (w + 1, 7)

handle-Taken_example :
    Taken limiter late_call 2
      ((handle limiter next late_call 2 0).0, (handle limiter next late_call 2 0).2)
    × Called next 0
        (handle limiter next late_call 2 0).2
        (handle limiter next late_call 2 0).1
        (handle limiter next late_call 2 0).3
handle-Taken_example = handle-Taken limiter next late_call 2 0

late_call_run : handle limiter next late_call 2 0 ≡ (3, 0, some deadline_exceeded, none)
unfolding handle wait
late_call_run = refl

two_hosts : new_ntp (λ h. offset (pos 3)) (codes "a" ∷ codes "b" ∷ []) ≡ too_many_hosts
unfolding new_ntp
two_hosts = refl

default_host : new_ntp (λ h. offset (pos (length h))) [] ≡ ntp_clock (pos 12)
unfolding new_ntp
default_host = refl

abbrev valid : List Bytes → Labels → Bool
valid ns ls = length ns == length ls && all_named ns ls

abbrev fails : ℕ → ℕ × Option InvokeError
fails w = (w + 1, some (client 3))

handle-outcome_example :
    ((name : Bytes) → Prom.handle valid fails (some name) 0 ≡ outcome name (fails 0))
    × (Prom.handle valid fails none 0 ≡ panics 0 [])
handle-outcome_example = handle-outcome valid fails (λ ns ls. refl) 0

handle-Traces_example :
    ((Otel.handle fails (some (codes "help.getConfig")) 0).0 ≡ 1)
    × ((Otel.handle fails (some (codes "help.getConfig")) 0).1 ≡ some (client 3))
    × Traces
        (attributes (some (codes "help.getConfig")))
        (some (client 3))
        (Otel.handle fails (some (codes "help.getConfig")) 0).2
handle-Traces_example = handle-Traces fails (some (codes "help.getConfig")) 0
