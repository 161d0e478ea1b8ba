-- ===== src/Invoke/Clock.antt =====
-- clock/ntp.go: the clock with the offset of an NTP server. The query (github.com/beevik/ntp) is a
-- parameter; Timer and Ticker are those of the system.
use tgcontrib.Base.{ℕ, List, [], ◌∷◌, Option, none, some, Bytes}
use tgcontrib.Base.Int.{ℤ, ◌+ℤ◌}
use tgcontrib.Base.Text.{codes}

-- `NewNTP`: the host that is asked, where there are not too many; the offset is the answer's.
unfoldable pub ntp_host : List Bytes → Option Bytes
ntp_host [] = some (codes "pool.ntp.org")
ntp_host (h ∷ []) = some h
ntp_host (h ∷ i ∷ hs) = none

pub data NtpClock : Type 0 where
  ntp_clock : ℤ → NtpClock
  too_many_hosts : NtpClock
  query_failed : ℕ → NtpClock

pub data Answer : Type 0 where
  offset : ℤ → Answer
  no_answer : ℕ → Answer

clock_of : Answer → NtpClock
clock_of (offset z) = ntp_clock z
clock_of (no_answer e) = query_failed e

unfoldable pub new_ntp : (Bytes → Answer) → List Bytes → NtpClock
unfolding clock_of ntp_host
new_ntp query hosts = elim (ntp_host hosts) [ none ↦ too_many_hosts | some h ↦ clock_of (query h) ]

-- `Now`, from the time of the system
unfoldable pub ntp_now : ℤ → ℤ → ℤ
ntp_now shift system = system +ℤ shift
