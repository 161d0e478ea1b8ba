-- ===== src/Flood.antt =====
-- middleware/floodwait: waiters that retry a request after a flood wait.
-- Times and durations are natural numbers of nanoseconds, the times since one instant: a comparison
-- of differences, as `t.Sub(now) > d`, is one of sums.
pub mod Heap
pub mod Queue
pub mod Scheduler
pub mod Waiter
pub mod Calls
pub mod Simple
