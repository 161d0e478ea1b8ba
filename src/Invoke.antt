-- ===== src/Invoke.antt =====
-- The middlewares round one call of an invoker: middleware/ratelimit, middleware/tg_prom, oteltg and
-- package invoker, and the clock of package clock.
pub mod RateLimit
pub mod Clock
pub mod Prom
pub mod Otel
pub mod Hooks
