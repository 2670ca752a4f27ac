-- ===== src/Resilience.antt =====
-- pkg/resilience: circuit breaker, retry with back-off, token-bucket rate limiter.
pub mod Breaker
pub mod Retry
pub mod Limiter
