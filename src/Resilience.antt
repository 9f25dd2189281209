-- ===== src/Resilience.antt =====
-- internal/resilience
pub mod Breaker
pub mod Bulkhead
pub mod Retry
