-- ===== src/Health.antt =====
-- Health checks (src/health.rs).
pub mod Target
pub mod Exchange
pub mod Sampled
