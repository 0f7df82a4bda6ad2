-- ===== src/Supervisor.antt =====
-- The supervisor (src/supervisor.rs): the recovery cooldown, the ranking of candidates, the
-- activation of a path for one class, and what is decided about switching it.
pub mod Backoff
pub mod Candidates
pub mod Activation
pub mod Switching
pub mod Sites
pub mod Transaction
