-- ===== src/Supervisor/Transaction.antt =====
-- The change of the subscription (src/supervisor.rs, `switch_subscription_locked`): paths for all
-- classes are staged, the cache and the state are committed, and then everything is published at
-- once, or nothing.
pub mod Daemon
pub mod Staging
pub mod Publication
pub mod Commit
