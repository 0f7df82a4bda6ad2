-- ===== src/Tests.antt =====
-- The theorems at concrete inputs.
pub mod Listening
pub mod Locking
pub mod Checking
pub mod Choosing
pub mod Codec
pub mod Configuring
pub mod Persisted
pub mod Sources
pub mod Supervising
pub mod Transaction
pub mod Workspaces
