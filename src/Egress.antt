-- ===== src/Egress.antt =====
-- Observation of the preferred default routes (src/egress.rs).
pub mod Routes
pub mod Observer
pub mod Debounce
