-- ===== src/Listener.antt =====
-- The mixed listener (src/listener.rs): traffic accounting, the throttle of accept errors, the
-- handling of one connection, and the interleaving of connections with route switches.
pub mod Traffic
pub mod Throttle
pub mod Conn
pub mod Paths
