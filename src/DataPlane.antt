-- ===== src/DataPlane.antt =====
-- The data planes' private workspaces (src/dataplane.rs).
pub mod Identity
pub mod Workspace
pub mod Acl
