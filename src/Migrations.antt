-- ===== src/Migrations.antt =====
-- The migration of migrations/src/bridge_adjust.rs.
pub mod BridgeAdjust
pub mod Checks
mod Examples
