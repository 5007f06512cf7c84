-- ===== src/Custody.antt =====
-- The team custody pallet, xx-team-custody/src/lib.rs and custody.rs.
pub mod Pallet
pub mod Payout
pub mod Calls
pub mod Balance
pub mod Square
pub mod Schedule
pub mod Keeps
pub mod Same
pub mod Members
pub mod History
pub mod Outside
pub mod Received
pub mod Guards
pub mod Authority
pub mod Idle
mod Examples
