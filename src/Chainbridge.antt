-- ===== src/Chainbridge.antt =====
-- The bridge pallet, chainbridge/src/lib.rs.
pub mod ResourceId
pub mod Storage
pub mod Votes
pub mod Admin
pub mod Transfers
pub mod Voting
pub mod Effects
pub mod Call
pub mod Invariant
pub mod Finality
pub mod Nonces
pub mod Execution
pub mod Acknowledge
pub mod Liveness
pub mod Authority
mod Examples
