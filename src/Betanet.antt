-- ===== src/Betanet.antt =====
-- The betanet rewards pallet, xx-betanet-rewards/src/lib.rs.
pub mod Options
pub mod Pallet
pub mod Enact
pub mod Credited
pub mod Leftovers
pub mod Shares
pub mod Locks
pub mod Program
pub mod Course
pub mod Registers
mod Examples
