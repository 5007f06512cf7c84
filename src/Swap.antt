-- ===== src/Swap.antt =====
-- The swap pallet, swap/src/lib.rs.
pub mod Pallet
pub mod Moved
pub mod Parts
pub mod Native
pub mod Authority
pub mod Vault
pub mod Locking
pub mod Steps
pub mod Backing
pub mod Genesis
mod Examples
