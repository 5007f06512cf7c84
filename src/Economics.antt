-- ===== src/Economics.antt =====
-- The economics pallet, xx-economics/src/lib.rs, inflation.rs and rewards.rs.
pub mod Pallet
pub mod Sorting
pub mod Inflation
pub mod Interest
pub mod Payout
pub mod Rewards
pub mod Authority
mod Examples
