-- ===== src/Public.antt =====
-- The public accounts pallet, xx-public/src/lib.rs.
pub mod Pallet
pub mod Authority
pub mod Distribution
mod Examples
