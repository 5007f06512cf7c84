-- ===== src/Cmix.antt =====
-- The cMix pallet, xx-cmix/src/lib.rs and xx-cmix/src/cmix.rs.
pub mod Variables
pub mod Pallet
pub mod Authority
pub mod Era
mod Examples
