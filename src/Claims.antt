-- ===== src/Claims.antt =====
-- The claims pallet, claims/src/lib.rs.
pub mod Storage
pub mod Message
pub mod Process
pub mod Calls
pub mod Validity
pub mod Hex
pub mod Signable
pub mod Paid
pub mod Outcome
pub mod Books
pub mod Credited
pub mod History
pub mod Agreement
pub mod Attested
pub mod Moved
pub mod Genesis
mod Examples
pub mod Address
pub mod Ledger
pub mod Refinement
