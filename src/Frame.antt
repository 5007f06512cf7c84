-- ===== src/Frame.antt =====
-- The parts of the FRAME support library that the pallets are written against, as far as their
-- code shows them: errors, origins, dispatch functions, storage maps. A pallet's error and event
-- enumerations stand with the pallet; the currency is a parameter (Frame/Currency.antt).
mod Dispatch
pub mod StorageMap
pub mod Currency
pub mod Coins
pub mod Perbill
pub use Dispatch.*
