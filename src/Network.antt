-- ===== src/Network.antt =====
-- The runtime of runtime/xxnetwork/src/lib.rs: which calls it lets through, and the bridge with the
-- swap pallet behind it.
pub mod Filter
pub mod Superset
pub mod Dispatcher
pub mod Delivery
pub mod Unvested
pub mod Constants
pub mod Origins
pub mod Demand
pub mod Administration
pub mod Moving
pub mod Allocations
mod Examples
