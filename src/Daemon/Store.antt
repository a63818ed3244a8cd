-- ===== src/Daemon/Store.antt =====
-- The telemetry store of src/daemon/store.rs: its data, its operations, and what they guarantee.
pub mod Types
pub mod Normalise
pub mod Broadcast
pub mod Record
pub mod Ops
pub mod Silent
pub mod Call
pub mod Announce
pub mod Domain
pub mod Keeps
pub mod WellFormed
