-- ===== src/Daemon.antt =====
-- The daemon of src/daemon: the telemetry store, and what feeds it.
pub mod Sink
pub mod Store
pub mod StateServer
pub mod Mirror
pub mod Prune
pub mod Reconcile
pub mod Routes
pub mod Loop
