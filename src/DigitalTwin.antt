-- ===== src/DigitalTwin.antt =====
-- backend/digital_twin: the twin, its synchronization and the daemon that keeps it synchronized.
pub mod Merge
pub mod Sync
pub mod Daemon
