-- ===== src/Nettrace.antt =====
-- backend/nettrace: from packets to flows, and from flows to a topology.
pub mod Fingerprint
pub mod Reconstruct
pub mod Topology
