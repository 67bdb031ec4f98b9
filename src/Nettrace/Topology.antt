-- ===== src/Nettrace/Topology.antt =====
-- backend/nettrace/topology: nodes, edges, and the reconstruction that keeps up with new packets.
pub mod Discovery
pub mod Incremental
