-- ===== src/Archaeology.antt =====
-- backend/archaeology: how the topology of a capture changes over time.
pub mod Diff
