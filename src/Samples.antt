-- ===== src/Samples.antt =====
-- Concrete data on which the theorems are applied, and the applications.
pub mod Whole
pub mod Captures
pub mod Failures
pub mod Twins
pub mod Changes
pub mod Pipelines
pub mod Exports
pub mod Services
pub mod Repairs
