-- ===== src/Simulation.antt =====
-- backend/simulation and backend/dependency/failure_propagation.py: what a failure does to a graph.
pub mod Injection
pub mod Propagation
pub mod Pipeline
pub mod Routes
