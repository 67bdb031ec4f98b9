-- ===== src/Models/Dependency.antt =====
-- `DependencyEdge` of backend/app/models/dependency.py.
use netscope_x.Prelude.{Text}

pub record DependencyEdge (F : Type 0) : Type 0 where
  pub dependency_id : Text
  pub source_node_id : Text
  pub target_node_id : Text
  pub strength : F
  pub frequency : F
  pub persistence_seconds : F
  pub directionality_score : F
  pub temporal_precedence_score : F
