-- ===== src/Models/Failure.antt =====
-- backend/app/models/failure.py: failure scenarios and impacts, with the checks of their validators.
use netscope_x.Prelude.{
  Bool, true, false, Option, List, Text, ◌&&◌, not, Result, check, ok, validation_error, ◌>>◌,
}
use netscope_x.Models.Flow.{is_some}

pub data FailureType : Type 0 where
  node_failure edge_failure latency_injection packet_loss bandwidth_reduction service_degradation :
      FailureType

pub record FailureScenario (F : Type 0) : Type 0 where
  pub scenario_id : Text
  pub failure_type : FailureType
  pub target_node_id : Option Text
  pub target_edge_id : Option Text
  pub latency_ms : Option F
  pub packet_loss_ratio : Option F
  pub bandwidth_reduction_ratio : Option F

-- `_target_matches_failure_type`: which field each failure type requires
unfoldable pub target_matches_failure_type : {F : Type 0} → FailureScenario F → Bool
target_matches_failure_type s = elim s.failure_type [
  | node_failure ↦ is_some s.target_node_id
  | latency_injection ↦ is_some s.target_node_id
  | service_degradation ↦ is_some s.target_node_id
  | edge_failure ↦ is_some s.target_edge_id
  | packet_loss ↦ is_some s.packet_loss_ratio
  | bandwidth_reduction ↦ is_some s.bandwidth_reduction_ratio
]

pub data ImpactOrder : Type 0 where
  primary secondary tertiary : ImpactOrder

pub record PropagationImpact : Type 0 where
  pub scenario_id : Text
  pub affected_node_id : Text
  pub order : ImpactOrder
  pub caused_by_node_id : Option Text
  pub evidence : List Text

abbrev pub is_primary : ImpactOrder → Bool
is_primary primary = true
is_primary _ = false

-- `_primary_has_no_cause`: a primary impact has no cause, any other has one
unfoldable pub primary_has_no_cause : PropagationImpact → Bool
primary_has_no_cause i =
    not (is_primary i.order && is_some i.caused_by_node_id)
    && not (not (is_primary i.order) && not (is_some i.caused_by_node_id))

-- `PropagationImpact(...)`
unfoldable pub build_impact : PropagationImpact → Result PropagationImpact
unfolding primary_has_no_cause
build_impact i = do check (primary_has_no_cause i) validation_error; ok i
