-- ===== src/Samples/Pipelines.antt =====
-- The pipeline on a small graph, and the theorem on it applied.
use netscope_x.Prelude.{
  ℕ, ◌+◌, ◌-◌, true, none, some, List, [], ◌∷◌, Text, text, ◌≡◌, refl, ok, raise, type_error,
  contains, AreDistinct, ◌||◌, nat_ord, list_ord, any, if◌then◌else◌, Bool-cases, inl, inr, arith,
  sort_by, group,
}
use netscope_x.Models.Topology.{build_graph}
use netscope_x.Models.Failure.{
  FailureScenario, build_impact, latency_injection, target_matches_failure_type,
}
use netscope_x.Simulation.Injection.{apply_failure_scenario, incident_edge_ids}
use netscope_x.Simulation.Propagation.{propagate_failure, visit_frontier, visit_all}
use netscope_x.Simulation.Propagation.Loops.{affected}
use netscope_x.Simulation.Routes.{
  Costs, PathFinder, Components, joins, edge_between, compute_route_change,
}
use netscope_x.Simulation.Routes.Found.{FindsPaths}
use netscope_x.Simulation.Pipeline.{
  former_neighbor_ids, FailurePipelineResult, run_failure_propagation_pipeline,
}
use netscope_x.Simulation.Pipeline.Missing.{run_failure_propagation_pipeline-raises}
use netscope_x.Simulation.Pipeline.Impacts.{impacted, run_failure_propagation_pipeline_lem}
use netscope_x.Samples.Whole.{whole}
use netscope_x.Samples.Failures.{
  triangle, failing_b, candidates, triangle_valid, b_matches, b_is_applicable,
}

abbrev total : List ℕ → ℕ
total [] = 0
total (x ∷ xs) = x + total xs

abbrev whole_costs : Costs ℕ
whole_costs = record {
  plus = λ a b. a + b;
  minus = λ a b. a - b;
  sum = total;
  neg_log = λ x. x;
  epsilon = 0;
  latency_cost_scale = 1;
}

-- the search of a path of one edge
abbrev direct : PathFinder ℕ
direct nodes weighted source target =
    if any (joins source target) weighted then some (source ∷ target ∷ []) else none

direct-FindsPaths : FindsPaths direct
direct-FindsPaths nodes weighted source target path h =
    elim (Bool-cases (any (joins source target) weighted)) [
      | inl e ↦ ground (arith, h)
      | inr e ↦ absurd (cc (rw e at h))
    ]

-- the components of a graph that is connected, as the samples are
abbrev one_component : Components
one_component nodes edges = nodes ∷ []

run_failure_propagation_pipeline_lem_example :
    (r : FailurePipelineResult ℕ Text) × (run_failure_propagation_pipeline whole_costs direct
        one_component triangle failing_b candidates []
      ≡ ok r)
    × AreDistinct (impacted r.service_impacts)
    × ((n : Text)
        → contains (impacted r.service_impacts) n ≡ (
            contains (affected r.propagation_impacts) n || contains r.newly_unreachable_node_ids n))
run_failure_propagation_pipeline_lem_example =
    run_failure_propagation_pipeline_lem whole_costs direct one_component triangle failing_b
      candidates [] direct-FindsPaths triangle_valid b_matches refl b_is_applicable

-- a latency injection whose latency is not given
abbrev slow_b : FailureScenario ℕ
slow_b = record failing_b { failure_type = latency_injection }

slow_b_raises :
    run_failure_propagation_pipeline {Role = Text} whole_costs direct one_component triangle slow_b
      [] []
    ≡ raise type_error
unfolding run_failure_propagation_pipeline apply_failure_scenario build_graph propagate_failure
    build_impact visit_frontier sort_by visit_all group former_neighbor_ids compute_route_change
    edge_between incident_edge_ids
slow_b_raises = refl

run_failure_propagation_pipeline-raises_example :
    (target_matches_failure_type slow_b ≡ true)
    × (run_failure_propagation_pipeline {Role = Text} whole_costs direct one_component triangle
          slow_b candidates []
        ≡ raise type_error)
run_failure_propagation_pipeline-raises_example =
    run_failure_propagation_pipeline-raises whole_costs direct one_component triangle slow_b
      candidates [] (text "b") direct-FindsPaths triangle_valid refl refl refl refl refl
