-- ===== src/Samples/Failures.antt =====
-- A small graph with a failure, and the theorems on failures applied to it.
use netscope_x.Prelude.{
  ℕ, true, false, none, some, List, [], ◌∷◌, Text, text, ◌≡◌, refl, ok, raise, All, value_error,
  not, nat_ord, list_ord, AreDistinct, keep_if, ◌==◌, String, sort_by, place,
}
use netscope_x.Models.Topology.{Node, Edge, TopologyGraph, edges_reference_known_nodes, build_graph}
use netscope_x.Models.Failure.{
  node_failure, FailureScenario, target_matches_failure_type, PropagationImpact,
}
use netscope_x.Simulation.Injection.{
  FailureInjectionResult, touches_node, Effect, effect_of, injected_graph, apply_failure_scenario,
  incident_edge_ids,
}
use netscope_x.Simulation.Injection.Removal.{is_applicable}
use netscope_x.Simulation.Injection.Isolation.{
  result_of, apply_failure_scenario_lem, node_failure-isolates,
}
use netscope_x.Simulation.Propagation.{CausalCandidate, propagate_failure}
use netscope_x.Simulation.Propagation.Loops.{affected, order_of, IsCaused}
use netscope_x.Simulation.Propagation.Orders.{expected_order, propagate_failure_lem}
use netscope_x.Samples.Whole.{whole}

abbrev pub node : String → Node
node id = record {
  node_id = text id;
  ip_addresses = text id ∷ [];
  first_observed = 0;
  last_observed = 1;
}

abbrev pub edge : String → String → String → Edge ℕ
edge id a b = record {
  edge_id = text id;
  source_node_id = text a;
  target_node_id = text b;
  confidence = 1;
  evidence = [];
  observation_count = 1;
  first_observed = 0;
  last_observed = 1;
  protocols = [];
}

abbrev pub triangle : TopologyGraph ℕ
triangle = record {
  graph_id = text "g";
  generated_at = 2;
  nodes = node "a" ∷ node "b" ∷ node "c" ∷ [];
  edges = edge "ab" "a" "b" ∷ edge "bc" "b" "c" ∷ edge "ac" "a" "c" ∷ [];
}

abbrev pub failing_b : FailureScenario ℕ
failing_b = record {
  scenario_id = text "s";
  failure_type = node_failure;
  target_node_id = some (text "b");
  target_edge_id = none;
  latency_ms = none;
  packet_loss_ratio = none;
  bandwidth_reduction_ratio = none;
}

abbrev pub candidate : String → String → String → CausalCandidate ℕ
candidate id a b = record {
  dependency_id = text id;
  source_node_id = text a;
  target_node_id = text b;
  strength = 1;
  temporal_precedence_score = 1;
  rationale = [];
}

-- a cycle with a chord
abbrev pub candidates : List (CausalCandidate ℕ)
candidates =
    candidate "1" "a" "b"
    ∷ candidate "2" "b" "c"
    ∷ candidate "3" "c" "a"
    ∷ candidate "4" "c" "d"
    ∷ []

pub b_is_applicable : is_applicable triangle failing_b ≡ true
b_is_applicable = refl

pub triangle_valid : edges_reference_known_nodes triangle ≡ true
unfolding edges_reference_known_nodes
triangle_valid = refl

pub b_matches : target_matches_failure_type failing_b ≡ true
unfolding target_matches_failure_type
b_matches = refl

apply_failure_scenario_lem_example :
    (is_applicable triangle failing_b ≡ true
      → (e : Effect) × (effect_of node_failure triangle.edges (some (text "b")) none ≡ ok e)
        × (apply_failure_scenario triangle failing_b ≡ ok (result_of triangle failing_b e))
        × (edges_reference_known_nodes (injected_graph triangle failing_b e) ≡ true))
    × (is_applicable triangle failing_b ≡ false
        → apply_failure_scenario triangle failing_b ≡ raise value_error)
apply_failure_scenario_lem_example =
    apply_failure_scenario_lem triangle failing_b triangle_valid b_matches

-- the triangle without `b`
abbrev pub without_b : FailureInjectionResult ℕ
without_b = record {
  scenario = failing_b;
  graph = record {
    graph_id = text "g:failure:s";
    generated_at = 2;
    nodes = node "a" ∷ node "c" ∷ [];
    edges = edge "ac" "a" "c" ∷ [];
  };
  removed_node_ids = text "b" ∷ [];
  removed_edge_ids = text "ab" ∷ text "bc" ∷ [];
  degraded_edge_ids = [];
}

run_b : apply_failure_scenario triangle failing_b ≡ ok without_b
unfolding apply_failure_scenario build_graph incident_edge_ids sort_by place
run_b = refl

node_failure-isolates_example :
    ((node "a" ∷ node "c" ∷ []) ≡ keep_if (λ m. not (text "b" == m.node_id)) triangle.nodes)
    × ((edge "ac" "a" "c" ∷ []) ≡ keep_if (λ d. not (touches_node (text "b") d)) triangle.edges)
    × (without_b.degraded_edge_ids ≡ [])
node_failure-isolates_example =
    node_failure-isolates triangle failing_b (text "b") without_b triangle_valid
      (refl, (refl, (refl, tt))) refl refl run_b

propagate_failure_lem_example :
    (impacts : List PropagationImpact) × (propagate_failure candidates (text "s") (text "a")
      ≡ ok impacts)
    × AreDistinct (affected impacts)
    × ((j : Text) → order_of j impacts ≡ expected_order candidates (text "a") j)
    × All (IsCaused candidates) impacts
propagate_failure_lem_example = propagate_failure_lem candidates (text "s") (text "a")
