-- ===== src/Simulation/Injection.antt =====
-- backend/simulation/failure_injection.py
use netscope_x.Prelude.{
  Bool, true, false, Option, none, some, List, [], ◌∷◌, ◌++◌, map, Text, text, ◌&&◌, ◌||◌, not,
  ◌==◌, ◌<=◌, if◌then◌else◌, nat_ord, list_ord, contains, keep_if, sort_by, Result, ok, raise,
  check, value_error, ◌>>=◌, ◌>>◌, all, any, ◌≡◌, refl, arith, All, Bool-cases, inl, inr, ==_iff,
  ◌↔◌, ap, ◌∙◌, sym,
}
use netscope_x.Models.Topology.{
  Node, Edge, TopologyGraph, node_ids, edges_reference_known_nodes, build_graph,
}
use netscope_x.Models.Failure.{
  FailureType, node_failure, edge_failure, latency_injection, packet_loss, bandwidth_reduction,
  service_degradation, FailureScenario, target_matches_failure_type,
}
pub mod Removal
pub mod Isolation

pub record FailureInjectionResult (F : Type 0) : Type 0 where
  pub scenario : FailureScenario F
  pub graph : TopologyGraph F
  pub removed_node_ids : List Text
  pub removed_edge_ids : List Text
  pub degraded_edge_ids : List Text

abbrev pub text_le : Text → Text → Bool
text_le a b = a <= b

-- a target that is given and not there
abbrev pub is_unknown : List Text → Option Text → Bool
is_unknown ids none = false
is_unknown ids (some i) = not (contains ids i)

-- `removed_node_ids`, `removed_edge_ids` and `degraded_edge_ids`
pub record Effect : Type 0 where
  pub removed_nodes : List Text
  pub removed_edges : List Text
  pub degraded : List Text

-- what the scenario does, by its failure type; the validator of a scenario has seen
-- to it that NODE_FAILURE, LATENCY_INJECTION and SERVICE_DEGRADATION have a node and EDGE_FAILURE an edge
abbrev pub given : Option Text → List Text
given none = []
given (some i) = i ∷ []

abbrev pub degrade : List Text → Effect
degrade ids = record { removed_nodes = []; removed_edges = []; degraded = ids }

module _ {F : Type 0} where
  abbrev pub touches_node : Text → Edge F → Bool
  touches_node node_id e = e.source_node_id == node_id || e.target_node_id == node_id

  unfoldable pub incident_edge_ids : List (Edge F) → Text → List Text
  incident_edge_ids edges node_id =
      sort_by text_le (map (λ e. e.edge_id) (keep_if (touches_node node_id) edges))

  abbrev pub edge_ids : List (Edge F) → List Text
  edge_ids = map (λ e. e.edge_id)

  abbrev pub incident_to : List (Edge F) → Option Text → List Text
  incident_to edges none = []
  incident_to edges (some i) = incident_edge_ids edges i

  -- PACKET_LOSS and BANDWIDTH_REDUCTION: the edge if one is given, else the edges of the node
  abbrev pub ratio_effect : List (Edge F) → Option Text → Option Text → Result Effect
  ratio_effect edges target_node (some e) = ok (degrade (e ∷ []))
  ratio_effect edges (some n) none = ok (degrade (incident_edge_ids edges n))
  ratio_effect edges none none = raise value_error

  unfoldable pub effect_of : FailureType → List (Edge F) → Option Text → Option Text → Result Effect
  effect_of node_failure edges target_node target_edge = ok (record {
    removed_nodes = given target_node;
    removed_edges = incident_to edges target_node;
    degraded = [];
  })
  effect_of edge_failure edges target_node target_edge =
      ok (record { removed_nodes = []; removed_edges = given target_edge; degraded = [] })
  effect_of latency_injection edges target_node target_edge =
      ok (degrade (incident_to edges target_node))
  effect_of service_degradation edges target_node target_edge =
      ok (degrade (incident_to edges target_node))
  effect_of packet_loss edges target_node target_edge = ratio_effect edges target_node target_edge
  effect_of bandwidth_reduction edges target_node target_edge =
      ratio_effect edges target_node target_edge

  abbrev pub remaining_nodes : TopologyGraph F → Effect → List Node
  remaining_nodes g e = keep_if (λ n. not (contains e.removed_nodes n.node_id)) g.nodes

  abbrev pub remaining_edges : TopologyGraph F → Effect → List (Edge F)
  remaining_edges g e = keep_if (λ d. not (contains e.removed_edges d.edge_id)) g.edges

  -- the graph without what the failure removes
  abbrev pub injected_graph : TopologyGraph F → FailureScenario F → Effect → TopologyGraph F
  injected_graph g s e = record {
    graph_id = g.graph_id ++ text ":failure:" ++ s.scenario_id;
    generated_at = g.generated_at;
    nodes = remaining_nodes g e;
    edges = remaining_edges g e;
  }

  unfoldable pub apply_failure_scenario :
      TopologyGraph F → FailureScenario F → Result (FailureInjectionResult F)
  unfolding effect_of
  apply_failure_scenario g s = do
    check (not (is_unknown (node_ids g.nodes) s.target_node_id)) value_error
    check (not (is_unknown (edge_ids g.edges) s.target_edge_id)) value_error
    e ← effect_of s.failure_type g.edges s.target_node_id s.target_edge_id
    injected ← build_graph (injected_graph g s e)
    ok (record {
      scenario = s;
      graph = injected;
      removed_node_ids = e.removed_nodes;
      removed_edge_ids = e.removed_edges;
      degraded_edge_ids = e.degraded;
    })
