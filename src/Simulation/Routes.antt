-- ===== src/Simulation/Routes.antt =====
-- backend/simulation/path_engine.py. Its floats, networkx's search for a path and networkx's components
-- are arguments. A failure that is given is that of the graph, as `_check_failure_matches` asks for and
-- the pipeline's calls have it.
use netscope_x.Prelude.{
  ℕ, Bool, true, false, Option, none, some, List, [], ◌∷◌, map, Text, ◌&&◌, ◌||◌, not, ◌==◌, ◌<=◌,
  if◌then◌else◌, ltb, length, nat_ord, list_ord, contains, sort_by, Result, ok, raise, ◌>>=◌,
  traverse, or_raise, key_error, type_error,
}
use netscope_x.Models.Floats.{Floats}
use netscope_x.Models.Failure.{
  FailureType, node_failure, edge_failure, latency_injection, packet_loss, bandwidth_reduction,
  service_degradation, FailureScenario,
}
use netscope_x.Models.Topology.{Edge, TopologyGraph, node_ids}
use netscope_x.Simulation.Injection.{FailureInjectionResult, text_le}
pub mod Found

pub record PathResult (F : Type 0) : Type 0 where
  pub node_ids : List Text
  pub edge_ids : List Text
  pub cost : F

pub record ConnectivityResult : Type 0 where
  pub connected_component_count : ℕ
  pub components : List (List Text)
  pub is_fully_connected : Bool
  pub largest_component_node_ids : List Text

pub record RouteChange (F : Type 0) : Type 0 where
  pub source_node_id : Text
  pub target_node_id : Text
  pub baseline_path : Option (PathResult F)
  pub current_path : Option (PathResult F)
  pub changed : Bool
  pub cost_delta : Option F

-- one `add_edge`, with its attributes
pub record WeightedEdge (F : Type 0) : Type 0 where
  pub source : Text
  pub target : Text
  pub weight : F
  pub edge_id : Text

-- the arithmetic of costs: sums, difference, `-math.log`, and the bounds and the scale of the module
pub record Costs (F : Type 0) : Type 0 where
  pub plus : F → F → F
  pub minus : F → F → F
  pub sum : List F → F
  pub neg_log : F → F
  pub epsilon : F
  pub latency_cost_scale : F

-- `nx.shortest_path` of the graph with these nodes and edges, which has both ends; none is `NetworkXNoPath`
abbrev pub PathFinder : Type 0 → Type 0
PathFinder F = List Text → List (WeightedEdge F) → Text → Text → Option (List Text)

-- the members of the pair, in either order
abbrev pub joins : {F : Type 0} → Text → Text → WeightedEdge F → Bool
joins u v e = (e.source == u && e.target == v) || (e.source == v && e.target == u)

abbrev or_if_joins :
    {F : Type 0} → Text → Text → WeightedEdge F → Option (WeightedEdge F) → Option (WeightedEdge F)
or_if_joins u v e (some later) = some later
or_if_joins u v e none = if joins u v e then some e else none

-- `g[u][v]`: the last edge that was added between the two
unfoldable pub edge_between :
    {F : Type 0} → Text → Text → List (WeightedEdge F) → Option (WeightedEdge F)
edge_between u v [] = none
edge_between u v (e ∷ es) = or_if_joins u v e (edge_between u v es)

-- `zip(path, path[1:])`
abbrev pub path_pairs : List Text → List (Text × Text)
path_pairs [] = []
path_pairs (u ∷ []) = []
path_pairs (u ∷ v ∷ path) = (u, v) ∷ path_pairs (v ∷ path)

module _ {F : Type 0} ⦃fl : Floats F⦄ (costs : Costs F) where
  -- Python's `min` and `max`, which keep the first of equals
  abbrev min_f : F → F → F
  min_f a b = if fl.less b a then b else a

  abbrev max_f : F → F → F
  max_f a b = if fl.less a b then b else a

  unfoldable pub confidence_cost : F → F
  confidence_cost p =
      costs.neg_log (max_f (min_f p (costs.minus fl.one_f costs.epsilon)) costs.epsilon)

  -- `None` has no arithmetic
  abbrev pub plus_if : F → (F → F) → Option F → Result F
  plus_if cost f none = raise type_error
  plus_if cost f (some x) = ok (costs.plus cost (f x))

  -- what the failure adds to the cost of a degraded edge
  unfoldable pub degraded_weight : FailureScenario F → F → FailureType → Result F
  unfolding confidence_cost
  degraded_weight s cost latency_injection =
      plus_if cost (λ x. fl.divide x costs.latency_cost_scale) s.latency_ms
  degraded_weight s cost packet_loss =
      plus_if cost (λ x. confidence_cost (costs.minus fl.one_f x)) s.packet_loss_ratio
  degraded_weight s cost bandwidth_reduction =
      plus_if cost (λ x. confidence_cost (costs.minus fl.one_f x)) s.bandwidth_reduction_ratio
  degraded_weight s cost node_failure = ok cost
  degraded_weight s cost edge_failure = ok cost
  degraded_weight s cost service_degradation = ok cost

  unfoldable pub edge_weight : Option (FailureInjectionResult F) → Edge F → Result F
  unfolding confidence_cost degraded_weight
  edge_weight none e = ok (confidence_cost e.confidence)
  edge_weight (some failure) e =
      if contains failure.degraded_edge_ids e.edge_id
      then degraded_weight failure.scenario (confidence_cost e.confidence)
          failure.scenario.failure_type
      else ok (confidence_cost e.confidence)

  abbrev pub weighted_edge : Option (FailureInjectionResult F) → Edge F → Result (WeightedEdge F)
  weighted_edge failure e = do
    weight ← edge_weight failure e
    ok (record {
      source = e.source_node_id;
      target = e.target_node_id;
      weight = weight;
      edge_id = e.edge_id;
    })

  -- `_build_weighted_graph`, whose nodes are those of the graph
  unfoldable pub build_weighted_graph :
      TopologyGraph F → Option (FailureInjectionResult F) → Result (List (WeightedEdge F))
  unfolding edge_weight
  build_weighted_graph graph failure = traverse (weighted_edge failure) graph.edges

  abbrev pub step_edge : List (WeightedEdge F) → Text × Text → Result (WeightedEdge F)
  step_edge weighted (u, v) = or_raise key_error (edge_between u v weighted)

  unfoldable pub to_path_result : List (WeightedEdge F) → List Text → Result (PathResult F)
  to_path_result weighted path = do
    steps ← traverse (step_edge weighted) (path_pairs path)
    ok (record {
      node_ids = path;
      edge_ids = map (λ e. e.edge_id) steps;
      cost = costs.sum (map (λ e. e.weight) steps);
    })

  abbrev pub result_of_search :
      List (WeightedEdge F) → Option (List Text) → Result (Option (PathResult F))
  result_of_search weighted none = ok none
  result_of_search weighted (some path) = do found ← to_path_result weighted path; ok (some found)

  module _ (shortest_path : PathFinder F) where
    abbrev pub path_between :
        TopologyGraph F
        → Text
        → Text
        → Option (FailureInjectionResult F)
        → Result (Option (PathResult F))
    path_between graph source target failure = do
      weighted ← build_weighted_graph graph failure
      result_of_search weighted (shortest_path (node_ids graph.nodes) weighted source target)

    unfoldable pub compute_shortest_path :
        TopologyGraph F
        → Text
        → Text
        → Option (FailureInjectionResult F)
        → Result (Option (PathResult F))
    unfolding build_weighted_graph to_path_result
    compute_shortest_path graph source target failure =
        if contains (node_ids graph.nodes) source && contains (node_ids graph.nodes) target
        then path_between graph source target failure
        else ok none

    abbrev is_changed : Option (PathResult F) → Option (PathResult F) → Bool
    is_changed none none = false
    is_changed (some a) (some b) = not (a.node_ids == b.node_ids)
    is_changed _ _ = true

    abbrev delta : Option (PathResult F) → Option (PathResult F) → Option F
    delta (some baseline) (some current) = some (costs.minus current.cost baseline.cost)
    delta _ _ = none

    -- `compute_route_change` of the graph and what the failure left of it
    unfoldable pub compute_route_change :
        TopologyGraph F → FailureInjectionResult F → Text × Text → Result (RouteChange F)
    unfolding compute_shortest_path
    compute_route_change graph failure (source, target) = do
      baseline ← compute_shortest_path graph source target none
      current ← compute_shortest_path failure.graph source target (some failure)
      ok (record {
        source_node_id = source;
        target_node_id = target;
        baseline_path = baseline;
        current_path = current;
        changed = is_changed baseline current;
        cost_delta = delta baseline current;
      })

-- `key=lambda c: c[0]`, where no component is empty
abbrev pub by_first_node : List Text → List Text → Bool
by_first_node (a ∷ _) (b ∷ _) = a <= b
by_first_node [] _ = true
by_first_node (a ∷ _) [] = false

-- `max(components, key=len)`, the first of the longest
abbrev pub longest : List Text → List (List Text) → List Text
longest best [] = best
longest best (c ∷ cs) = longest (if ltb (length best) (length c) then c else best) cs

abbrev pub connectivity_of : List (List Text) → ConnectivityResult
connectivity_of components = record {
  connected_component_count = length components;
  components = components;
  is_fully_connected = length components == 1;
  largest_component_node_ids = longest [] components;
}

abbrev pub no_connectivity : ConnectivityResult
no_connectivity = record {
  connected_component_count = 0;
  components = [];
  is_fully_connected = true;
  largest_component_node_ids = [];
}

-- `nx.connected_components` of the graph with these nodes and edges
abbrev pub Components : Type 0
Components = List Text → List (Text × Text) → List (List Text)

unfoldable pub compute_connectivity :
    {F : Type 0} → Components → TopologyGraph F → ConnectivityResult
compute_connectivity connected_components graph =
    if length graph.nodes == 0 && length graph.edges == 0
    then no_connectivity
    else connectivity_of (
        sort_by by_first_node (
          map (sort_by text_le) (
            connected_components (node_ids graph.nodes)
              (map (λ e. (e.source_node_id, e.target_node_id)) graph.edges))))
