-- ===== src/Simulation/Pipeline.antt =====
-- backend/simulation/failure_propagation_pipeline.py
use netscope_x.Prelude.{
  ℕ, Bool, true, false, Option, none, some, List, [], ◌∷◌, ◌++◌, map, Text, ◌&&◌, ◌||◌, not, ◌==◌,
  ◌<=◌, if◌then◌else◌, nat_ord, list_ord, contains, keep_if, sort_by, Dict, lookup, insert, keys,
  add, Result, ok, raise, ◌>>=◌, traverse,
}
use netscope_x.Models.Floats.{Floats}
use netscope_x.Models.Failure.{FailureScenario, PropagationImpact, ImpactOrder}
use netscope_x.Models.Topology.{Edge, TopologyGraph, node_ids}
use netscope_x.Simulation.Injection.{FailureInjectionResult, apply_failure_scenario, text_le}
use netscope_x.Simulation.Routes.{
  ConnectivityResult, RouteChange, Costs, PathFinder, Components, compute_connectivity,
  compute_route_change,
}
use netscope_x.Simulation.Propagation.{CausalCandidate, propagate_failure}
pub mod Impacts
pub mod Missing

pub data ImpactReason : Type 0 where
  by_propagation by_routing by_both : ImpactReason

-- `Role` stands for `RoleClassification`
pub record ServiceImpact (Role : Type 0) : Type 0 where
  pub node_id : Text
  pub reason : ImpactReason
  pub propagation_order : Option ImpactOrder
  pub newly_unreachable : Bool
  pub role_classification : Option Role

pub record FailurePipelineResult (F Role : Type 0) : Type 0 where
  pub scenario : FailureScenario F
  pub injection : FailureInjectionResult F
  pub propagation_impacts : List PropagationImpact
  pub connectivity_before : ConnectivityResult
  pub connectivity_after : ConnectivityResult
  pub newly_unreachable_node_ids : List Text
  pub route_changes : List (RouteChange F)
  pub service_impacts : List (ServiceImpact Role)

-- a set of the elements of a list
abbrev pub set_of : List Text → List Text
set_of [] = []
set_of (x ∷ xs) = let rest = set_of xs in if contains rest x then rest else x ∷ rest

-- `sorted(set(xs))`
abbrev pub sorted_set : List Text → List Text
sorted_set xs = sort_by text_le (set_of xs)

-- the neighbour that an edge adds
abbrev pub neighbor_along : {F : Type 0} → Text → Edge F → List Text
neighbor_along node_id e =
    if e.source_node_id == node_id
    then e.target_node_id ∷ []
    else if e.target_node_id == node_id
    then e.source_node_id ∷ []
    else []

abbrev pub given_pair : Option (Text × Text) → List (Text × Text)
given_pair none = []
given_pair (some p) = p ∷ []

module _ {F : Type 0} where
  abbrev pub neighbors : Text → List (Edge F) → List Text
  neighbors node_id [] = []
  neighbors node_id (e ∷ es) = neighbor_along node_id e ++ neighbors node_id es

  unfoldable pub former_neighbor_ids : TopologyGraph F → Text → List Text
  former_neighbor_ids graph node_id = sorted_set (neighbors node_id graph.edges)

  unfoldable pub edge_endpoints : List (Edge F) → Text → Option (Text × Text)
  edge_endpoints [] edge_id = none
  edge_endpoints (e ∷ es) edge_id =
      if e.edge_id == edge_id
      then some (e.source_node_id, e.target_node_id)
      else edge_endpoints es edge_id

  -- the pairs of nodes whose routes are compared
  abbrev pub route_pairs :
      TopologyGraph F → TopologyGraph F → Option Text → Option Text → List (Text × Text)
  route_pairs graph injected (some node) edge =
      map (λ neighbor. (neighbor, node))
        (keep_if (contains (node_ids injected.nodes)) (former_neighbor_ids graph node))
  route_pairs graph injected none (some edge) = given_pair (edge_endpoints graph.edges edge)
  route_pairs graph injected none none = []

  unfoldable pub newly_unreachable :
      FailureInjectionResult F → ConnectivityResult → ConnectivityResult → List Text
  newly_unreachable injection before after = sorted_set (
      keep_if (λ n. not (contains after.largest_component_node_ids n))
        (keep_if (λ n. not (contains injection.removed_node_ids n))
          before.largest_component_node_ids))

-- `{impact.affected_node_id: impact.order.value for impact in impacts}`
unfoldable pub order_by_node :
    Dict Text ImpactOrder → List PropagationImpact → Dict Text ImpactOrder
order_by_node d [] = d
order_by_node d (i ∷ is) = order_by_node (insert i.affected_node_id i.order d) is

abbrev pub reason_of : Bool → Bool → ImpactReason
reason_of true true = by_both
reason_of true false = by_propagation
reason_of false b = by_routing

-- the loop over the impacted nodes
unfoldable pub service_impacts_of :
    {Role : Type 0}
    → Dict Text ImpactOrder
    → List Text
    → Dict Text Role
    → List Text
    → List (ServiceImpact Role)
service_impacts_of orders unreachable roles [] = []
service_impacts_of orders unreachable roles (n ∷ ns) =
    record {
      node_id = n;
      reason = reason_of (contains (keys orders) n) (contains unreachable n);
      propagation_order = lookup n orders;
      newly_unreachable = contains unreachable n;
      role_classification = lookup n roles;
    }
    ∷ service_impacts_of orders unreachable roles ns

module _ {F : Type 0} ⦃fl : Floats F⦄ where
  unfoldable pub impacts_of :
      List (CausalCandidate F) → FailureScenario F → Option Text → Result (List PropagationImpact)
  impacts_of candidates scenario none = ok []
  impacts_of candidates scenario (some n) = propagate_failure candidates scenario.scenario_id n

module _ {F : Type 0} ⦃fl : Floats F⦄ (costs : Costs F) (shortest_path : PathFinder F) where
  -- `_compute_route_changes`
  unfoldable pub compute_route_changes :
      TopologyGraph F → FailureInjectionResult F → Result (List (RouteChange F))
  compute_route_changes graph injection =
      traverse (compute_route_change costs shortest_path graph injection) (
        route_pairs graph injection.graph injection.scenario.target_node_id
          injection.scenario.target_edge_id)

module _ {F Role : Type 0} ⦃fl : Floats F⦄ (costs : Costs F) (shortest_path : PathFinder F)
    (connected_components : Components) where
  unfoldable pub run_failure_propagation_pipeline :
      TopologyGraph F
      → FailureScenario F
      → List (CausalCandidate F)
      → Dict Text Role
      → Result (FailurePipelineResult F Role)
  unfolding impacts_of order_by_node service_impacts_of newly_unreachable compute_route_changes
      compute_connectivity
  run_failure_propagation_pipeline graph scenario candidates roles = do
    injection ← apply_failure_scenario graph scenario
    impacts ← impacts_of candidates scenario scenario.target_node_id
    let before = compute_connectivity connected_components graph
    let after = compute_connectivity connected_components injection.graph
    let unreachable = newly_unreachable injection before after
    changes ← compute_route_changes costs shortest_path graph injection
    let orders = order_by_node [] impacts
    ok (record {
      scenario = scenario;
      injection = injection;
      propagation_impacts = impacts;
      connectivity_before = before;
      connectivity_after = after;
      newly_unreachable_node_ids = unreachable;
      route_changes = changes;
      service_impacts =
          service_impacts_of orders unreachable roles (sorted_set (keys orders ++ unreachable));
    })
