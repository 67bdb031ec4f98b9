-- ===== src/Simulation/Pipeline/Impacts.antt =====
-- Which nodes the pipeline reports as impacted.
use netscope_x.Prelude.{
  true, false, Option, none, some, List, [], ◌∷◌, ◌++◌, map, Text, ◌||◌, ◌==◌, nat_ord, list_ord,
  contains, contains-append, contains-keys-insert, AreDistinct, sort_by, place, Dict, insert, keys,
  ok, ◌≡◌, refl, ap, ◌∙◌, arith, Bool-cases, inl, inr, ==_iff, ==_comm,
}
use netscope_x.Models.Floats.{Floats}
use netscope_x.Models.Failure.{
  FailureScenario, PropagationImpact, ImpactOrder, target_matches_failure_type,
}
use netscope_x.Models.Topology.{TopologyGraph, edges_reference_known_nodes}
use netscope_x.Simulation.Injection.{Effect, text_le}
use netscope_x.Simulation.Injection.Removal.{is_applicable}
use netscope_x.Simulation.Injection.Isolation.{result_of, apply_failure_scenario_lem}
use netscope_x.Simulation.Routes.{
  RouteChange, Costs, PathFinder, Components, compute_connectivity, compute_route_change,
}
use netscope_x.Simulation.Routes.Found.{
  has_magnitude, FindsPaths, traverse_ok, compute_route_change-ok,
}
use netscope_x.Simulation.Propagation.{CausalCandidate}
use netscope_x.Simulation.Propagation.Loops.{affected}
use netscope_x.Simulation.Propagation.Orders.{propagate_failure_lem}
use netscope_x.Simulation.Pipeline.{
  ServiceImpact, FailurePipelineResult, set_of, sorted_set, order_by_node, service_impacts_of,
  impacts_of, newly_unreachable, route_pairs, compute_route_changes,
  run_failure_propagation_pipeline,
}

contains-place :
    (x : Text) (ys : List Text) (a : Text)
    → contains (place text_le x ys) a ≡ (x == a || contains ys a)
unfolding place
contains-place x [] a = refl
contains-place x (y ∷ ys) a = ground (arith, contains-place x ys a)

pub contains-sort_by : (xs : List Text) (a : Text) → contains (sort_by text_le xs) a ≡ contains xs a
unfolding sort_by
contains-sort_by [] a = refl
contains-sort_by (x ∷ xs) a =
    ground (arith, contains-place x (sort_by text_le xs) a, contains-sort_by xs a)

place-AreDistinct :
    (x : Text) (ys : List Text)
    → contains ys x ≡ false
    → AreDistinct ys
    → AreDistinct (place text_le x ys)
unfolding place
place-AreDistinct x [] h k = (refl, tt)
place-AreDistinct x (y ∷ ys) h (k, ks) = elim (Bool-cases (text_le x y)) [
  | inl e ↦ rw e (h, (k, ks))
  | inr e ↦
      rw e (
        ground (arith, contains-place x ys y, ==_comm x y),
        place-AreDistinct x ys (ground arith) ks,
      )
]

sort_by-AreDistinct : (xs : List Text) → AreDistinct xs → AreDistinct (sort_by text_le xs)
unfolding sort_by
sort_by-AreDistinct [] h = tt
sort_by-AreDistinct (x ∷ xs) (h, hs) =
    place-AreDistinct x (sort_by text_le xs) (contains-sort_by xs x ∙ h) (sort_by-AreDistinct xs hs)

pub contains-set_of : (xs : List Text) (a : Text) → contains (set_of xs) a ≡ contains xs a
contains-set_of [] a = refl
contains-set_of (x ∷ xs) a = ground (arith, contains-set_of xs a, contains-set_of xs x, ==_iff x a)

set_of-AreDistinct : (xs : List Text) → AreDistinct (set_of xs)
set_of-AreDistinct [] = tt
set_of-AreDistinct (x ∷ xs) = elim (Bool-cases (contains (set_of xs) x)) [
  | inl e ↦ rw e (set_of-AreDistinct xs)
  | inr e ↦ rw e (e, set_of-AreDistinct xs)
]

contains-order_by_node :
    (d : Dict Text ImpactOrder) (is : List PropagationImpact) (n : Text)
    → contains (keys (order_by_node d is)) n ≡ (contains (keys d) n || contains (affected is) n)
unfolding order_by_node
contains-order_by_node d [] n = ground arith
contains-order_by_node d (i ∷ is) n =
    contains-order_by_node (insert i.affected_node_id i.order d) is n
    ∙ ground (arith, contains-keys-insert i.affected_node_id n i.order d)

abbrev pub impacted : {Role : Type 0} → List (ServiceImpact Role) → List Text
impacted = map (λ i. i.node_id)

impacted-service_impacts_of :
    {Role : Type 0} (orders : Dict Text ImpactOrder) (unreachable : List Text)
    (roles : Dict Text Role) (ns : List Text)
    → impacted (service_impacts_of orders unreachable roles ns) ≡ ns
unfolding service_impacts_of
impacted-service_impacts_of orders unreachable roles [] = refl
impacted-service_impacts_of orders unreachable roles (n ∷ ns) =
    ap (◌∷◌ n) (impacted-service_impacts_of orders unreachable roles ns)

module _ {F : Type 0} ⦃fl : Floats F⦄ where
  pub impacts_of-ok :
      (cs : List (CausalCandidate F)) (s : FailureScenario F) (n : Option Text)
      → (is : List PropagationImpact) × (impacts_of cs s n ≡ ok is)
  unfolding impacts_of
  impacts_of-ok cs s none = ([], refl)
  impacts_of-ok cs s (some n) =
      let found = propagate_failure_lem cs s.scenario_id n in (found.0, found.1)

module _ {F Role : Type 0} ⦃fl : Floats F⦄ (costs : Costs F) (shortest_path : PathFinder F)
    (connected_components : Components) where
  abbrev outcome :
      TopologyGraph F
      → FailureScenario F
      → Dict Text Role
      → Effect
      → List PropagationImpact
      → List (RouteChange F)
      → FailurePipelineResult F Role
  outcome g s roles e is changes =
      let injection = result_of g s e in
      let before = compute_connectivity connected_components g in
      let after = compute_connectivity connected_components injection.graph in
      let unreachable = newly_unreachable injection before after in
      record {
        scenario = s;
        injection = injection;
        propagation_impacts = is;
        connectivity_before = before;
        connectivity_after = after;
        newly_unreachable_node_ids = unreachable;
        route_changes = changes;
        service_impacts =
            service_impacts_of (order_by_node [] is) unreachable roles
              (sorted_set (keys (order_by_node [] is) ++ unreachable));
      }

  -- For a valid graph and a scenario that can be applied to it, which has its latency if it injects one,
  -- and where the paths that networkx finds are paths of the graph, the pipeline returns. Each node has
  -- at most one service impact, and has one exactly if the failure propagates to it or it became
  -- unreachable.
  pub run_failure_propagation_pipeline_lem :
      (g : TopologyGraph F) (s : FailureScenario F) (cs : List (CausalCandidate F))
      (roles : Dict Text Role)
      → FindsPaths shortest_path
      → edges_reference_known_nodes g ≡ true
      → target_matches_failure_type s ≡ true
      → has_magnitude s ≡ true
      → is_applicable g s ≡ true
      → (r : FailurePipelineResult F Role) × (run_failure_propagation_pipeline costs shortest_path
            connected_components g s cs roles
          ≡ ok r)
        × AreDistinct (impacted r.service_impacts)
        × ((n : Text)
            → contains (impacted r.service_impacts) n ≡ (
                contains (affected r.propagation_impacts) n
                || contains r.newly_unreachable_node_ids n))
  unfolding run_failure_propagation_pipeline impacts_of compute_route_changes
  run_failure_propagation_pipeline_lem g s cs roles finds vg vs mag a =
      let (e, ee, applied, v) = (apply_failure_scenario_lem g s vg vs).0 a in
      let (is, ei) = impacts_of-ok cs s s.target_node_id in
      let injection = result_of g s e in
      let (changes, er) =
        traverse_ok (compute_route_change costs shortest_path g injection)
          (λ pair. compute_route_change-ok costs shortest_path finds g injection pair (vs, mag))
          (route_pairs g injection.graph s.target_node_id s.target_edge_id) in
      let orders = order_by_node [] is in
      let unreachable = (outcome g s roles e is changes).newly_unreachable_node_ids in
      let ids = keys orders ++ unreachable in
      (
        outcome g s roles e is changes,
        rw applied (rw ei (rw er refl)),
        rw (impacted-service_impacts_of orders unreachable roles (sorted_set ids))
            (sort_by-AreDistinct (set_of ids) (set_of-AreDistinct ids)),
        λ n. rw (impacted-service_impacts_of orders unreachable roles (sorted_set ids)) (
            contains-sort_by (set_of ids) n
            ∙ contains-set_of ids n
            ∙ contains-append (keys orders) unreachable n
            ∙ ap (λ b. b || contains unreachable n) (contains-order_by_node [] is n)),
      )
