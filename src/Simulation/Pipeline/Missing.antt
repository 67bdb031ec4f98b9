-- ===== src/Simulation/Pipeline/Missing.antt =====
-- What the pipeline does with a latency injection that has no latency.
use netscope_x.Prelude.{
  Bool, true, none, some, List, [], ◌∷◌, map, Text, ◌&&◌, ◌==◌, nat_ord, list_ord, any, all,
  contains, keep_if, Dict, Result, ok, raise, traverse, type_error, ◌≡◌, refl, sym, ap, ◌∙◌, arith,
  Bool-cases, inl, inr, ==_iff, ==_self,
}
use netscope_x.Models.Floats.{Floats}
use netscope_x.Models.Failure.{FailureScenario, latency_injection, target_matches_failure_type}
use netscope_x.Models.Topology.{Edge, TopologyGraph, node_ids, edges_reference_known_nodes}
use netscope_x.Simulation.Injection.{
  FailureInjectionResult, effect_of, degrade, touches_node, incident_edge_ids,
}
use netscope_x.Simulation.Injection.Removal.{is_applicable, contains-incident}
use netscope_x.Simulation.Injection.Isolation.{result_of, apply_failure_scenario_lem}
use netscope_x.Simulation.Routes.{
  Costs, PathFinder, Components, edge_weight, degraded_weight, weighted_edge, build_weighted_graph,
  compute_shortest_path, compute_route_change,
}
use netscope_x.Simulation.Routes.Found.{FindsPaths, compute_shortest_path-ok}
use netscope_x.Simulation.Propagation.{CausalCandidate}
use netscope_x.Simulation.Pipeline.{
  neighbors, former_neighbor_ids, set_of, route_pairs, compute_route_changes,
  run_failure_propagation_pipeline,
}
use netscope_x.Simulation.Pipeline.Impacts.{contains-sort_by, contains-set_of, impacts_of-ok}

ok-injective : {A : Type 0} (a b : A) → Result.ok a ≡ ok b → a ≡ b
ok-injective a b e = cc

keep_if-true : {A : Type 0} (xs : List A) → keep_if (λ x. true) xs ≡ xs
keep_if-true [] = refl
keep_if-true (x ∷ xs) = ap (◌∷◌ x) (keep_if-true xs)

any-contains :
    (q : Text → Bool) (xs : List Text) (a : Text)
    → contains xs a ≡ true
    → q a ≡ true
    → any q xs ≡ true
any-contains q [] a h k = absurd (cc)
any-contains q (x ∷ xs) a h k = elim (Bool-cases (x == a)) [
  | inl e ↦ let same = (==_iff x a).0 e in let qx : q x ≡ true = ap q same ∙ k in rw qx refl
  | inr e ↦ let rest = any-contains q xs a (ground (arith, h, e)) k in ground (arith, rest)
]

-- the first element that passes the test raises
traverse-raises :
    {A : Type 0} (f : Text × Text → Result A) (p : Text → Bool) (n : Text) (xs : List Text)
    → ((x : Text) → p x ≡ true → f (x, n) ≡ raise type_error)
    → any p xs ≡ true
    → traverse f (map (λ x. (x, n)) (keep_if p xs)) ≡ raise type_error
traverse-raises f p n [] h k = absurd (cc)
traverse-raises f p n (x ∷ xs) h k = elim (Bool-cases (p x)) [
  | inl e ↦ rw e (rw (h x e) refl)
  | inr e ↦ rw e (traverse-raises f p n xs h (rw e at k))
]

module _ {F : Type 0} where
  -- an edge that touches the node has an id among the incident ones
  any-incident :
      (ids : List Text) (n : Text) (es : List (Edge F))
      → ((i : Text)
          → contains (map (λ e. e.edge_id) (keep_if (touches_node n) es)) i ≡ true
          → contains ids i ≡ true)
      → any (touches_node n) es ≡ true
      → any (λ d. contains ids d.edge_id) es ≡ true
  any-incident ids n [] h k = absurd (cc)
  any-incident ids n (d ∷ es) h k = elim (Bool-cases (touches_node n d)) [
    | inl e ↦
        let here : contains ids d.edge_id ≡ true =
          h d.edge_id (rw e (rw (==_self d.edge_id) refl)) in
        rw here refl
    | inr e ↦
        let there = any-incident ids n es (λ i l. h i (rw e l)) (rw e at k) in ground (arith, there)
  ]

  -- and leads to a neighbour, which is a node of the graph
  neighbor-known :
      (ids : List Text) (n : Text) (es : List (Edge F))
      → all (λ e. contains ids e.source_node_id && contains ids e.target_node_id) es ≡ true
      → any (touches_node n) es ≡ true
      → (a : Text) × (contains (neighbors n es) a ≡ true) × (contains ids a ≡ true)
  neighbor-known ids n [] h k = absurd (cc)
  neighbor-known ids n (d ∷ es) h k = elim (Bool-cases (d.source_node_id == n)) [
    | inl e ↦ (d.target_node_id, rw e (rw (==_self d.target_node_id) refl), ground (arith, h))
    | inr e ↦ elim (Bool-cases (d.target_node_id == n)) [
      | inl f ↦
          (d.source_node_id, rw e (rw f (rw (==_self d.source_node_id) refl)), ground (arith, h))
      | inr f ↦
          let (a, b, c) = neighbor-known ids n es (ground (arith, h)) (rw f at (rw e at k)) in
          (a, rw e (rw f b), c)
    ]
  ]

module _ {F : Type 0} ⦃fl : Floats F⦄ (costs : Costs F) where
  -- a degraded edge has no weight without the latency
  weighted_edge-raises :
      (failure : FailureInjectionResult F) (d : Edge F)
      → failure.scenario.failure_type ≡ latency_injection
      → failure.scenario.latency_ms ≡ none
      → contains failure.degraded_edge_ids d.edge_id ≡ true
      → weighted_edge costs (some failure) d ≡ raise type_error
  unfolding edge_weight degraded_weight
  weighted_edge-raises failure d t l c = rw c (rw t (rw l refl))

  weigh-raises :
      (failure : FailureInjectionResult F) (es : List (Edge F))
      → failure.scenario.failure_type ≡ latency_injection
      → failure.scenario.latency_ms ≡ none
      → any (λ d. contains failure.degraded_edge_ids d.edge_id) es ≡ true
      → traverse (weighted_edge costs (some failure)) es ≡ raise type_error
  unfolding edge_weight
  weigh-raises failure [] t l h = absurd (cc)
  weigh-raises failure (d ∷ es) t l h =
      elim (Bool-cases (contains failure.degraded_edge_ids d.edge_id)) [
        | inl c ↦ rw (weighted_edge-raises failure d t l c) refl
        | inr c ↦ rw c (rw (weigh-raises failure es t l (rw c at h)) refl)
      ]

  module _ (shortest_path : PathFinder F) (finds : FindsPaths shortest_path) where
    compute_route_change-raises :
        (g : TopologyGraph F) (failure : FailureInjectionResult F) (source target : Text)
        → failure.scenario.failure_type ≡ latency_injection
        → failure.scenario.latency_ms ≡ none
        → any (λ d. contains failure.degraded_edge_ids d.edge_id) failure.graph.edges ≡ true
        → contains (node_ids failure.graph.nodes) source ≡ true
        → contains (node_ids failure.graph.nodes) target ≡ true
        → compute_route_change costs shortest_path g failure (source, target) ≡ raise type_error
    unfolding compute_route_change compute_shortest_path build_weighted_graph
    compute_route_change-raises g failure source target t l h a b =
        let (r, e) = compute_shortest_path-ok costs shortest_path finds g source target none refl in
        let weigh = weigh-raises failure failure.graph.edges t l h in
        rw e (rw a (rw b (rw weigh refl)))

module _ {F Role : Type 0} ⦃fl : Floats F⦄ (costs : Costs F) (shortest_path : PathFinder F)
    (connected_components : Components) where
  -- For a valid graph and a latency injection on one of its nodes that gives no latency, which the
  -- validator of a scenario accepts, the pipeline raises TypeError if the node has an edge, where the paths
  -- that networkx finds are paths of the graph.
  pub run_failure_propagation_pipeline-raises :
      (g : TopologyGraph F) (s : FailureScenario F) (cs : List (CausalCandidate F))
      (roles : Dict Text Role) (n : Text)
      → FindsPaths shortest_path
      → edges_reference_known_nodes g ≡ true
      → s.failure_type ≡ latency_injection
      → s.target_node_id ≡ some n
      → s.latency_ms ≡ none
      → is_applicable g s ≡ true
      → any (touches_node n) g.edges ≡ true
      → (target_matches_failure_type s ≡ true)
        × (run_failure_propagation_pipeline costs shortest_path connected_components g s cs roles
            ≡ raise type_error)
  unfolding run_failure_propagation_pipeline compute_route_changes target_matches_failure_type
      effect_of edges_reference_known_nodes former_neighbor_ids
  run_failure_propagation_pipeline-raises g s cs roles n finds vg t sn l a h =
      let vs : target_matches_failure_type s ≡ true = rw t (rw sn refl) in
      let (e, ef, applied, v) = (apply_failure_scenario_lem g s vg vs).0 a in
      let ids = incident_edge_ids g.edges n in
      let same : degrade ids ≡ e = ok-injective (degrade ids) e (rw sn at (rw t at ef)) in
      let failure = result_of g s (degrade ids) in
      let applied' = applied ∙ ap (λ f. ok (result_of g s f)) (sym same) in
      let (is, ei) = impacts_of-ok cs s s.target_node_id in
      let touched = any-incident ids n g.edges (λ i k. contains-incident g.edges n i ∙ k) h in
      let degraded : any (λ d. contains ids d.edge_id) failure.graph.edges ≡ true =
        rw (keep_if-true g.edges) touched in
      let known : contains (node_ids g.nodes) n ≡ true = ground (arith, rw sn at a) in
      let present : contains (node_ids failure.graph.nodes) n ≡ true =
        rw (keep_if-true g.nodes) known in
      let (nb, near, there) = neighbor-known (node_ids g.nodes) n g.edges vg h in
      let there' : contains (node_ids failure.graph.nodes) nb ≡ true =
        rw (keep_if-true g.nodes) there in
      let former : contains (former_neighbor_ids g n) nb ≡ true =
        contains-sort_by (set_of (neighbors n g.edges)) nb
        ∙ contains-set_of (neighbors n g.edges) nb
        ∙ near in
      let routes =
        traverse-raises (compute_route_change costs shortest_path g failure)
          (contains (node_ids failure.graph.nodes)) n (former_neighbor_ids g n)
          (λ x k.
            compute_route_change-raises costs shortest_path finds g failure x n t l degraded k
              present)
          (any-contains (contains (node_ids failure.graph.nodes)) (former_neighbor_ids g n) nb
            former there') in
      let changes : compute_route_changes costs shortest_path g failure ≡ raise type_error =
        ap
          (λ o.
            traverse (compute_route_change costs shortest_path g failure)
              (route_pairs g failure.graph o s.target_edge_id))
          sn
        ∙ routes in
      (vs, rw applied' (rw ei (rw changes refl)))
