-- ===== src/Simulation/Routes/Found.antt =====
-- Where the search for a route does not raise.
use netscope_x.Prelude.{
  Bool, true, Option, none, some, List, [], ◌∷◌, Text, ◌&&◌, any, contains, nat_ord, list_ord,
  Result, ok, raise, ◌>>=◌, traverse, ◌≡◌, refl, arith, Bool-cases, Option-cases, inl, inr,
}
use netscope_x.Models.Floats.{Floats}
use netscope_x.Models.Flow.{is_some}
use netscope_x.Models.Failure.{
  FailureType, node_failure, edge_failure, latency_injection, packet_loss, bandwidth_reduction,
  service_degradation, FailureScenario, target_matches_failure_type,
}
use netscope_x.Models.Topology.{Edge, TopologyGraph, node_ids}
use netscope_x.Simulation.Injection.{FailureInjectionResult}
use netscope_x.Simulation.Routes.{
  PathResult, RouteChange, WeightedEdge, Costs, PathFinder, joins, edge_between, path_pairs,
  confidence_cost, plus_if, degraded_weight, edge_weight, weighted_edge, build_weighted_graph,
  step_edge, to_path_result, result_of_search, compute_shortest_path, compute_route_change,
}

-- a LATENCY_INJECTION has its latency, which the validator of a scenario does not ask for
abbrev pub has_magnitude : {F : Type 0} → FailureScenario F → Bool
has_magnitude s = elim s.failure_type [
  | latency_injection ↦ is_some s.latency_ms
  | node_failure ↦ true
  | edge_failure ↦ true
  | packet_loss ↦ true
  | bandwidth_reduction ↦ true
  | service_degradation ↦ true
]

-- the nodes of a path follow each other along edges
abbrev pub is_along : {F : Type 0} → List (WeightedEdge F) → List Text → Bool
is_along weighted [] = true
is_along weighted (u ∷ []) = true
is_along weighted (u ∷ v ∷ path) = any (joins u v) weighted && is_along weighted (v ∷ path)

-- the paths of `nx.shortest_path` are paths of the graph
abbrev pub FindsPaths : {F : Type 0} → PathFinder F → Type 0
FindsPaths {F} shortest_path =
    (nodes : List Text) (weighted : List (WeightedEdge F)) (source target : Text) (path : List Text)
    → shortest_path nodes weighted source target ≡ some path
    → is_along weighted path ≡ true

-- a chain returns where its first statement and what follows it do
next_ok :
    {A B : Type 0} (m : Result A) {next : A → Result B}
    → (a : A) × (m ≡ ok a)
    → ((a : A) → (b : B) × (next a ≡ ok b))
    → (b : B) × ((m >>= next) ≡ ok b)
next_ok (ok x) (a, e) h = h x
next_ok (raise error) (a, e) h = absurd (cc)

pub traverse_ok :
    {A B : Type 0} (f : A → Result B)
    → ((a : A) → (b : B) × (f a ≡ ok b))
    → (xs : List A) → (ys : List B) × (traverse f xs ≡ ok ys)
traverse_ok f h [] = ([], refl)
traverse_ok f h (x ∷ xs) =
    let (y, e) = h x in let (ys, es) = traverse_ok f h xs in (y ∷ ys, rw e (rw es refl))

edge_between-some :
    {F : Type 0} (u v : Text) (es : List (WeightedEdge F))
    → any (joins u v) es ≡ true
    → (e : WeightedEdge F) × (edge_between u v es ≡ some e)
unfolding edge_between
edge_between-some u v [] h = absurd (cc)
edge_between-some u v (e ∷ es) h = elim (Option-cases (edge_between u v es)) [
  | inr (later, k) ↦ (later, rw k refl)
  | inl k ↦ elim (Bool-cases (joins u v e)) [
    | inl j ↦ (e, rw k (rw j refl))
    | inr j ↦ let (l, el) = edge_between-some u v es (rw j at h) in absurd (cc)
  ]
]

module _ {F : Type 0} ⦃fl : Floats F⦄ (costs : Costs F) where
  plus_if-ok :
      (cost : F) (f : F → F) (o : Option F)
      → is_some o ≡ true
      → (w : F) × (plus_if costs cost f o ≡ ok w)
  plus_if-ok cost f none h = absurd (cc)
  plus_if-ok cost f (some x) h = (_, refl)

  degraded_weight-ok :
      (s : FailureScenario F) (cost : F) (t : FailureType)
      → s.failure_type ≡ t
      → target_matches_failure_type s ≡ true
      → has_magnitude s ≡ true
      → (w : F) × (degraded_weight costs s cost t ≡ ok w)
  unfolding degraded_weight target_matches_failure_type
  degraded_weight-ok s cost latency_injection e m h = plus_if-ok cost _ s.latency_ms (rw e at h)
  degraded_weight-ok s cost packet_loss e m h = plus_if-ok cost _ s.packet_loss_ratio (rw e at m)
  degraded_weight-ok s cost bandwidth_reduction e m h =
      plus_if-ok cost _ s.bandwidth_reduction_ratio (rw e at m)
  degraded_weight-ok s cost node_failure e m h = (cost, refl)
  degraded_weight-ok s cost edge_failure e m h = (cost, refl)
  degraded_weight-ok s cost service_degradation e m h = (cost, refl)

  -- no failure, or one whose scenario is valid and has its magnitude
  abbrev pub IsWeighable : Option (FailureInjectionResult F) → Type 0
  IsWeighable none = true ≡ true
  IsWeighable (some failure) =
      (target_matches_failure_type failure.scenario ≡ true)
      × (has_magnitude failure.scenario ≡ true)

  edge_weight-ok :
      (failure : Option (FailureInjectionResult F)) (e : Edge F)
      → IsWeighable failure
      → (w : F) × (edge_weight costs failure e ≡ ok w)
  unfolding edge_weight
  edge_weight-ok none e h = (_, refl)
  edge_weight-ok (some failure) e (m, h) =
      let cost = confidence_cost costs e.confidence in
      let (w, k) =
        degraded_weight-ok failure.scenario cost failure.scenario.failure_type refl m h in
      elim (Bool-cases (contains failure.degraded_edge_ids e.edge_id)) [
        | inl c ↦ (w, rw c k)
        | inr c ↦ (cost, rw c refl)
      ]

  weighted_edge-ok :
      (failure : Option (FailureInjectionResult F)) (e : Edge F)
      → IsWeighable failure
      → (w : WeightedEdge F) × (weighted_edge costs failure e ≡ ok w)
  weighted_edge-ok failure e h =
      next_ok (edge_weight costs failure e) (edge_weight-ok failure e h) (λ w. (_, refl))

  steps-ok :
      (weighted : List (WeightedEdge F)) (path : List Text)
      → is_along weighted path ≡ true
      → (es : List (WeightedEdge F)) × (traverse (step_edge costs weighted) (path_pairs path)
          ≡ ok es)
  steps-ok weighted [] h = ([], refl)
  steps-ok weighted (u ∷ []) h = ([], refl)
  steps-ok weighted (u ∷ v ∷ path) h =
      let a : any (joins u v) weighted ≡ true = ground (arith, h) in
      let (e, k) = edge_between-some u v weighted a in
      let (es, ks) = steps-ok weighted (v ∷ path) (ground (arith, h)) in (e ∷ es, rw k (rw ks refl))

  result_of_search-ok :
      (weighted : List (WeightedEdge F)) (found : Option (List Text))
      → ((path : List Text) → found ≡ some path → is_along weighted path ≡ true)
      → (r : Option (PathResult F)) × (result_of_search costs weighted found ≡ ok r)
  unfolding to_path_result
  result_of_search-ok weighted none h = (none, refl)
  result_of_search-ok weighted (some path) h =
      next_ok (to_path_result costs weighted path)
        (next_ok (traverse (step_edge costs weighted) (path_pairs path))
          (steps-ok weighted path (h path refl)) (λ es. (_, refl)))
        (λ r. (some r, refl))

  module _ (shortest_path : PathFinder F) (finds : FindsPaths shortest_path) where
    pub compute_shortest_path-ok :
        (g : TopologyGraph F) (source target : Text) (failure : Option (FailureInjectionResult F))
        → IsWeighable failure
        → (r : Option (PathResult F)) × (compute_shortest_path costs shortest_path g source target
              failure
            ≡ ok r)
    unfolding compute_shortest_path build_weighted_graph
    compute_shortest_path-ok g source target failure h =
        let (ws, k) =
          traverse_ok (weighted_edge costs failure) (λ e. weighted_edge-ok failure e h) g.edges in
        let (r, l) =
          result_of_search-ok ws (shortest_path (node_ids g.nodes) ws source target)
            (finds (node_ids g.nodes) ws source target) in
        elim (Bool-cases
          (contains (node_ids g.nodes) source && contains (node_ids g.nodes) target)) [
            | inl c ↦ (r, rw c (rw k l))
            | inr c ↦ (none, rw c refl)
          ]

    pub compute_route_change-ok :
        (g : TopologyGraph F) (failure : FailureInjectionResult F) (pair : Text × Text)
        → IsWeighable (some failure)
        → (r : RouteChange F) × (compute_route_change costs shortest_path g failure pair ≡ ok r)
    unfolding compute_route_change
    compute_route_change-ok g failure (source, target) h =
        next_ok (compute_shortest_path costs shortest_path g source target none)
          (compute_shortest_path-ok g source target none refl)
          (λ a.
            next_ok
              (compute_shortest_path costs shortest_path failure.graph source target (some failure))
              (compute_shortest_path-ok failure.graph source target (some failure) h)
              (λ b. (_, refl)))
