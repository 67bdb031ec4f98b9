-- ===== src/Simulation/Injection/Isolation.antt =====
-- What an injected failure leaves of a graph (`apply_failure_scenario`).
use netscope_x.Prelude.{
  true, false, Option, none, some, List, [], ◌∷◌, map, Text, ◌||◌, not, ◌==◌, nat_ord, list_ord,
  contains, AreDistinct, keep_if, ok, raise, value_error, ◌≡◌, refl, arith, All-imp, keep_if-cong,
  ◌⊎◌, Bool-cases, inl, inr, ap, ◌∙◌, sym,
}
use netscope_x.Models.Flow.{is_some}
use netscope_x.Models.Topology.{
  Edge, TopologyGraph, node_ids, edges_reference_known_nodes, build_graph,
}
use netscope_x.Models.Failure.{
  FailureType, node_failure, edge_failure, latency_injection, packet_loss, bandwidth_reduction,
  service_degradation, FailureScenario, target_matches_failure_type,
}
use netscope_x.Simulation.Injection.{
  FailureInjectionResult, touches_node, incident_edge_ids, edge_ids, is_unknown, Effect, effect_of,
  injected_graph, apply_failure_scenario,
}
use netscope_x.Simulation.Injection.Removal.{
  is_ratio, single, from_ok, is_some-false, is_applicable, contains-incident, keep_if-exactly,
  node-valid, edges-valid,
}

module _ {F : Type 0} where
  -- the effects of a failure: a node with its edges, or edges and no node
  abbrev IsEffect : List (Edge F) → Effect → Type 0
  IsEffect es e =
      ((n : Text) × (e.removed_nodes ≡ n ∷ []) × (e.removed_edges ≡ incident_edge_ids es n))
      ⊎ (e.removed_nodes ≡ [])

  injected-valid :
      (g : TopologyGraph F) (s : FailureScenario F) (e : Effect)
      → edges_reference_known_nodes g ≡ true
      → IsEffect g.edges e
      → edges_reference_known_nodes (injected_graph g s e) ≡ true
  unfolding edges_reference_known_nodes
  injected-valid g s e h (inl (n, en, ee)) = rw en (rw ee (node-valid g.nodes g.edges n h))
  injected-valid g s e h (inr en) =
      rw en (edges-valid g.nodes (λ d. not (contains e.removed_edges d.edge_id)) g.edges h)

  effect_of-IsEffect :
      (t : FailureType) (es : List (Edge F)) (n e : Option Text)
      → (is_ratio t ≡ true) ⊎ ((t ≡ edge_failure) ⊎ (is_some n ≡ true))
      → (is_ratio t ≡ true → (is_some n || is_some e) ≡ true)
      → (f : Effect) × (effect_of t es n e ≡ ok f) × IsEffect es f
  unfolding effect_of
  effect_of-IsEffect node_failure es (some n) e h k = (_, refl, inl (n, refl, refl))
  effect_of-IsEffect node_failure es none e (inl h) k = absurd (cc)
  effect_of-IsEffect node_failure es none e (inr (inl h)) k = absurd (cc)
  effect_of-IsEffect node_failure es none e (inr (inr h)) k = absurd (cc)
  effect_of-IsEffect edge_failure es n e h k = (_, refl, inr refl)
  effect_of-IsEffect latency_injection es n e h k = (_, refl, inr refl)
  effect_of-IsEffect service_degradation es n e h k = (_, refl, inr refl)
  effect_of-IsEffect packet_loss es n (some e) h k = (_, refl, inr refl)
  effect_of-IsEffect packet_loss es (some n) none h k = (_, refl, inr refl)
  effect_of-IsEffect packet_loss es none none h k = absurd (cc (k refl))
  effect_of-IsEffect bandwidth_reduction es n (some e) h k = (_, refl, inr refl)
  effect_of-IsEffect bandwidth_reduction es (some n) none h k = (_, refl, inr refl)
  effect_of-IsEffect bandwidth_reduction es none none h k = absurd (cc (k refl))

  -- the record of what was done
  abbrev pub result_of : TopologyGraph F → FailureScenario F → Effect → FailureInjectionResult F
  result_of g s e = record {
    scenario = s;
    graph = injected_graph g s e;
    removed_node_ids = e.removed_nodes;
    removed_edge_ids = e.removed_edges;
    degraded_edge_ids = e.degraded;
  }

  untargeted-raises :
      (t : FailureType) (es : List (Edge F))
      → is_ratio t ≡ true
      → effect_of t es none none ≡ raise value_error
  unfolding effect_of
  untargeted-raises packet_loss es h = refl
  untargeted-raises bandwidth_reduction es h = refl
  untargeted-raises node_failure es h = absurd (cc)
  untargeted-raises edge_failure es h = absurd (cc)
  untargeted-raises latency_injection es h = absurd (cc)
  untargeted-raises service_degradation es h = absurd (cc)

  matches :
      (s : FailureScenario F)
      → target_matches_failure_type s ≡ true
      → (is_ratio s.failure_type ≡ true)
        ⊎ ((s.failure_type ≡ edge_failure) ⊎ (is_some s.target_node_id ≡ true))
  unfolding target_matches_failure_type
  matches s h = go s.failure_type refl
    where
      go :
          (t : FailureType)
          → s.failure_type ≡ t
          → (is_ratio s.failure_type ≡ true)
            ⊎ ((s.failure_type ≡ edge_failure) ⊎ (is_some s.target_node_id ≡ true))
      go node_failure e = inr (inr (rw e at h))
      go latency_injection e = inr (inr (rw e at h))
      go service_degradation e = inr (inr (rw e at h))
      go edge_failure e = inr (inl e)
      go packet_loss e = inl (rw e)
      go bandwidth_reduction e = inl (rw e)

  succeeds :
      (g : TopologyGraph F) (s : FailureScenario F) (e : Effect)
      → is_unknown (node_ids g.nodes) s.target_node_id ≡ false
      → is_unknown (edge_ids g.edges) s.target_edge_id ≡ false
      → effect_of s.failure_type g.edges s.target_node_id s.target_edge_id ≡ ok e
      → edges_reference_known_nodes (injected_graph g s e) ≡ true
      → apply_failure_scenario g s ≡ ok (result_of g s e)
  unfolding apply_failure_scenario build_graph
  succeeds g s e hn he ef v = rw hn (rw he (rw ef (rw v)))

  refuses :
      (g : TopologyGraph F) (s : FailureScenario F)
      → is_applicable g s ≡ false
      → apply_failure_scenario g s ≡ raise value_error
  unfolding apply_failure_scenario
  refuses g s a = elim (Bool-cases (is_unknown (node_ids g.nodes) s.target_node_id)) [
    | inl hn ↦ rw hn
    | inr hn ↦ rw hn (elim (Bool-cases (is_unknown (edge_ids g.edges) s.target_edge_id)) [
      | inl he ↦ rw he
      | inr he ↦ rw he (rw (no_effect hn he))
    ])
  ]
    where
      no_effect :
          is_unknown (node_ids g.nodes) s.target_node_id ≡ false
          → is_unknown (edge_ids g.edges) s.target_edge_id ≡ false
          → effect_of s.failure_type g.edges s.target_node_id s.target_edge_id ≡ raise value_error
      no_effect hn he =
          let n : s.target_node_id ≡ none = is_some-false s.target_node_id (ground arith) in
          let e : s.target_edge_id ≡ none = is_some-false s.target_edge_id (ground arith) in
          rw n (rw e (untargeted-raises s.failure_type g.edges (ground arith)))

  -- On a valid graph, a scenario that its own validator accepts is injected if its targets are in the
  -- graph and a ratio has a target, and the graph that results is valid; otherwise ValueError is raised.
  pub apply_failure_scenario_lem :
      (g : TopologyGraph F) (s : FailureScenario F)
      → edges_reference_known_nodes g ≡ true
      → target_matches_failure_type s ≡ true
      → (is_applicable g s ≡ true
          → (e : Effect) × (effect_of s.failure_type g.edges s.target_node_id s.target_edge_id
              ≡ ok e)
            × (apply_failure_scenario g s ≡ ok (result_of g s e))
            × (edges_reference_known_nodes (injected_graph g s e) ≡ true))
        × (is_applicable g s ≡ false → apply_failure_scenario g s ≡ raise value_error)
  apply_failure_scenario_lem g s h k = (
    λ a.
        let (e, ef, shape) =
          effect_of-IsEffect s.failure_type g.edges s.target_node_id s.target_edge_id (matches s k)
            (λ r. ground (arith, a)) in
        let v = injected-valid g s e h shape in
        (e, ef, succeeds g s e (ground (arith, a)) (ground (arith, a)) ef v, v),
    refuses g s,
  )

  not_incident :
      (es : List (Edge F)) (n : Text)
      → AreDistinct (edge_ids es)
      → keep_if (λ d. not (contains (incident_edge_ids es n) d.edge_id)) es
        ≡ keep_if (λ d. not (touches_node n d)) es
  not_incident es n h = keep_if-cong _ _ es (
      All-imp
        (λ d.
          contains (map (λ e. e.edge_id) (keep_if (touches_node n) es)) d.edge_id
          ≡ touches_node n d)
        (λ d. not (contains (incident_edge_ids es n) d.edge_id) ≡ not (touches_node n d)) es
        (λ d k. ap not (contains-incident es n d.edge_id ∙ k))
        (keep_if-exactly (touches_node n) es h))

  abbrev node_effect : List (Edge F) → Text → Effect
  node_effect es n = record {
    removed_nodes = n ∷ [];
    removed_edges = incident_edge_ids es n;
    degraded = [];
  }

  applied :
      (g : TopologyGraph F) (s : FailureScenario F) (r : FailureInjectionResult F)
      → edges_reference_known_nodes g ≡ true
      → target_matches_failure_type s ≡ true
      → apply_failure_scenario g s ≡ ok r
      → (e : Effect) × (effect_of s.failure_type g.edges s.target_node_id s.target_edge_id ≡ ok e)
        × (result_of g s e ≡ r)
  applied g s r h m e = elim (Bool-cases (is_applicable g s)) [
    | inl a ↦
        let (f, hf, hr, v) = (apply_failure_scenario_lem g s h m).0 a in
        (f, hf, from_ok (result_of g s f) r (sym hr ∙ e))
    | inr a ↦ absurd (cc (refuses g s a))
  ]

  -- An injected NODE_FAILURE of a graph that is valid and has no two edges with the same id takes
  -- away that node and the edges that touch it, and nothing else.
  pub node_failure-isolates :
      (g : TopologyGraph F) (s : FailureScenario F) (n : Text) (r : FailureInjectionResult F)
      → edges_reference_known_nodes g ≡ true
      → AreDistinct (edge_ids g.edges)
      → s.failure_type ≡ node_failure
      → s.target_node_id ≡ some n
      → apply_failure_scenario g s ≡ ok r
      → (r.graph.nodes ≡ keep_if (λ m. not (n == m.node_id)) g.nodes)
        × (r.graph.edges ≡ keep_if (λ d. not (touches_node n d)) g.edges)
        × (r.degraded_edge_ids ≡ [])
  unfolding effect_of target_matches_failure_type
  node_failure-isolates g s n r h hd t tn e =
      let (f, hf, hr) = applied g s r h (rw t (rw tn)) e in
      let effect : node_effect g.edges n ≡ f =
        from_ok (node_effect g.edges n) f (rw tn at (rw t at hf)) in
      let same : result_of g s (node_effect g.edges n) ≡ r = ap (result_of g s) effect ∙ hr in
      rw (← same) (single g.nodes n, not_incident g.edges n hd, refl)
