-- ===== src/Simulation/Propagation.antt =====
-- backend/dependency/failure_propagation.py, and the promotion of dependencies to candidates in
-- backend/dependency/causal_candidates.py.
use netscope_x.Prelude.{
  ℕ, Bool, true, false, Option, none, some, List, [], ◌∷◌, ◌++◌, map, Text, text, ◌&&◌, ◌||◌, not,
  ◌==◌, ◌<=◌, if◌then◌else◌, nat_ord, list_ord, contains, add, keep_if, sort_by, Result, ok, raise,
  ◌>>=◌, ◌>>◌, Dict, append_at, group,
}
use netscope_x.Models.Dependency.{DependencyEdge}
use netscope_x.Models.Floats.{Floats}
use netscope_x.Models.Failure.{
  ImpactOrder, primary, secondary, tertiary, PropagationImpact, build_impact,
}
pub mod Loops
pub mod Orders

pub record CausalCandidate (F : Type 0) : Type 0 where
  pub dependency_id : Text
  pub source_node_id : Text
  pub target_node_id : Text
  pub strength : F
  pub temporal_precedence_score : F
  pub rationale : List Text

-- `visited`, `impacts` and `next_frontier`
pub record Spread : Type 0 where
  pub visited : List Text
  pub impacts : List PropagationImpact
  pub frontier : List Text

abbrev pub text_in_order : Text → Text → Bool
text_in_order a b = a <= b

-- the first of the impacts
abbrev pub primary_impact : Text → Text → PropagationImpact
primary_impact scenario_id failed = record {
  scenario_id = scenario_id;
  affected_node_id = failed;
  order = primary;
  caused_by_node_id = none;
  evidence = (failed ++ text " is the primary failure") ∷ [];
}

module _ {F : Type 0} ⦃fl : Floats F⦄ where
  unfoldable pub candidate_of : F → DependencyEdge F → CausalCandidate F
  candidate_of threshold d = record {
    dependency_id = d.dependency_id;
    source_node_id = d.source_node_id;
    target_node_id = d.target_node_id;
    strength = d.strength;
    temporal_precedence_score = d.temporal_precedence_score;
    rationale =
        (text "strength " ++ fl.show3 d.strength ++ text " meets threshold " ++ fl.show3 threshold)
        ∷ (text "temporal_precedence_score "
            ++ fl.show3 d.temporal_precedence_score
            ++ text " indicates "
            ++ d.source_node_id
            ++ text " consistently precedes "
            ++ d.target_node_id)
        ∷ [];
  }

  -- `strength >= strength_threshold` and `temporal_precedence_score > 0.0`
  abbrev pub is_qualified : F → DependencyEdge F → Bool
  is_qualified threshold d =
      not (fl.less d.strength threshold) && fl.less fl.zero_f d.temporal_precedence_score

  -- the sort key `(-strength, dependency_id)`
  abbrev pub stronger_first : CausalCandidate F → CausalCandidate F → Bool
  stronger_first a b =
      fl.less b.strength a.strength
      || (not (fl.less a.strength b.strength) && a.dependency_id <= b.dependency_id)

  unfoldable pub generate_causal_candidates : List (DependencyEdge F) → F → List (CausalCandidate F)
  unfolding candidate_of
  generate_causal_candidates dependencies threshold =
      sort_by stronger_first
        (map (candidate_of threshold) (keep_if (is_qualified threshold) dependencies))

  abbrev pub by_dependency_id : CausalCandidate F → CausalCandidate F → Bool
  by_dependency_id a b = a.dependency_id <= b.dependency_id

  unfoldable pub by_source_from :
      Dict Text (List (CausalCandidate F))
      → List (CausalCandidate F)
      → Dict Text (List (CausalCandidate F))
  by_source_from d [] = d
  by_source_from d (c ∷ cs) = by_source_from (append_at c.source_node_id c d) cs

  unfoldable pub sort_values :
      Dict Text (List (CausalCandidate F)) → Dict Text (List (CausalCandidate F))
  sort_values [] = []
  sort_values ((k, cs) ∷ d) = (k, sort_by by_dependency_id cs) ∷ sort_values d

  -- the evidence of an impact that is not the first
  abbrev pub evidence_of : Text → CausalCandidate F → Text
  evidence_of node c =
      text "impact propagates from "
      ++ node
      ++ text " via a causal candidate (strength="
      ++ fl.show3 c.strength
      ++ text ", temporal_precedence="
      ++ fl.show3 c.temporal_precedence_score
      ++ text ")"

  abbrev pub impact_of : Text → ImpactOrder → Text → CausalCandidate F → PropagationImpact
  impact_of scenario_id order node c = record {
    scenario_id = scenario_id;
    affected_node_id = c.target_node_id;
    order = order;
    caused_by_node_id = some node;
    evidence = evidence_of node c ∷ [];
  }

  -- the body of the innermost loop
  unfoldable pub visit : Text → ImpactOrder → Text → Spread → CausalCandidate F → Result Spread
  visit scenario_id order node s c = if contains s.visited c.target_node_id then ok s else do
    impact ← build_impact (impact_of scenario_id order node c)
    ok (record {
      visited = add s.visited c.target_node_id;
      impacts = s.impacts ++ impact ∷ [];
      frontier = s.frontier ++ c.target_node_id ∷ [];
    })

  unfoldable pub visit_all :
      Text → ImpactOrder → Text → Spread → List (CausalCandidate F) → Result Spread
  visit_all scenario_id order node s [] = ok s
  visit_all scenario_id order node s (c ∷ cs) = do
    t ← visit scenario_id order node s c
    visit_all scenario_id order node t cs

  unfoldable pub visit_frontier :
      Text → ImpactOrder → Dict Text (List (CausalCandidate F)) → Spread → List Text → Result Spread
  visit_frontier scenario_id order by_source s [] = ok s
  visit_frontier scenario_id order by_source s (node ∷ nodes) = do
    t ← visit_all scenario_id order node s (group node by_source)
    visit_frontier scenario_id order by_source t nodes

  -- one round of the outer loop
  unfoldable pub spread_round :
      Text → ImpactOrder → Dict Text (List (CausalCandidate F)) → Spread → Result Spread
  spread_round scenario_id order by_source s =
      visit_frontier scenario_id order by_source
        (record { visited = s.visited; impacts = s.impacts; frontier = [] })
        (sort_by text_in_order s.frontier)

  unfoldable pub propagate_failure :
      List (CausalCandidate F) → Text → Text → Result (List PropagationImpact)
  unfolding by_source_from sort_values spread_round
  propagate_failure candidates scenario_id failed = do
    let by_source = sort_values (by_source_from [] candidates)
    first ← build_impact (primary_impact scenario_id failed)
    s ←
        spread_round scenario_id secondary by_source
          (record { visited = failed ∷ []; impacts = first ∷ []; frontier = failed ∷ [] })
    t ← spread_round scenario_id tertiary by_source s
    ok t.impacts
