-- ===== src/Simulation/Propagation/Orders.antt =====
-- The order of each impact of `propagate_failure` against the hops that reach the node.
use netscope_x.Prelude.{
  Bool, false, Option, none, some, List, [], ◌∷◌, Text, ◌&&◌, ◌||◌, not, ◌==◌, if◌then◌else◌,
  nat_ord, list_ord, contains, AreDistinct, any, ok, ◌≡◌, refl, ap, ◌∙◌, arith, All, Bool-cases,
  inl, inr, ==_iff,
}
use netscope_x.Models.Floats.{Floats}
use netscope_x.Models.Failure.{
  ImpactOrder, primary, secondary, tertiary, PropagationImpact, build_impact, primary_has_no_cause,
}
use netscope_x.Simulation.Propagation.{
  CausalCandidate, Spread, by_source_from, sort_values, primary_impact, propagate_failure,
}
use netscope_x.Simulation.Propagation.Loops.{
  affected, order_of, or_else, has_candidate, from_any, IsCaused, IsSpread, any-by_source,
  spread_round-Runs,
}

module _ {F : Type 0} ⦃fl : Floats F⦄ where
  -- a candidate leads to the node from a node that a candidate leads to from the failed one
  abbrev pub has_two_hops : List (CausalCandidate F) → Text → Text → Bool
  has_two_hops cs failed j =
      any (λ c. has_candidate cs failed c.source_node_id && c.target_node_id == j) cs

  -- the order that the hops from the failed node give
  abbrev pub expected_order : List (CausalCandidate F) → Text → Text → Option ImpactOrder
  expected_order cs failed j =
      if failed == j
      then some primary
      else if has_candidate cs failed j
      then some secondary
      else if has_two_hops cs failed j
      then some tertiary
      else none

  any-nested :
      (ns : List Text) (cs : List (CausalCandidate F)) (j : Text)
      → from_any cs ns j ≡ any (λ c. contains ns c.source_node_id && c.target_node_id == j) cs
  any-nested ns [] j = none_from ns j
    where
      none_from :
          (ns : List Text) (j : Text)
          → (let cs : List (CausalCandidate F) = [] in from_any cs ns j) ≡ false
      none_from [] j = refl
      none_from (n ∷ ns) j = none_from ns j
  any-nested ns (c ∷ cs) j =
      step ns
      ∙ ap (λ b. (contains ns c.source_node_id && c.target_node_id == j) || b) (any-nested ns cs j)
    where
      step :
          (ns : List Text)
          → from_any (c ∷ cs) ns j
            ≡ ((contains ns c.source_node_id && c.target_node_id == j) || from_any cs ns j)
      step [] = refl
      step (n ∷ ns) = ground (arith, step ns, ==_iff c.source_node_id n, ==_iff n c.source_node_id)

  without_direct :
      (p : Text → Bool) (failed j : Text) (cs : List (CausalCandidate F))
      → has_candidate cs failed j ≡ false
      → any
          (λ c. (p c.source_node_id && not (failed == c.source_node_id)) && c.target_node_id == j)
          cs
        ≡ any (λ c. p c.source_node_id && c.target_node_id == j) cs
  without_direct p failed j [] h = refl
  without_direct p failed j (c ∷ cs) h = ground (
    arith,
    without_direct p failed j cs,
    ==_iff failed c.source_node_id,
    ==_iff c.source_node_id failed,
  )

  any-cong :
      (p q : CausalCandidate F → Bool) (cs : List (CausalCandidate F))
      → ((c : CausalCandidate F) → p c ≡ q c)
      → any p cs ≡ any q cs
  any-cong p q [] h = refl
  any-cong p q (c ∷ cs) h = ground (arith, h c, any-cong p q cs h)

  -- the second round finds what two hops reach
  second_round :
      (cs : List (CausalCandidate F)) (failed j : Text) (frontier : List Text)
      → ((i : Text) → contains frontier i ≡ (has_candidate cs failed i && not (failed == i)))
      → has_candidate cs failed j ≡ false
      → from_any cs frontier j ≡ has_two_hops cs failed j
  second_round cs failed j frontier h direct =
      any-nested frontier cs j
      ∙ any-cong (λ c. contains frontier c.source_node_id && c.target_node_id == j)
          (λ c.
            (has_candidate cs failed c.source_node_id && not (failed == c.source_node_id))
            && c.target_node_id == j)
          cs (λ c. ap (λ b. b && c.target_node_id == j) (h c.source_node_id))
      ∙ without_direct (has_candidate cs failed) failed j cs direct

  both_rounds :
      (cs : List (CausalCandidate F)) (failed j : Text) (frontier : List Text)
      → ((i : Text)
          → contains frontier i ≡ (from_any cs (failed ∷ []) i && not (failed == i || false)))
      → or_else
          (or_else
            (if failed == j then some primary else none)
            (if from_any cs (failed ∷ []) j then some secondary else none))
          (if from_any cs frontier j then some tertiary else none)
        ≡ expected_order cs failed j
  both_rounds cs failed j frontier h = elim (Bool-cases (has_candidate cs failed j)) [
    | inl e ↦ ground (arith, e)
    | inr e ↦ ground (arith, e, second_round cs failed j frontier (λ i. h i ∙ ground arith) e)
  ]

  -- `propagate_failure` never raises. It impacts each node at most once, with the order PRIMARY for
  -- the failed node, SECONDARY for one hop, TERTIARY for two and no order for any other node, and
  -- an impact that names a cause has a candidate from the cause to the node.
  pub propagate_failure_lem :
      (cs : List (CausalCandidate F)) (scenario_id failed : Text)
      → (impacts : List PropagationImpact) × (propagate_failure cs scenario_id failed ≡ ok impacts)
        × AreDistinct (affected impacts)
        × ((j : Text) → order_of j impacts ≡ expected_order cs failed j)
        × All (IsCaused cs) impacts
  unfolding propagate_failure build_impact primary_has_no_cause
  propagate_failure_lem cs sid failed =
      let d = sort_values (by_source_from [] cs) in
      let start : Spread = record {
        visited = failed ∷ [];
        impacts = primary_impact sid failed ∷ [];
        frontier = failed ∷ [];
      } in
      let valid : IsSpread cs start = ((refl, tt), λ j. refl, (inl refl, tt)) in
      let (s, es, hs, as') =
        spread_round-Runs cs sid secondary d start refl (any-by_source cs) valid in
      let (t, et, (dt, vt, ct), at) =
        spread_round-Runs cs sid tertiary d s refl (any-by_source cs) hs in
      (
        t.impacts,
        rw es (rw et),
        dt,
        λ j.
            (at j).0
            ∙ ap (λ o. or_else o (if from_any cs s.frontier j then some tertiary else none))
                (as' j).0
            ∙ both_rounds cs failed j s.frontier (λ i. (as' i).1),
        ct,
      )
