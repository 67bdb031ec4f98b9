-- ===== src/Simulation/Propagation/Loops.antt =====
-- What each loop of `propagate_failure` adds to the impacts, and what it maintains.
use netscope_x.Prelude.{
  Bool, true, false, Option, none, some, List, [], ◌∷◌, ◌++◌, map, Text, ◌&&◌, ◌||◌, not, ◌==◌,
  if◌then◌else◌, nat_ord, list_ord, contains, contains-append, contains-add, add, AreDistinct,
  snoc-AreDistinct, sort_by, any, any-sort_by, Result, ok, Dict, append_at, group, group-append_at,
  any-append, ◌≡◌, refl, sym, ap, ◌∙◌, arith, All, All-append, All-imp, Bool-cases, ◌⊎◌, inl, inr,
  ==_iff, ==_self,
}
use netscope_x.Models.Floats.{Floats}
use netscope_x.Models.Flow.{is_some}
use netscope_x.Models.Failure.{
  ImpactOrder, PropagationImpact, build_impact, is_primary, primary_has_no_cause,
}
use netscope_x.Simulation.Propagation.{
  CausalCandidate, Spread, by_dependency_id, by_source_from, sort_values, impact_of, visit,
  visit_all, visit_frontier, spread_round, text_in_order,
}

abbrev pub affected : List PropagationImpact → List Text
affected = map (λ i. i.affected_node_id)

-- the order of the impact on a node
abbrev pub order_of : Text → List PropagationImpact → Option ImpactOrder
order_of j [] = none
order_of j (i ∷ is) = if i.affected_node_id == j then some i.order else order_of j is

abbrev pub or_else : Option ImpactOrder → Option ImpactOrder → Option ImpactOrder
or_else none b = b
or_else (some a) b = some a

order_of-append :
    (j : Text) (is js : List PropagationImpact)
    → order_of j (is ++ js) ≡ or_else (order_of j is) (order_of j js)
order_of-append j [] js = refl
order_of-append j (i ∷ is) js = ground (arith, order_of-append j is js)

pub is_some-order_of :
    (j : Text) (is : List PropagationImpact) → is_some (order_of j is) ≡ contains (affected is) j
is_some-order_of j [] = refl
is_some-order_of j (i ∷ is) = ground (arith, is_some-order_of j is)

map-append : (is js : List PropagationImpact) → affected (is ++ js) ≡ affected is ++ affected js
map-append [] js = refl
map-append (i ∷ is) js = ap (◌∷◌ i.affected_node_id) (map-append is js)

-- what a loop adds to a state: the nodes that satisfy a test, with one order
abbrev pub Adds : ImpactOrder → (Text → Bool) → Spread → Spread → Type 0
Adds o reach s t =
    (j : Text)
    → (order_of j t.impacts ≡ or_else (order_of j s.impacts) (if reach j then some o else none))
      × (contains t.frontier j
          ≡ (contains s.frontier j || (reach j && not (contains (affected s.impacts) j))))

Adds-trans :
    (o : ImpactOrder) (p q : Text → Bool) (s t u : Spread)
    → Adds o p s t
    → Adds o q t u
    → Adds o (λ j. p j || q j) s u
Adds-trans o p q s t u h k = λ j.
    let (a, b) = h j in
    let (c, d) = k j in
    (
      c ∙ ground (arith, a),
      d ∙ ground (arith, a, b, is_some-order_of j s.impacts, is_some-order_of j t.impacts),
    )

Adds-same : (o : ImpactOrder) (s : Spread) → Adds o (λ j. false) s s
Adds-same o s = λ j. (or_else-none (order_of j s.impacts), ground arith)
  where
    or_else-none : (a : Option ImpactOrder) → a ≡ or_else a none
    or_else-none none = refl
    or_else-none (some a) = refl

Adds-cong :
    (o : ImpactOrder) (p q : Text → Bool) (s t : Spread)
    → ((j : Text) → p j ≡ q j)
    → Adds o p s t
    → Adds o q s t
Adds-cong o p q s t e h = λ j. rw (e j) at (h j)

seen-Adds :
    (o : ImpactOrder) (s : Spread) (i : Text)
    → contains (affected s.impacts) i ≡ true
    → Adds o (λ j. i == j) s s
seen-Adds o s i h =
    λ j. (ground (arith, is_some-order_of j s.impacts, ==_iff i j), ground (arith, ==_iff i j))

module _ {F : Type 0} ⦃fl : Floats F⦄ where
  -- some candidate leads from one node to the other
  abbrev pub has_candidate : List (CausalCandidate F) → Text → Text → Bool
  has_candidate cs n j = any (λ c. c.source_node_id == n && c.target_node_id == j) cs

  abbrev pub leads_to : Text → CausalCandidate F → Bool
  leads_to j c = c.target_node_id == j

  -- the table by source has the candidates of the source
  any-by_source_from :
      (d : Dict Text (List (CausalCandidate F))) (cs : List (CausalCandidate F)) (n j : Text)
      → any (leads_to j) (group n (by_source_from d cs))
        ≡ (any (leads_to j) (group n d) || has_candidate cs n j)
  unfolding by_source_from
  any-by_source_from d [] n j = ground arith
  any-by_source_from d (c ∷ cs) n j =
      any-by_source_from (append_at c.source_node_id c d) cs n j
      ∙ ground (
        arith,
        group-append_at c.source_node_id n c d,
        any-append (leads_to j) (group n d) (c ∷ []),
      )

  group-sort_values :
      (d : Dict Text (List (CausalCandidate F))) (n : Text)
      → group n (sort_values d) ≡ sort_by by_dependency_id (group n d)
  unfolding sort_values sort_by group
  group-sort_values [] n = refl
  group-sort_values ((k, cs) ∷ d) n = ground (arith, group-sort_values d n)

  pub any-by_source :
      (cs : List (CausalCandidate F)) (n j : Text)
      → any (leads_to j) (group n (sort_values (by_source_from [] cs))) ≡ has_candidate cs n j
  unfolding group
  any-by_source cs n j =
      ap (any (leads_to j)) (group-sort_values (by_source_from [] cs) n)
      ∙ any-sort_by by_dependency_id (leads_to j) (group n (by_source_from [] cs))
      ∙ any-by_source_from [] cs n j

  -- what the loops maintain: each node is impacted once, `visited` has the impacted nodes, and the
  -- cause of an impact is a candidate
  abbrev pub IsCaused : List (CausalCandidate F) → PropagationImpact → Type 0
  IsCaused cs i =
      (i.caused_by_node_id ≡ none)
      ⊎ ((n : Text) × (i.caused_by_node_id ≡ some n)
          × (has_candidate cs n i.affected_node_id ≡ true))

  abbrev pub IsSpread : List (CausalCandidate F) → Spread → Type 0
  IsSpread cs s =
      AreDistinct (affected s.impacts)
      × ((j : Text) → contains s.visited j ≡ contains (affected s.impacts) j)
      × All (IsCaused cs) s.impacts

  -- a loop from `s` that succeeds, keeps the invariant and adds the nodes that satisfy the test
  abbrev pub Runs :
      List (CausalCandidate F) → ImpactOrder → (Text → Bool) → Spread → Result Spread → Type 0
  Runs cs o reach s m = (t : Spread) × (m ≡ ok t) × IsSpread cs t × Adds o reach s t

  -- the state after a new node
  abbrev pub reached : Text → ImpactOrder → Text → Spread → CausalCandidate F → Spread
  reached sid o n s c = record {
    visited = add s.visited c.target_node_id;
    impacts = s.impacts ++ impact_of sid o n c ∷ [];
    frontier = s.frontier ++ c.target_node_id ∷ [];
  }

  reached-Adds :
      (sid : Text) (o : ImpactOrder) (n : Text) (s : Spread) (c : CausalCandidate F)
      → contains (affected s.impacts) c.target_node_id ≡ false
      → Adds o (λ j. c.target_node_id == j) s (reached sid o n s c)
  reached-Adds sid o n s c h = λ j. (
    order_of-append j s.impacts (impact_of sid o n c ∷ []),
    ground (arith, contains-append s.frontier (c.target_node_id ∷ []) j, ==_iff c.target_node_id j),
  )

  reached-IsSpread :
      (cs : List (CausalCandidate F)) (sid : Text) (o : ImpactOrder) (n : Text) (s : Spread)
      (c : CausalCandidate F)
      → has_candidate cs n c.target_node_id ≡ true
      → IsSpread cs s
      → contains s.visited c.target_node_id ≡ false
      → IsSpread cs (reached sid o n s c)
  reached-IsSpread cs sid o n s c hc (hd, hv, hi) h =
      let new = impact_of sid o n c in
      (
        rw (map-append s.impacts (new ∷ [])) (
            snoc-AreDistinct (affected s.impacts) c.target_node_id (sym (hv c.target_node_id) ∙ h)
              hd),
        λ j. rw (map-append s.impacts (new ∷ [])) (
            ground (
              arith,
              contains-add s.visited c.target_node_id j,
              hv j,
              contains-append (affected s.impacts) (c.target_node_id ∷ []) j,
            )),
        All-append (IsCaused cs) s.impacts (new ∷ []) hi (inr (n, refl, hc), tt),
      )

  visit-Runs :
      (cs : List (CausalCandidate F)) (sid : Text) (o : ImpactOrder) (n : Text) (s : Spread)
      (c : CausalCandidate F)
      → is_primary o ≡ false
      → has_candidate cs n c.target_node_id ≡ true
      → IsSpread cs s
      → Runs cs o (λ j. c.target_node_id == j) s (visit sid o n s c)
  unfolding visit build_impact primary_has_no_cause
  visit-Runs cs sid o n s c ho hc (hd, hv, hi) =
      elim (Bool-cases (contains s.visited c.target_node_id)) [
        | inl e ↦
            (s, rw e, (hd, hv, hi), seen-Adds o s c.target_node_id (sym (hv c.target_node_id) ∙ e))
        | inr e ↦ (
          reached sid o n s c,
          rw e (rw ho),
          reached-IsSpread cs sid o n s c hc (hd, hv, hi) e,
          reached-Adds sid o n s c (sym (hv c.target_node_id) ∙ e),
        )
      ]

  visit_all-Runs :
      (cs : List (CausalCandidate F)) (sid : Text) (o : ImpactOrder) (n : Text) (s : Spread)
      (ds : List (CausalCandidate F))
      → is_primary o ≡ false
      → All (λ c. has_candidate cs n c.target_node_id ≡ true) ds
      → IsSpread cs s
      → Runs cs o (λ j. any (leads_to j) ds) s (visit_all sid o n s ds)
  unfolding visit_all
  visit_all-Runs cs sid o n s [] ho hc hs = (s, refl, hs, Adds-same o s)
  visit_all-Runs cs sid o n s (d ∷ ds) ho (h, hc) hs =
      let (t, et, ht, at) = visit-Runs cs sid o n s d ho h hs in
      let (u, eu, hu, au) = visit_all-Runs cs sid o n t ds ho hc ht in
      (
        u,
        rw et eu,
        hu,
        Adds-trans o (λ j. d.target_node_id == j) (λ j. any (leads_to j) ds) s t u at au,
      )

  -- the table has the candidates of each source
  abbrev pub IsTable : List (CausalCandidate F) → Dict Text (List (CausalCandidate F)) → Type 0
  IsTable cs d = (n j : Text) → any (leads_to j) (group n d) ≡ has_candidate cs n j

  any_self :
      (ds : List (CausalCandidate F)) → All (λ c. any (leads_to c.target_node_id) ds ≡ true) ds
  any_self [] = tt
  any_self (d ∷ ds) = (
    ground (arith, ==_self d.target_node_id),
    All-imp (λ c. any (leads_to c.target_node_id) ds ≡ true)
        (λ c. any (leads_to c.target_node_id) (d ∷ ds) ≡ true) ds (λ c h. ground (arith, h))
        (any_self ds),
  )

  -- the nodes that a candidate of one of the sources leads to
  abbrev pub from_any : List (CausalCandidate F) → List Text → Text → Bool
  from_any cs ns j = any (λ n. has_candidate cs n j) ns

  visit_frontier-Runs :
      (cs : List (CausalCandidate F)) (sid : Text) (o : ImpactOrder)
      (d : Dict Text (List (CausalCandidate F))) (s : Spread) (ns : List Text)
      → is_primary o ≡ false
      → IsTable cs d
      → IsSpread cs s
      → Runs cs o (from_any cs ns) s (visit_frontier sid o d s ns)
  unfolding visit_frontier
  visit_frontier-Runs cs sid o d s [] ho hd hs = (s, refl, hs, Adds-same o s)
  visit_frontier-Runs cs sid o d s (n ∷ ns) ho hd hs =
      let real =
        All-imp (λ c. any (leads_to c.target_node_id) (group n d) ≡ true)
          (λ c. has_candidate cs n c.target_node_id ≡ true) (group n d)
          (λ c h. sym (hd n c.target_node_id) ∙ h) (any_self (group n d)) in
      let (t, et, ht, at) = visit_all-Runs cs sid o n s (group n d) ho real hs in
      let (u, eu, hu, au) = visit_frontier-Runs cs sid o d t ns ho hd ht in
      let first =
        Adds-cong o (λ j. any (leads_to j) (group n d)) (λ j. has_candidate cs n j) s t (hd n) at in
      (u, rw et eu, hu, Adds-trans o (λ j. has_candidate cs n j) (from_any cs ns) s t u first au)

  pub spread_round-Runs :
      (cs : List (CausalCandidate F)) (sid : Text) (o : ImpactOrder)
      (d : Dict Text (List (CausalCandidate F))) (s : Spread)
      → is_primary o ≡ false
      → IsTable cs d
      → IsSpread cs s
      → (t : Spread) × (spread_round sid o d s ≡ ok t)
        × IsSpread cs t
        × ((j : Text)
            → (order_of j t.impacts
                ≡ or_else
                    (order_of j s.impacts)
                    (if from_any cs s.frontier j then some o else none))
              × (contains t.frontier j
                  ≡ (from_any cs s.frontier j && not (contains (affected s.impacts) j))))
  unfolding spread_round
  spread_round-Runs cs sid o d s ho hd hs =
      let start : Spread = record { visited = s.visited; impacts = s.impacts; frontier = [] } in
      let (t, et, ht, at) =
        visit_frontier-Runs cs sid o d start (sort_by text_in_order s.frontier) ho hd hs in
      (
        t,
        et,
        ht,
        Adds-cong o (from_any cs (sort_by text_in_order s.frontier)) (from_any cs s.frontier) start
            t (λ j. any-sort_by text_in_order (λ n. has_candidate cs n j) s.frontier) at,
      )
