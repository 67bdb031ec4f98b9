-- ===== src/Simulation/Injection/Removal.antt =====
-- What the removal of incident edges and of a node leaves valid (`apply_failure_scenario`).
use netscope_x.Prelude.{
  Bool, true, false, Option, none, some, List, [], ◌∷◌, map, Text, ◌&&◌, ◌||◌, not, ◌==◌, nat_ord,
  list_ord, contains, AreDistinct, keep_if, sort_by, any-sort_by, any, ok, raise, all, ◌≡◌, refl,
  arith, All, All-imp, All-imp2, All-keep_if, keep_if-All, all→All, All→all, Bool-cases, inl, inr,
  ==_iff, ==_self, ap, ◌∙◌, sym,
}
use netscope_x.Models.Flow.{is_some}
use netscope_x.Models.Topology.{Node, Edge, TopologyGraph, node_ids}
use netscope_x.Models.Failure.{FailureType, packet_loss, bandwidth_reduction, FailureScenario}
use netscope_x.Simulation.Injection.{touches_node, incident_edge_ids, edge_ids, is_unknown, text_le}

-- a ratio needs one of the two targets
abbrev pub is_ratio : FailureType → Bool
is_ratio packet_loss = true
is_ratio bandwidth_reduction = true
is_ratio _ = false

contains-eq-any : (xs : List Text) (a : Text) → contains xs a ≡ any (λ x. x == a) xs
contains-eq-any [] a = refl
contains-eq-any (x ∷ xs) a = ground (arith, contains-eq-any xs a)

-- removing a node leaves the others
without-contains :
    (ns : List Node) (n i : Text)
    → contains (node_ids (keep_if (λ m. not (contains (n ∷ []) m.node_id)) ns)) i
      ≡ (contains (node_ids ns) i && not (n == i))
without-contains [] n i = refl
without-contains (m ∷ ns) n i =
    ground (arith, without-contains ns n i, ==_iff n m.node_id, ==_iff n i, ==_iff m.node_id i)

without_none : (ns : List Node) → keep_if (λ m. not (contains [] m.node_id)) ns ≡ ns
without_none [] = refl
without_none (m ∷ ns) = ap (◌∷◌ m) (without_none ns)

pub single :
    (ns : List Node) (n : Text)
    → keep_if (λ m. not (contains (n ∷ []) m.node_id)) ns ≡ keep_if (λ m. not (n == m.node_id)) ns
single [] n = refl
single (m ∷ ns) n = ground (arith, single ns n)

pub from_ok {ℓ} : {A : Type ℓ} (a b : A) → ok a ≡ ok b → a ≡ b
from_ok a b h = ap (λ r. elim r [ ok x ↦ x | raise e ↦ a ]) h

pub is_some-false : (o : Option Text) → is_some o ≡ false → o ≡ none
is_some-false none h = refl
is_some-false (some a) h = absurd (cc)

module _ {F : Type 0} where
  abbrev pub is_applicable : TopologyGraph F → FailureScenario F → Bool
  is_applicable g s =
      not (is_unknown (node_ids g.nodes) s.target_node_id)
      && not (is_unknown (edge_ids g.edges) s.target_edge_id)
      && (not (is_ratio s.failure_type) || is_some s.target_node_id || is_some s.target_edge_id)

  pub contains-incident :
      (es : List (Edge F)) (n i : Text)
      → contains (incident_edge_ids es n) i
        ≡ contains (map (λ e. e.edge_id) (keep_if (touches_node n) es)) i
  unfolding incident_edge_ids
  contains-incident es n i =
      let ids = map (λ (e : Edge F). e.edge_id) (keep_if (touches_node n) es) in
      contains-eq-any (sort_by text_le ids) i
      ∙ any-sort_by text_le (λ x. x == i) ids
      ∙ sym (contains-eq-any ids i)

  -- an id that the list does not have is not the id of an edge that is kept
  keep_if-absent :
      (p : Edge F → Bool) (es : List (Edge F)) (i : Text)
      → contains (edge_ids es) i ≡ false
      → contains (map (λ e. e.edge_id) (keep_if p es)) i ≡ false
  keep_if-absent p [] i h = refl
  keep_if-absent p (e ∷ es) i h = ground (arith, keep_if-absent p es i)

  -- the ids of the edges that satisfy a test are those of the edges with the test true
  keep_if-has :
      (p : Edge F → Bool) (es : List (Edge F))
      → All (λ e. p e ≡ true → contains (map (λ e. e.edge_id) (keep_if p es)) e.edge_id ≡ true) es
  keep_if-has p [] = tt
  keep_if-has p (e ∷ es) = (
    λ h. ground (arith, ==_self e.edge_id),
    All-imp (λ d. p d ≡ true → contains (map (λ e. e.edge_id) (keep_if p es)) d.edge_id ≡ true)
        (λ d. p d ≡ true → contains (map (λ e. e.edge_id) (keep_if p (e ∷ es))) d.edge_id ≡ true) es
        (λ d k h. ground (arith, k h)) (keep_if-has p es),
  )

  other_ids :
      (es : List (Edge F)) (i : Text)
      → contains (edge_ids es) i ≡ false
      → All (λ e. (i == e.edge_id) ≡ false) es
  other_ids [] i h = tt
  other_ids (e ∷ es) i h =
      (ground (arith, ==_iff i e.edge_id, ==_iff e.edge_id i), other_ids es i (ground arith))

  pub keep_if-exactly :
      (p : Edge F → Bool) (es : List (Edge F))
      → AreDistinct (edge_ids es)
      → All (λ e. contains (map (λ e. e.edge_id) (keep_if p es)) e.edge_id ≡ p e) es
  keep_if-exactly p [] h = tt
  keep_if-exactly p (e ∷ es) (h, hs) = (
    ground (arith, ==_self e.edge_id, keep_if-absent p es e.edge_id h),
    All-imp2 (λ d. (e.edge_id == d.edge_id) ≡ false)
        (λ d. contains (map (λ e. e.edge_id) (keep_if p es)) d.edge_id ≡ p d)
        (λ d. contains (map (λ e. e.edge_id) (keep_if p (e ∷ es))) d.edge_id ≡ p d) es
        (λ d k l. ground arith) (other_ids es e.edge_id h) (keep_if-exactly p es hs),
  )

  abbrev pub ends_in : List Node → Edge F → Bool
  ends_in ns e = contains (node_ids ns) e.source_node_id && contains (node_ids ns) e.target_node_id

  -- without edges that are not among the incident ones, nothing touches the node
  untouched :
      (es : List (Edge F)) (n : Text)
      → All
          (λ e. touches_node n e ≡ false)
          (keep_if (λ d. not (contains (incident_edge_ids es n) d.edge_id)) es)
  untouched es n =
      let rest = keep_if (λ d. not (contains (incident_edge_ids es n) d.edge_id)) es in
      All-imp2
        (λ d.
          touches_node n d ≡ true
          → contains (map (λ e. e.edge_id) (keep_if (touches_node n) es)) d.edge_id ≡ true)
        (λ d. not (contains (incident_edge_ids es n) d.edge_id) ≡ true)
        (λ d. touches_node n d ≡ false) rest (λ d k l. lack d k l)
        (All-keep_if _ _ es (keep_if-has (touches_node n) es)) (keep_if-All _ es)
    where
      lack :
          (d : Edge F)
          → (touches_node n d ≡ true
              → contains (map (λ e. e.edge_id) (keep_if (touches_node n) es)) d.edge_id ≡ true)
          → not (contains (incident_edge_ids es n) d.edge_id) ≡ true
          → touches_node n d ≡ false
      lack d k l = elim (Bool-cases (touches_node n d)) [
        | inl e ↦ ground (arith, k e, contains-incident es n d.edge_id)
        | inr e ↦ e
      ]

  pub node-valid :
      (ns : List Node) (es : List (Edge F)) (n : Text)
      → all (ends_in ns) es ≡ true
      → all
          (ends_in (keep_if (λ m. not (contains (n ∷ []) m.node_id)) ns))
          (keep_if (λ d. not (contains (incident_edge_ids es n) d.edge_id)) es)
        ≡ true
  node-valid ns es n h =
      let rest = keep_if (λ d. not (contains (incident_edge_ids es n) d.edge_id)) es in
      All→all (ends_in (keep_if (λ m. not (contains (n ∷ []) m.node_id)) ns)) rest (
        All-imp2 (λ d. ends_in ns d ≡ true) (λ d. touches_node n d ≡ false)
          (λ d. ends_in (keep_if (λ m. not (contains (n ∷ []) m.node_id)) ns) d ≡ true) rest
          (λ d k l. ground (
            arith,
            without-contains ns n d.source_node_id,
            without-contains ns n d.target_node_id,
            ==_iff n d.source_node_id,
            ==_iff d.source_node_id n,
            ==_iff n d.target_node_id,
            ==_iff d.target_node_id n,
          ))
          (All-keep_if _ _ es (all→All (ends_in ns) es h)) (untouched es n))

  pub edges-valid :
      (ns : List Node) (p : Edge F → Bool) (es : List (Edge F))
      → all (ends_in ns) es ≡ true
      → all (ends_in (keep_if (λ m. not (contains [] m.node_id)) ns)) (keep_if p es) ≡ true
  edges-valid ns p es h =
      rw (without_none ns)
        (All→all (ends_in ns) (keep_if p es) (All-keep_if _ p es (all→All (ends_in ns) es h)))
