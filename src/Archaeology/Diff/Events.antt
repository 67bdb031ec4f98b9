-- ===== src/Archaeology/Diff/Events.antt =====
-- What the steps of `diff_snapshots` report.
use netscope_x.Prelude.{
  Bool, true, false, Option, none, some, List, [], ◌∷◌, ◌++◌, map, Text, text, ◌&&◌, ◌||◌, ◌==◌,
  nat_ord, list_ord, pair_ord, if◌then◌else◌, contains, any, any-append, keep_if, Dict, lookup,
  insert, keys, contains-keys-insert, concat_map, Result, ok, traverse, All, ◌≡◌, refl, sym, ap,
  ◌∙◌, arith, Bool-cases, inl, inr, ==_iff, ==_self,
}
use netscope_x.Models.Floats.{Floats}
use netscope_x.Models.Flow.{Flow}
use netscope_x.Models.Topology.{Node, Edge}
use netscope_x.Models.Snapshot.{
  ChangeType, node_added, node_removed, edge_added, edge_removed, attribute_changed, change_value,
  NetworkSnapshot, GraphChangeEvent, build_event, target_matches_change_type,
}
use netscope_x.Archaeology.Diff.{
  index_by, flow_ids_for_node, flow_ids_for_edge, node_event, edge_event, attribute_event,
  attribute_fields, edge_attribute_events, lone_node, flow_ids_at, lone_edge, shared_edge, at_key,
  confidence_evidence, protocols_evidence, join,
}

abbrev pub is_text : Text → Option Text → Bool
is_text k none = false
is_text k (some s) = s == k

-- the event is about the node or the edge with this id
abbrev pub concerns : Text → GraphChangeEvent → Bool
concerns k e = is_text k e.affected_node_id || is_text k e.affected_edge_id

-- some event with this type is about the node or the edge with this id
abbrev pub reports : ChangeType → Text → List GraphChangeEvent → Bool
reports t k es = any (λ e. change_value e.change_type == change_value t && concerns k e) es

-- an event of this type about this id
abbrev pub Tells : ChangeType → Text → Result GraphChangeEvent → Type 0
Tells t i m =
    (e : GraphChangeEvent) × (m ≡ ok e)
    × (e.change_type ≡ t)
    × ((k : Text) → concerns k e ≡ (i == k))

pub traverse-reports :
    (f : Text → Result GraphChangeEvent) (t : ChangeType) (ids : List Text)
    → ((i : Text) → contains ids i ≡ true → Tells t i (f i))
    → (es : List GraphChangeEvent) × (traverse f ids ≡ ok es)
      × ((u : ChangeType) (k : Text)
          → reports u k es ≡ (change_value t == change_value u && contains ids k))
traverse-reports f t [] h = ([], refl, λ u k. ground arith)
traverse-reports f t (i ∷ is) h =
    let (e, ee, et, ek) = h i (ground (arith, ==_self i)) in
    let (es, ees, r) = traverse-reports f t is (λ j c. h j (ground (arith, c))) in
    (e ∷ es, rw ee (rw ees), λ u k. rw et (rw (ek k) (ground (arith, r u k))))

module _ {A : Type 0} (id : A → Text) where
  pub contains-index_by :
      (d : Dict Text A) (xs : List A) (k : Text)
      → contains (keys (index_by id d xs)) k ≡ (contains (keys d) k || contains (map id xs) k)
  unfolding index_by
  contains-index_by d [] k = ground arith
  contains-index_by d (x ∷ xs) k =
      contains-index_by (insert (id x) x d) xs k ∙ ground (arith, contains-keys-insert (id x) k x d)

  module _ (P : A → Type 0) where
    abbrev pub Entries : Dict Text A → Type 0
    Entries d = All (λ e. (id e.1 ≡ e.0) × P e.1) d

    insert-Entries : (x : A) (d : Dict Text A) → P x → Entries d → Entries (insert (id x) x d)
    unfolding insert
    insert-Entries x [] p h = ((refl, p), tt)
    insert-Entries x ((j, w) ∷ d) p (q, h) = elim (Bool-cases (j == id x)) [
      | inl e ↦ rw e ((sym ((==_iff j (id x)).0 e), p), h)
      | inr e ↦ rw e (q, insert-Entries x d p h)
    ]

    pub index_by-Entries :
        (d : Dict Text A) (xs : List A) → All P xs → Entries d → Entries (index_by id d xs)
    unfolding index_by
    index_by-Entries d [] h k = k
    index_by-Entries d (x ∷ xs) (p, h) k =
        index_by-Entries (insert (id x) x d) xs h (insert-Entries x d p k)

    -- what stands at a key of the index
    at_key-Entries :
        (d : Dict Text A) (k : Text)
        → Entries d
        → contains (keys d) k ≡ true
        → (a : A) × (at_key d k ≡ ok a) × (id a ≡ k) × P a
    unfolding lookup
    at_key-Entries [] k h c = absurd (cc)
    at_key-Entries ((j, a) ∷ d) k ((e, p), h) c = elim (Bool-cases (j == k)) [
      | inl m ↦ (a, rw m, e ∙ (==_iff j k).0 m, p)
      | inr m ↦ rw m (at_key-Entries d k h (rw m at c))
    ]

pub contains-keep_if :
    (p : Text → Bool) (xs : List Text) (k : Text)
    → contains (keep_if p xs) k ≡ (contains xs k && p k)
contains-keep_if p [] k = refl
contains-keep_if p (x ∷ xs) k = elim (Bool-cases (x == k)) [
  | inl e ↦ let same = (==_iff x k).0 e in ground (arith, contains-keep_if p xs k, ap p same)
  | inr e ↦ ground (arith, contains-keep_if p xs k)
]

abbrev pub is_node_change : ChangeType → Bool
is_node_change node_added = true
is_node_change node_removed = true
is_node_change _ = false

abbrev pub is_edge_change : ChangeType → Bool
is_edge_change edge_added = true
is_edge_change edge_removed = true
is_edge_change _ = false

node_event-Tells :
    (t : ChangeType) (from_id : Text) (s : NetworkSnapshot) (n : Node) (note : Text)
    (flow_ids : List Text)
    → is_node_change t ≡ true
    → Tells t n.node_id (node_event t from_id s n note flow_ids)
unfolding node_event build_event target_matches_change_type
node_event-Tells node_added from_id s n note flow_ids h = (_, refl, refl, λ k. ground arith)
node_event-Tells node_removed from_id s n note flow_ids h = (_, refl, refl, λ k. ground arith)
node_event-Tells edge_added from_id s n note flow_ids h = absurd (cc)
node_event-Tells edge_removed from_id s n note flow_ids h = absurd (cc)
node_event-Tells attribute_changed from_id s n note flow_ids h = absurd (cc)

-- events that report no addition and no removal
abbrev pub IsSilent : List GraphChangeEvent → Type 0
IsSilent es =
    (u : ChangeType) (k : Text)
    → (change_value attribute_changed == change_value u) ≡ false
    → reports u k es ≡ false

-- the events of a computation that does not raise
abbrev pub Silently : Result (List GraphChangeEvent) → Type 0
Silently m = (es : List GraphChangeEvent) × (m ≡ ok es) × IsSilent es

IsSilent-one : (ev : GraphChangeEvent) → ev.change_type ≡ attribute_changed → IsSilent (ev ∷ [])
IsSilent-one ev h = λ u k e. rw h (rw e)

unless_same :
    (b : Bool) (m : Result (List GraphChangeEvent)) → Silently m → Silently (if b then ok [] else m)
unless_same true m h = ([], refl, λ u k e. refl)
unless_same false m h = h

append-IsSilent : (es fs : List GraphChangeEvent) → IsSilent es → IsSilent fs → IsSilent (es ++ fs)
append-IsSilent es fs h k = λ u i e.
    any-append (λ e. change_value e.change_type == change_value u && concerns i e) es fs
    ∙ ground (arith, h u i e, k u i e)

module _ {F : Type 0} where
  edge_event-Tells :
      (t : ChangeType) (from_id : Text) (s : NetworkSnapshot) (e : Edge F) (note : Text)
      (flow_ids : List Text)
      → is_edge_change t ≡ true
      → Tells t e.edge_id (edge_event t from_id s e note flow_ids)
  unfolding edge_event build_event target_matches_change_type
  edge_event-Tells edge_added from_id s e note flow_ids h = (_, refl, refl, λ k. refl)
  edge_event-Tells edge_removed from_id s e note flow_ids h = (_, refl, refl, λ k. refl)
  edge_event-Tells node_added from_id s e note flow_ids h = absurd (cc)
  edge_event-Tells node_removed from_id s e note flow_ids h = absurd (cc)
  edge_event-Tells attribute_changed from_id s e note flow_ids h = absurd (cc)

  -- both ends of the edge are keys of the nodes
  abbrev pub HasEnds : Dict Text Node → Edge F → Type 0
  HasEnds nodes e =
      (contains (keys nodes) e.source_node_id ≡ true)
      × (contains (keys nodes) e.target_node_id ≡ true)

  module _ (fl : Floats F) (from_id : Text) (s : NetworkSnapshot) (flows : List (Flow F))
      (iter : List Text → List Text) where
    pub lone_node-Tells :
        (t : ChangeType) (nodes : Dict Text Node) (note i : Text)
        → is_node_change t ≡ true
        → Entries (λ (n : Node). n.node_id) (λ n. Unit {0}) nodes
        → contains (keys nodes) i ≡ true
        → Tells t i (lone_node fl iter t from_id s flows nodes note i)
    unfolding lone_node
    lone_node-Tells t nodes note i ht h c =
        let (n, en, ei, u) = at_key-Entries (λ n. n.node_id) (λ n. Unit {0}) nodes i h c in
        let told = node_event-Tells t from_id s n note (flow_ids_for_node flows n) ht in
        rw en (rw ei at told)

    flow_ids_at-ok :
        (nodes : Dict Text Node) (e : Edge F)
        → Entries (λ (n : Node). n.node_id) (λ n. Unit {0}) nodes
        → HasEnds nodes e
        → (ids : List Text) × (flow_ids_at fl iter flows nodes e ≡ ok ids)
    unfolding flow_ids_at
    flow_ids_at-ok nodes e h (a, b) =
        let (n, en, ei, u) =
          at_key-Entries (λ n. n.node_id) (λ n. Unit {0}) nodes e.source_node_id h a in
        let (m, em, ej, v) =
          at_key-Entries (λ n. n.node_id) (λ n. Unit {0}) nodes e.target_node_id h b in
        (flow_ids_for_edge flows n m, rw en (rw em))

    pub lone_edge-Tells :
        (t : ChangeType) (nodes : Dict Text Node) (edges : Dict Text (Edge F)) (note i : Text)
        → is_edge_change t ≡ true
        → Entries (λ (n : Node). n.node_id) (λ n. Unit {0}) nodes
        → Entries (λ (e : Edge F). e.edge_id) (HasEnds nodes) edges
        → contains (keys edges) i ≡ true
        → Tells t i (lone_edge fl iter t from_id s flows nodes edges note i)
    unfolding lone_edge
    lone_edge-Tells t nodes edges note i ht hn he c =
        let (e, ee, ei, ends) = at_key-Entries (λ e. e.edge_id) (HasEnds nodes) edges i he c in
        let (ids, ef) = flow_ids_at-ok nodes e hn ends in
        let told = edge_event-Tells t from_id s e note ids ht in rw ee (rw ef (rw ei at told))

    attribute_event-Silently :
        (after : Edge F) (name previous new evidence : Text) (ids : List Text)
        → Silently (
            traverse
              (λ (u : Unit {0}). attribute_event from_id s after name previous new evidence ids)
              (tt ∷ []))
    unfolding build_event target_matches_change_type
    attribute_event-Silently after name previous new evidence ids = (
      attribute_fields from_id s after name previous new evidence ids ∷ [],
      refl,
      IsSilent-one (attribute_fields from_id s after name previous new evidence ids) refl,
    )

    attribute_events-Silently :
        (before after : Edge F) (ids : List Text)
        → Silently (edge_attribute_events fl from_id s before after ids)
    unfolding edge_attribute_events
    attribute_events-Silently before after ids =
        let (xs, ex, hx) = unless_same (fl.equal before.confidence after.confidence) _ (
          attribute_event-Silently after (text "confidence") (fl.show3 before.confidence)
            (fl.show3 after.confidence) (confidence_evidence fl before after) ids) in
        let (ys, ey, hy) = unless_same (before.protocols == after.protocols) _ (
          attribute_event-Silently after (text "protocols") (join (text ",") before.protocols)
            (join (text ",") after.protocols) (protocols_evidence fl before after) ids) in
        (xs ++ ys, rw ex (rw ey), append-IsSilent xs ys hx hy)

    pub shared_edge-Silently :
        (nodes : Dict Text Node) (from_nodes : Dict Text Node)
        (from_edges to_edges : Dict Text (Edge F)) (i : Text)
        → Entries (λ (n : Node). n.node_id) (λ n. Unit {0}) nodes
        → Entries (λ (e : Edge F). e.edge_id) (HasEnds from_nodes) from_edges
        → Entries (λ (e : Edge F). e.edge_id) (HasEnds nodes) to_edges
        → contains (keys to_edges) i ≡ true
        → contains (keys from_edges) i ≡ true
        → Silently (shared_edge fl iter from_id s flows nodes from_edges to_edges i)
    unfolding shared_edge
    shared_edge-Silently nodes from_nodes from_edges to_edges i hn hf ht c d =
        let (after, ea, ei, ends) =
          at_key-Entries (λ e. e.edge_id) (HasEnds nodes) to_edges i ht c in
        let (ids, ef) = flow_ids_at-ok nodes after hn ends in
        let (before, eb, ej, ends') =
          at_key-Entries (λ e. e.edge_id) (HasEnds from_nodes) from_edges i hf d in
        let (es, ee, he) = attribute_events-Silently before after ids in
        (es, rw ea (rw ef (rw eb ee)), he)

    -- the changes of a list of edges
    pub shared-Silently :
        (f : Text → Result (List GraphChangeEvent)) (ids : List Text)
        → ((i : Text) → contains ids i ≡ true → Silently (f i))
        → (ess : List (List GraphChangeEvent)) × (traverse f ids ≡ ok ess)
          × IsSilent (concat_map (λ es. es) ess)
    shared-Silently f [] h = ([], refl, λ u k e. refl)
    shared-Silently f (i ∷ is) h =
        let (es, ee, he) = h i (ground (arith, ==_self i)) in
        let (ess, eess, hess) = shared-Silently f is (λ j c. h j (ground (arith, c))) in
        (es ∷ ess, rw ee (rw eess), append-IsSilent es (concat_map (λ es. es) ess) he hess)
