-- ===== src/Archaeology/Diff.antt =====
-- backend/archaeology/diff.py. The graphs that `read_snapshot_graph` reads and the flows of the capture
-- are arguments.
pub mod Events
pub mod Reports
use netscope_x.Prelude.{
  ℕ, Bool, true, false, Option, none, some, List, [], ◌∷◌, ◌++◌, map, Text, text, decimal, ◌&&◌,
  ◌||◌, not, ◌==◌, ◌<=◌, leb, if◌then◌else◌, nat_ord, list_ord, pair_ord, contains, add, any,
  keep_if, sort_by, Dict, lookup, insert, keys, concat_map, Result, ok, raise, key_error, or_raise,
  traverse, ◌>>=◌,
}
use netscope_x.Models.Floats.{Floats}
use netscope_x.Models.Flow.{Flow}
use netscope_x.Models.Topology.{Node, Edge, TopologyGraph}
use netscope_x.Models.Snapshot.{
  ChangeType, node_added, node_removed, edge_added, edge_removed, attribute_changed, change_value,
  NetworkSnapshot, GraphChangeEvent, build_event,
}

abbrev pub text_in_order : Text → Text → Bool
text_in_order a b = a <= b

-- `sorted({...})`
abbrev pub sorted_set : List Text → List Text
sorted_set xs = sort_by text_in_order (once xs)
  where
    once : List Text → List Text
    once [] = []
    once (x ∷ xs) = let rest = once xs in if contains rest x then rest else x ∷ rest

-- `sep.join(xs)`
abbrev pub join : Text → List Text → Text
join sep [] = []
join sep (x ∷ []) = x
join sep (x ∷ y ∷ xs) = x ++ sep ++ join sep (y ∷ xs)

-- `{id(x): x for x in xs}`
unfoldable pub index_by : {A : Type 0} → (A → Text) → Dict Text A → List A → Dict Text A
index_by id d [] = d
index_by id d (x ∷ xs) = index_by id (insert (id x) x d) xs

-- `a.keys() - b.keys()` and `a.keys() & b.keys()`
abbrev pub keys_without : {A : Type 0} → Dict Text A → Dict Text A → List Text
keys_without a b = keep_if (λ k. not (contains (keys b) k)) (keys a)

abbrev pub keys_shared : {A : Type 0} → Dict Text A → Dict Text A → List Text
keys_shared a b = keep_if (λ k. contains (keys b) k) (keys a)

unfoldable pub node_event :
    ChangeType → Text → NetworkSnapshot → Node → Text → List Text → Result GraphChangeEvent
node_event change_type from_id to_snapshot node note flow_ids = build_event (record {
  event_id =
      to_snapshot.snapshot_id ++ text ":" ++ change_value change_type ++ text ":" ++ node.node_id;
  from_snapshot_id = from_id;
  to_snapshot_id = to_snapshot.snapshot_id;
  occurred_at = to_snapshot.captured_at;
  change_type = change_type;
  affected_node_id = some node.node_id;
  affected_edge_id = none;
  attribute_name = none;
  previous_value = none;
  new_value = none;
  evidence =
      (text "node "
        ++ node.node_id
        ++ text " ("
        ++ join (text ", ") node.ip_addresses
        ++ text ") "
        ++ note)
      ∷ [];
  affected_flow_ids = flow_ids;
})

module _ {F : Type 0} where
  unfoldable pub flow_ids_for_node : List (Flow F) → Node → List Text
  flow_ids_for_node flows node = sorted_set (
      map (λ f. f.flow_id)
        (keep_if (λ f. contains node.ip_addresses f.src_ip || contains node.ip_addresses f.dst_ip)
          flows))

  unfoldable pub flow_ids_for_edge : List (Flow F) → Node → Node → List Text
  flow_ids_for_edge flows a b = sorted_set (
      map (λ f. f.flow_id)
        (keep_if
          (λ f.
            contains a.ip_addresses f.src_ip && contains b.ip_addresses f.dst_ip
            || contains b.ip_addresses f.src_ip && contains a.ip_addresses f.dst_ip)
          flows))

  -- `_flows_as_of`
  unfoldable pub flows_as_of : List (Flow F) → ℕ → List (Flow F)
  flows_as_of flows as_of = keep_if (λ f. leb f.first_seen as_of) flows

  unfoldable pub edge_event :
      ChangeType → Text → NetworkSnapshot → Edge F → Text → List Text → Result GraphChangeEvent
  edge_event change_type from_id to_snapshot edge note flow_ids = build_event (record {
    event_id =
        to_snapshot.snapshot_id ++ text ":" ++ change_value change_type ++ text ":" ++ edge.edge_id;
    from_snapshot_id = from_id;
    to_snapshot_id = to_snapshot.snapshot_id;
    occurred_at = to_snapshot.captured_at;
    change_type = change_type;
    affected_node_id = none;
    affected_edge_id = some edge.edge_id;
    attribute_name = none;
    previous_value = none;
    new_value = none;
    evidence =
        (text "edge "
          ++ edge.edge_id
          ++ text " ("
          ++ edge.source_node_id
          ++ text "<->"
          ++ edge.target_node_id
          ++ text ") "
          ++ note)
        ∷ [];
    affected_flow_ids = flow_ids;
  })

  abbrev pub attribute_fields :
      Text → NetworkSnapshot → Edge F → Text → Text → Text → Text → List Text → GraphChangeEvent
  attribute_fields from_id to_snapshot edge name previous new evidence flow_ids = record {
    event_id =
        to_snapshot.snapshot_id ++ text ":attribute_changed:" ++ edge.edge_id ++ text ":" ++ name;
    from_snapshot_id = from_id;
    to_snapshot_id = to_snapshot.snapshot_id;
    occurred_at = to_snapshot.captured_at;
    change_type = attribute_changed;
    affected_node_id = none;
    affected_edge_id = some edge.edge_id;
    attribute_name = some name;
    previous_value = some previous;
    new_value = some new;
    evidence = evidence ∷ [];
    affected_flow_ids = flow_ids;
  }

  abbrev pub attribute_event :
      Text
      → NetworkSnapshot
      → Edge F
      → Text
      → Text
      → Text
      → Text
      → List Text
      → Result GraphChangeEvent
  attribute_event from_id to_snapshot edge name previous new evidence flow_ids =
      build_event (attribute_fields from_id to_snapshot edge name previous new evidence flow_ids)

  module _ (fl : Floats F) where
    abbrev pub confidence_evidence : Edge F → Edge F → Text
    confidence_evidence before after =
        text "edge "
        ++ after.edge_id
        ++ text " confidence changed from "
        ++ fl.show3 before.confidence
        ++ text " to "
        ++ fl.show3 after.confidence
        ++ text " (observation_count "
        ++ decimal before.observation_count
        ++ text " -> "
        ++ decimal after.observation_count
        ++ text ")"

    abbrev pub protocols_evidence : Edge F → Edge F → Text
    protocols_evidence before after =
        text "edge "
        ++ after.edge_id
        ++ text " protocols changed from ["
        ++ join (text ",") before.protocols
        ++ text "] to ["
        ++ join (text ",") after.protocols
        ++ text "]"

    unfoldable pub edge_attribute_events :
        Text → NetworkSnapshot → Edge F → Edge F → List Text → Result (List GraphChangeEvent)
    edge_attribute_events from_id to_snapshot before after flow_ids = do
      confidence ←
          if fl.equal before.confidence after.confidence
          then ok []
          else traverse
              (λ (u : Unit {0}).
                attribute_event from_id to_snapshot after (text "confidence")
                  (fl.show3 before.confidence) (fl.show3 after.confidence)
                  (confidence_evidence before after) flow_ids)
              (tt ∷ [])
      protocols ←
          if before.protocols == after.protocols
          then ok []
          else traverse
              (λ (u : Unit {0}).
                attribute_event from_id to_snapshot after (text "protocols")
                  (join (text ",") before.protocols) (join (text ",") after.protocols)
                  (protocols_evidence before after) flow_ids)
              (tt ∷ [])
      ok (confidence ++ protocols)

-- `event.affected_node_id or event.affected_edge_id or ""`
abbrev pub target_id : GraphChangeEvent → Text
target_id e = or_text e.affected_node_id (or_text e.affected_edge_id [])
  where
    or_text : Option Text → Text → Text
    or_text none b = b
    or_text (some []) b = b
    or_text (some (c ∷ s)) b = c ∷ s

abbrev pub attribute_of : Option Text → Text
attribute_of none = []
attribute_of (some s) = s

-- `_sort_key`
abbrev pub sort_key : GraphChangeEvent → Text × (Text × Text)
sort_key e = (change_value e.change_type, (target_id e, attribute_of e.attribute_name))

abbrev pub by_sort_key : GraphChangeEvent → GraphChangeEvent → Bool
by_sort_key a b = sort_key a <= sort_key b

abbrev pub at_key : {A : Type 0} → Dict Text A → Text → Result A
at_key d k = or_raise key_error (lookup k d)

module _ {F : Type 0} (fl : Floats F) (iter : List Text → List Text) where
  abbrev pub nodes_by_id : TopologyGraph F → Dict Text Node
  nodes_by_id g = index_by (λ n. n.node_id) [] g.nodes

  abbrev pub edges_by_id : TopologyGraph F → Dict Text (Edge F)
  edges_by_id g = index_by (λ e. e.edge_id) [] g.edges

  -- the event of a node that only one of the graphs has
  unfoldable pub lone_node :
      ChangeType
      → Text
      → NetworkSnapshot
      → List (Flow F)
      → Dict Text Node
      → Text
      → Text
      → Result GraphChangeEvent
  lone_node change_type from_id to_snapshot flows nodes note id = do
    node ← at_key nodes id
    node_event change_type from_id to_snapshot node note (flow_ids_for_node flows node)

  -- `_flow_ids_for_edge(flows, nodes[edge.source_node_id], nodes[edge.target_node_id])`
  unfoldable pub flow_ids_at : List (Flow F) → Dict Text Node → Edge F → Result (List Text)
  flow_ids_at flows nodes edge = do
    a ← at_key nodes edge.source_node_id
    b ← at_key nodes edge.target_node_id
    ok (flow_ids_for_edge flows a b)

  -- the event of an edge that only one of the graphs has
  unfoldable pub lone_edge :
      ChangeType
      → Text
      → NetworkSnapshot
      → List (Flow F)
      → Dict Text Node
      → Dict Text (Edge F)
      → Text
      → Text
      → Result GraphChangeEvent
  unfolding flow_ids_at
  lone_edge change_type from_id to_snapshot flows nodes edges note id = do
    edge ← at_key edges id
    flow_ids ← flow_ids_at flows nodes edge
    edge_event change_type from_id to_snapshot edge note flow_ids

  -- the events of an edge that both graphs have
  unfoldable pub shared_edge :
      Text
      → NetworkSnapshot
      → List (Flow F)
      → Dict Text Node
      → Dict Text (Edge F)
      → Dict Text (Edge F)
      → Text
      → Result (List GraphChangeEvent)
  unfolding flow_ids_at
  shared_edge from_id to_snapshot flows to_nodes from_edges to_edges id = do
    after ← at_key to_edges id
    flow_ids ← flow_ids_at flows to_nodes after
    before ← at_key from_edges id
    edge_attribute_events fl from_id to_snapshot before after flow_ids

  abbrev pub later_note : Text
  later_note = text "not present as of the earlier snapshot"

  abbrev pub earlier_note : Text
  earlier_note = text "was present in the earlier snapshot but not in the later one"

  unfoldable pub diff_snapshots :
      NetworkSnapshot
      → NetworkSnapshot
      → TopologyGraph F
      → TopologyGraph F
      → List (Flow F)
      → Result (List GraphChangeEvent)
  unfolding index_by lone_node lone_edge shared_edge
  diff_snapshots from_snapshot to_snapshot from_graph to_graph all_flows = do
    let from_id = from_snapshot.snapshot_id
    let from_nodes = nodes_by_id from_graph
    let to_nodes = nodes_by_id to_graph
    let from_edges = edges_by_id from_graph
    let to_edges = edges_by_id to_graph
    let flows = flows_as_of all_flows to_snapshot.captured_at
    added ←
        traverse (lone_node node_added from_id to_snapshot flows to_nodes later_note)
          (iter (keys_without to_nodes from_nodes))
    removed ←
        traverse (lone_node node_removed from_id to_snapshot flows from_nodes earlier_note)
          (iter (keys_without from_nodes to_nodes))
    edges_added ←
        traverse (lone_edge edge_added from_id to_snapshot flows to_nodes to_edges later_note)
          (iter (keys_without to_edges from_edges))
    edges_removed ←
        traverse
          (lone_edge edge_removed from_id to_snapshot flows from_nodes from_edges earlier_note)
          (iter (keys_without from_edges to_edges))
    changed ←
        traverse (shared_edge from_id to_snapshot flows to_nodes from_edges to_edges)
          (iter (keys_shared to_edges from_edges))
    ok (
        sort_by by_sort_key
          (added ++ removed ++ edges_added ++ edges_removed ++ concat_map (λ es. es) changed))
