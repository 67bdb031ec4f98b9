-- ===== src/Archaeology/Diff/Reports.antt =====
-- Which additions and removals `diff_snapshots` reports.
use netscope_x.Prelude.{
  Bool, true, false, List, [], ◌∷◌, ◌++◌, map, Text, ◌&&◌, ◌||◌, not, ◌==◌, nat_ord, list_ord,
  pair_ord, contains, any, any-append, any-sort_by, sort_by, Dict, keys, concat_map, ok, All,
  All-imp, all→All, ◌≡◌, refl, ◌∙◌, arith,
}
use netscope_x.Models.Floats.{Floats}
use netscope_x.Models.Flow.{Flow}
use netscope_x.Models.Topology.{Node, Edge, TopologyGraph, node_ids, edges_reference_known_nodes}
use netscope_x.Models.Snapshot.{
  ChangeType, node_added, node_removed, edge_added, edge_removed, change_value, NetworkSnapshot,
  GraphChangeEvent,
}
use netscope_x.Archaeology.Diff.{
  keys_without, keys_shared, flows_as_of, by_sort_key, lone_node, lone_edge, shared_edge,
  diff_snapshots, nodes_by_id, edges_by_id, later_note, earlier_note,
}
use netscope_x.Archaeology.Diff.Events.{
  reports, concerns, Entries, index_by-Entries, contains-index_by, HasEnds, contains-keep_if,
  traverse-reports, lone_node-Tells, lone_edge-Tells, shared-Silently, shared_edge-Silently,
}

-- an id that one list has and the other has not
abbrev pub only_in : List Text → List Text → Text → Bool
only_in a b k = contains a k && not (contains b k)

-- with four silent parts, the other part decides
alone_1 :
    {r a b c d e x y : Bool}
    → r ≡ (a || b || c || d || e)
    → a ≡ x
    → b ≡ false
    → c ≡ false
    → d ≡ false
    → e ≡ false
    → x ≡ y
    → r ≡ y
alone_1 h a b c d e x = ground arith

alone_2 :
    {r a b c d e x y : Bool}
    → r ≡ (a || b || c || d || e)
    → a ≡ false
    → b ≡ x
    → c ≡ false
    → d ≡ false
    → e ≡ false
    → x ≡ y
    → r ≡ y
alone_2 h a b c d e x = ground arith

alone_3 :
    {r a b c d e x y : Bool}
    → r ≡ (a || b || c || d || e)
    → a ≡ false
    → b ≡ false
    → c ≡ x
    → d ≡ false
    → e ≡ false
    → x ≡ y
    → r ≡ y
alone_3 h a b c d e x = ground arith

alone_4 :
    {r a b c d e x y : Bool}
    → r ≡ (a || b || c || d || e)
    → a ≡ false
    → b ≡ false
    → c ≡ false
    → d ≡ x
    → e ≡ false
    → x ≡ y
    → r ≡ y
alone_4 h a b c d e x = ground arith

-- the order in which Python iterates over a set: it visits what is in the set, and nothing else
abbrev pub VisitsAll : (List Text → List Text) → Type 0
VisitsAll iter = (xs : List Text) (k : Text) → contains (iter xs) k ≡ contains xs k

module _ {F : Type 0} (fl : Floats F) (iter : List Text → List Text) (visits : VisitsAll iter) where
  nodes-Entries :
      (g : TopologyGraph F)
      → Entries (λ (n : Node). n.node_id) (λ n. Unit {0}) (nodes_by_id fl iter g)
  nodes-Entries g =
      index_by-Entries (λ n. n.node_id) (λ n. Unit {0}) [] g.nodes (anything g.nodes) tt
    where
      anything : (ns : List Node) → All (λ n. Unit {0}) ns
      anything [] = tt
      anything (n ∷ ns) = (tt, anything ns)

  edges-Entries :
      (g : TopologyGraph F)
      → edges_reference_known_nodes g ≡ true
      → Entries
          (λ (e : Edge F). e.edge_id)
          (HasEnds (nodes_by_id fl iter g))
          (edges_by_id fl iter g)
  unfolding edges_reference_known_nodes
  edges-Entries g h =
      index_by-Entries (λ e. e.edge_id) (HasEnds (nodes_by_id fl iter g)) [] g.edges
        (All-imp
          (λ e.
            (contains (node_ids g.nodes) e.source_node_id
              && contains (node_ids g.nodes) e.target_node_id)
            ≡ true)
          (HasEnds (nodes_by_id fl iter g)) g.edges
          (λ e p. (
            contains-index_by (λ n. n.node_id) [] g.nodes e.source_node_id ∙ ground (arith, p),
            contains-index_by (λ n. n.node_id) [] g.nodes e.target_node_id ∙ ground (arith, p),
          ))
          (all→All
            (λ e.
              contains (node_ids g.nodes) e.source_node_id
              && contains (node_ids g.nodes) e.target_node_id)
            g.edges h))
        tt

  visited :
      {A : Type 0} (a b : Dict Text A) (k : Text)
      → contains (iter (keys_without a b)) k ≡ (contains (keys a) k && not (contains (keys b) k))
  visited a b k =
      visits (keys_without a b) k ∙ contains-keep_if (λ k. not (contains (keys b) k)) (keys a) k

  visited_shared :
      {A : Type 0} (a b : Dict Text A) (k : Text)
      → contains (iter (keys_shared a b)) k ≡ (contains (keys a) k && contains (keys b) k)
  visited_shared a b k =
      visits (keys_shared a b) k ∙ contains-keep_if (λ k. contains (keys b) k) (keys a) k

  only_nodes :
      (g h : TopologyGraph F) (k : Text)
      → contains (iter (keys_without (nodes_by_id fl iter g) (nodes_by_id fl iter h))) k
        ≡ only_in (node_ids g.nodes) (node_ids h.nodes) k
  only_nodes g h k =
      visited (nodes_by_id fl iter g) (nodes_by_id fl iter h) k
      ∙ ground (
        arith,
        contains-index_by (λ (n : Node). n.node_id) [] g.nodes k,
        contains-index_by (λ (n : Node). n.node_id) [] h.nodes k,
      )

  only_edges :
      (g h : TopologyGraph F) (k : Text)
      → contains (iter (keys_without (edges_by_id fl iter g) (edges_by_id fl iter h))) k
        ≡ only_in (map (λ e. e.edge_id) g.edges) (map (λ e. e.edge_id) h.edges) k
  only_edges g h k =
      visited (edges_by_id fl iter g) (edges_by_id fl iter h) k
      ∙ ground (
        arith,
        contains-index_by (λ (e : Edge F). e.edge_id) [] g.edges k,
        contains-index_by (λ (e : Edge F). e.edge_id) [] h.edges k,
      )

  any-parts :
      (p : GraphChangeEvent → Bool) (a b c d e : List GraphChangeEvent)
      → any p (sort_by by_sort_key (a ++ b ++ c ++ d ++ e))
        ≡ (any p a || any p b || any p c || any p d || any p e)
  any-parts p a b c d e =
      any-sort_by by_sort_key p (a ++ b ++ c ++ d ++ e)
      ∙ ground (
        arith,
        any-append p (a ++ b ++ c ++ d) e,
        any-append p (a ++ b ++ c) d,
        any-append p (a ++ b) c,
        any-append p a b,
      )

  -- Where the edges of both graphs have nodes, `diff_snapshots` does not raise, in whatever order Python
  -- goes through its sets. It reports a node or an edge as added exactly if the later graph has its id
  -- and the earlier one has not, and as removed exactly if it is the other way round.
  pub diff_snapshots_lem :
      (s t : NetworkSnapshot) (g h : TopologyGraph F) (all_flows : List (Flow F))
      → edges_reference_known_nodes g ≡ true
      → edges_reference_known_nodes h ≡ true
      → (es : List GraphChangeEvent) × (diff_snapshots fl iter s t g h all_flows ≡ ok es)
        × ((k : Text)
            → (reports node_added k es ≡ only_in (node_ids h.nodes) (node_ids g.nodes) k)
              × (reports node_removed k es ≡ only_in (node_ids g.nodes) (node_ids h.nodes) k)
              × (reports edge_added k es
                  ≡ only_in (map (λ e. e.edge_id) h.edges) (map (λ e. e.edge_id) g.edges) k)
              × (reports edge_removed k es
                  ≡ only_in (map (λ e. e.edge_id) g.edges) (map (λ e. e.edge_id) h.edges) k))
  unfolding diff_snapshots
  diff_snapshots_lem s t g h all_flows vg vh =
      let id = s.snapshot_id in
      let flows = flows_as_of all_flows t.captured_at in
      let gn = nodes_by_id fl iter g in
      let hn = nodes_by_id fl iter h in
      let ge = edges_by_id fl iter g in
      let he = edges_by_id fl iter h in
      let (a, ea, ra) =
        traverse-reports (lone_node fl iter node_added id t flows hn (later_note fl iter))
          node_added (iter (keys_without hn gn))
          (λ i c.
            lone_node-Tells fl id t flows iter node_added hn (later_note fl iter) i refl
              (nodes-Entries h) (ground (arith, visited hn gn i, c))) in
      let (b, eb, rb) =
        traverse-reports (lone_node fl iter node_removed id t flows gn (earlier_note fl iter))
          node_removed (iter (keys_without gn hn))
          (λ i c.
            lone_node-Tells fl id t flows iter node_removed gn (earlier_note fl iter) i refl
              (nodes-Entries g) (ground (arith, visited gn hn i, c))) in
      let (c, ec, rc) =
        traverse-reports (lone_edge fl iter edge_added id t flows hn he (later_note fl iter))
          edge_added (iter (keys_without he ge))
          (λ i m.
            lone_edge-Tells fl id t flows iter edge_added hn he (later_note fl iter) i refl
              (nodes-Entries h) (edges-Entries h vh) (ground (arith, visited he ge i, m))) in
      let (d, ed, rd) =
        traverse-reports (lone_edge fl iter edge_removed id t flows gn ge (earlier_note fl iter))
          edge_removed (iter (keys_without ge he))
          (λ i m.
            lone_edge-Tells fl id t flows iter edge_removed gn ge (earlier_note fl iter) i refl
              (nodes-Entries g) (edges-Entries g vg) (ground (arith, visited ge he i, m))) in
      let (e, ee, re) =
        shared-Silently fl id t flows iter (shared_edge fl iter id t flows hn ge he)
          (iter (keys_shared he ge))
          (λ i m.
            shared_edge-Silently fl id t flows iter hn gn ge he i (nodes-Entries h)
              (edges-Entries g vg) (edges-Entries h vh) (ground (arith, visited_shared he ge i, m))
              (ground (arith, visited_shared he ge i, m))) in
      let parts = λ (u : ChangeType) (k : Text).
        any-parts (λ e. change_value e.change_type == change_value u && concerns k e) a b c d
          (concat_map (λ es. es) e) in
      (
        sort_by by_sort_key (a ++ b ++ c ++ d ++ concat_map (λ es. es) e),
        rw ea (rw eb (rw ec (rw ed (rw ee)))),
        λ k. (
          alone_1 (parts node_added k) (ra node_added k) (rb node_added k) (rc node_added k)
              (rd node_added k) (re node_added k refl) (only_nodes h g k),
          alone_2 (parts node_removed k) (ra node_removed k) (rb node_removed k) (rc node_removed k)
              (rd node_removed k) (re node_removed k refl) (only_nodes g h k),
          alone_3 (parts edge_added k) (ra edge_added k) (rb edge_added k) (rc edge_added k)
              (rd edge_added k) (re edge_added k refl) (only_edges h g k),
          alone_4 (parts edge_removed k) (ra edge_removed k) (rb edge_removed k) (rc edge_removed k)
              (rd edge_removed k) (re edge_removed k refl) (only_edges g h k),
        ),
      )
