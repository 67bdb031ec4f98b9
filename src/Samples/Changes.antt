-- ===== src/Samples/Changes.antt =====
-- The difference of two small graphs, and the theorem on it applied.
use netscope_x.Prelude.{true, List, [], Text, map, ◌≡◌, refl, ok, nat_ord, list_ord}
use netscope_x.Models.Topology.{node_ids, edges_reference_known_nodes}
use netscope_x.Models.Snapshot.{
  GraphChangeEvent, node_added, node_removed, edge_added, edge_removed,
}
use netscope_x.Archaeology.Diff.{diff_snapshots}
use netscope_x.Archaeology.Diff.Reports.{only_in, VisitsAll, diff_snapshots_lem}
use netscope_x.Archaeology.Diff.Events.{reports}
use netscope_x.Samples.Whole.{whole}
use netscope_x.Samples.Failures.{triangle, without_b, triangle_valid}
use netscope_x.Samples.Twins.{snapshot}

abbrev pub as_given : List Text → List Text
as_given xs = xs

as_given-VisitsAll : VisitsAll as_given
as_given-VisitsAll xs k = refl

rest_valid : edges_reference_known_nodes without_b.graph ≡ true
unfolding edges_reference_known_nodes
rest_valid = refl

diff_snapshots_lem_example :
    (es : List GraphChangeEvent) × (diff_snapshots whole as_given
        (snapshot "s1" 5)
        (snapshot "s2" 6)
        triangle
        without_b.graph
        []
      ≡ ok es)
    × ((k : Text)
        → (reports node_added k es
            ≡ only_in (node_ids without_b.graph.nodes) (node_ids triangle.nodes) k)
          × (reports node_removed k es
              ≡ only_in (node_ids triangle.nodes) (node_ids without_b.graph.nodes) k)
          × (reports edge_added k es
              ≡ only_in
                  (map (λ e. e.edge_id) without_b.graph.edges)
                  (map (λ e. e.edge_id) triangle.edges)
                  k)
          × (reports edge_removed k es
              ≡ only_in
                  (map (λ e. e.edge_id) triangle.edges)
                  (map (λ e. e.edge_id) without_b.graph.edges)
                  k))
diff_snapshots_lem_example =
    diff_snapshots_lem whole as_given as_given-VisitsAll (snapshot "s1" 5) (snapshot "s2" 6)
      triangle without_b.graph [] triangle_valid rest_valid
