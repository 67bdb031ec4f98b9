-- ===== src/Models/Topology.antt =====
-- backend/app/models/topology.py: nodes, edges and the graph, with the checks of their validators.
use netscope_x.Prelude.{
  ℕ, Bool, List, Text, leb, ◌&&◌, not, ◌==◌, contains, all, map, Result, check, ok,
  validation_error, ◌>>◌, nat_ord, list_ord,
}

pub record Node : Type 0 where
  pub node_id : Text
  pub ip_addresses : List Text
  pub first_observed : ℕ
  pub last_observed : ℕ

pub record Edge (F : Type 0) : Type 0 where
  pub edge_id : Text
  pub source_node_id : Text
  pub target_node_id : Text
  pub confidence : F
  pub evidence : List Text
  pub observation_count : ℕ
  pub first_observed : ℕ
  pub last_observed : ℕ
  pub protocols : List Text

pub record TopologyGraph (F : Type 0) : Type 0 where
  pub graph_id : Text
  pub generated_at : ℕ
  pub nodes : List Node
  pub edges : List (Edge F)

-- `Node._last_not_before_first`
unfoldable pub node_in_order : Node → Bool
node_in_order n = leb n.first_observed n.last_observed

-- `Node(...)`
unfoldable pub build_node : Node → Result Node
unfolding node_in_order
build_node n = do check (node_in_order n) validation_error; ok n

abbrev pub node_ids : List Node → List Text
node_ids = map (λ n. n.node_id)

module _ {F : Type 0} where
  -- `Edge._no_self_loop` and `Edge._last_not_before_first`
  unfoldable pub no_self_loop : Edge F → Bool
  no_self_loop e = not (e.source_node_id == e.target_node_id)

  unfoldable pub edge_in_order : Edge F → Bool
  edge_in_order e = leb e.first_observed e.last_observed

  -- `TopologyGraph._edges_reference_known_nodes`
  unfoldable pub edges_reference_known_nodes : TopologyGraph F → Bool
  edges_reference_known_nodes g =
      all
        (λ e.
          contains (node_ids g.nodes) e.source_node_id
          && contains (node_ids g.nodes) e.target_node_id)
        g.edges

  -- `TopologyGraph(...)`
  unfoldable pub build_graph : TopologyGraph F → Result (TopologyGraph F)
  unfolding edges_reference_known_nodes
  build_graph g = do check (edges_reference_known_nodes g) validation_error; ok g
