-- ===== src/Models/Snapshot.antt =====
-- backend/app/models/snapshot.py: snapshots of a topology and the changes between two of them.
use netscope_x.Prelude.{
  ℕ, Bool, Option, List, Text, text, Result, ok, check, validation_error, ◌>>◌,
}
use netscope_x.Models.Flow.{is_some}

pub data ChangeType : Type 0 where
  node_added node_removed edge_added edge_removed attribute_changed : ChangeType

pub record NetworkSnapshot : Type 0 where
  pub snapshot_id : Text
  pub graph_id : Text
  pub captured_at : ℕ
  pub version : ℕ

pub record GraphChangeEvent : Type 0 where
  pub event_id : Text
  pub from_snapshot_id : Text
  pub to_snapshot_id : Text
  pub occurred_at : ℕ
  pub change_type : ChangeType
  pub affected_node_id : Option Text
  pub affected_edge_id : Option Text
  pub attribute_name : Option Text
  pub previous_value : Option Text
  pub new_value : Option Text
  pub evidence : List Text
  pub affected_flow_ids : List Text

-- `change_type.value`
abbrev pub change_value : ChangeType → Text
change_value node_added = text "node_added"
change_value node_removed = text "node_removed"
change_value edge_added = text "edge_added"
change_value edge_removed = text "edge_removed"
change_value attribute_changed = text "attribute_changed"

-- `_target_matches_change_type`
unfoldable pub target_matches_change_type : GraphChangeEvent → Bool
target_matches_change_type e = elim e.change_type [
  | node_added ↦ is_some e.affected_node_id
  | node_removed ↦ is_some e.affected_node_id
  | edge_added ↦ is_some e.affected_edge_id
  | edge_removed ↦ is_some e.affected_edge_id
  | attribute_changed ↦ is_some e.attribute_name
]

-- `GraphChangeEvent(...)`
unfoldable pub build_event : GraphChangeEvent → Result GraphChangeEvent
unfolding target_matches_change_type
build_event e = do check (target_matches_change_type e) validation_error; ok e
