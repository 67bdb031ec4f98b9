-- ===== src/DigitalTwin/Sync.antt =====
-- backend/digital_twin/twin.py and backend/digital_twin/sync.py.
use netscope_x.Prelude.{
  ℕ, Bool, Option, none, some, List, [], ◌∷◌, ◌++◌, Text, ◌<=◌, leb, nat_ord, list_ord, pair_ord,
  Dict, lookup, keep_if, sort_by, Result, ok, ◌>>=◌, ◌≡◌,
}
use netscope_x.Models.Behavior.{BehavioralFingerprint, ObservationWindow}
use netscope_x.Models.Snapshot.{NetworkSnapshot, GraphChangeEvent}
use netscope_x.Models.Dependency.{DependencyEdge}
use netscope_x.Models.Topology.{TopologyGraph}
use netscope_x.DigitalTwin.Merge.{Key, fingerprint_key, record_all, merged_fingerprints}

-- `BehavioralEvolutionEvent` of backend/archaeology/behavior_evolution.py
pub record BehavioralEvolutionEvent : Type 0 where
  pub event_id : Text
  pub node_id : Text
  pub window : ObservationWindow
  pub from_computed_at : ℕ
  pub to_computed_at : ℕ
  pub feature_name : Text
  pub previous_value : Text
  pub new_value : Text
  pub evidence : List Text

-- What the twin reads from the artifacts under `root`, through the functions with these names. A read
-- may raise. The scales that `sync_digital_twin` passes on do not change while a daemon runs.
pub record Archive (F : Type 0) : Type 0 where
  pub read_snapshot_graph : Text → NetworkSnapshot → Result (TopologyGraph F)
  pub build_topology_event_timeline : Text → Result (List GraphChangeEvent)
  pub estimate_dependency_strength : Text → ℕ → Result (List (DependencyEdge F))
  pub diff_snapshots : Text → NetworkSnapshot → NetworkSnapshot → Result (List GraphChangeEvent)
  pub track_node_behavioral_evolution :
      List (BehavioralFingerprint F) → Result (List BehavioralEvolutionEvent)

pub record DigitalTwin (F : Type 0) : Type 0 where
  pub capture_id : Text
  pub snapshot : NetworkSnapshot
  pub topology : TopologyGraph F
  pub behavioral_fingerprints : List (BehavioralFingerprint F)
  pub history : List GraphChangeEvent
  pub dependencies : List (DependencyEdge F)
  pub generated_at : ℕ

pub record TwinSyncResult (F : Type 0) : Type 0 where
  pub twin : DigitalTwin F
  pub structural_changes : List GraphChangeEvent
  pub behavior_changes : List BehavioralEvolutionEvent

-- the sort key `(to_computed_at, node_id, feature_name)`
abbrev pub change_key : BehavioralEvolutionEvent → ℕ × (Text × Text)
change_key e = (e.to_computed_at, (e.node_id, e.feature_name))

abbrev pub by_change_key : BehavioralEvolutionEvent → BehavioralEvolutionEvent → Bool
by_change_key a b = change_key a <= change_key b

module _ {F : Type 0} (archive : Archive F) where
  -- `now` is what the clock shows
  unfoldable pub build_digital_twin :
      Text → NetworkSnapshot → List (BehavioralFingerprint F) → ℕ → Result (DigitalTwin F)
  build_digital_twin capture_id snapshot fingerprints now = do
    topology ← archive.read_snapshot_graph capture_id snapshot
    full_history ← archive.build_topology_event_timeline capture_id
    dependencies ← archive.estimate_dependency_strength capture_id snapshot.captured_at
    ok (record {
      capture_id = capture_id;
      snapshot = snapshot;
      topology = topology;
      behavioral_fingerprints = fingerprints;
      history = keep_if (λ e. leb e.occurred_at snapshot.captured_at) full_history;
      dependencies = dependencies;
      generated_at = now;
    })

  -- `track_node_behavioral_evolution([previous, fp])`, if there is a previous one
  unfoldable pub changes_from :
      Option (BehavioralFingerprint F)
      → BehavioralFingerprint F
      → Result (List BehavioralEvolutionEvent)
  changes_from none fp = ok []
  changes_from (some previous) fp = archive.track_node_behavioral_evolution (previous ∷ fp ∷ [])

  -- the changes that the loop over the new fingerprints collects
  unfoldable pub behavior_changes :
      Dict Key (BehavioralFingerprint F)
      → List (BehavioralFingerprint F)
      → Result (List BehavioralEvolutionEvent)
  unfolding changes_from
  behavior_changes previous_by_key [] = ok []
  behavior_changes previous_by_key (fp ∷ fps) = do
    changes ← changes_from (lookup (fingerprint_key fp) previous_by_key) fp
    more ← behavior_changes previous_by_key fps
    ok (changes ++ more)

  unfoldable pub sync_digital_twin :
      DigitalTwin F
      → NetworkSnapshot
      → List (BehavioralFingerprint F)
      → ℕ
      → Result (TwinSyncResult F)
  unfolding behavior_changes build_digital_twin
  sync_digital_twin twin new_snapshot new_fingerprints now = do
    structural ← archive.diff_snapshots twin.capture_id twin.snapshot new_snapshot
    changes ← behavior_changes (record_all [] twin.behavioral_fingerprints) new_fingerprints
    updated ←
        build_digital_twin twin.capture_id new_snapshot
          (merged_fingerprints twin.behavioral_fingerprints new_fingerprints) now
    ok (record {
      twin = updated;
      structural_changes = structural;
      behavior_changes = sort_by by_change_key changes;
    })

-- `twin_state_equal`: all that a twin knows, without the time of its construction
abbrev pub TwinStateEqual : {F : Type 0} → DigitalTwin F → DigitalTwin F → Type 0
TwinStateEqual a b =
    (a.capture_id ≡ b.capture_id)
    × (a.snapshot ≡ b.snapshot)
    × (a.topology ≡ b.topology)
    × (a.behavioral_fingerprints ≡ b.behavioral_fingerprints)
    × (a.history ≡ b.history)
    × (a.dependencies ≡ b.dependencies)
