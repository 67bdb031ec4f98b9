-- ===== src/Samples/Twins.antt =====
-- A daemon over a small archive, and the theorems on synchronization applied to it.
use netscope_x.Prelude.{
  ℕ, suc, ◌≤◌, true, false, List, [], ◌∷◌, ◌++◌, text, String, ◌≡◌, refl, ok, length, arith, insert,
  lookup, sort_by, place,
}
use netscope_x.Models.Behavior.{BehavioralFingerprint, short}
use netscope_x.Models.Snapshot.{NetworkSnapshot}
use netscope_x.DigitalTwin.Merge.{fingerprint_key, merged_fingerprints, record_all, in_key_order}
use netscope_x.DigitalTwin.Sync.{
  Archive, DigitalTwin, TwinSyncResult, TwinStateEqual, sync_digital_twin,
}
use netscope_x.DigitalTwin.Daemon.{
  Item, Daemon, start_daemon, submit, check_order, put_item, put_or_refuse, count_submitted,
  process, processed, sync_batch,
}
use netscope_x.DigitalTwin.Daemon.Coalescing.{sync_each, sync_batch-eq-sync_each}
use netscope_x.DigitalTwin.Daemon.Threads.{
  Event, checks, puts, counts, turns, stops, discards, start_system, step, run,
}
use netscope_x.DigitalTwin.Daemon.Clients.{twin_time, Ascends, hand}
use netscope_x.DigitalTwin.Daemon.Order.{are_serial, run-IsOrdered, submit_refused-bounds}
use netscope_x.Samples.Failures.{triangle}

-- every snapshot has the one graph, and nothing ever changes
abbrev pub steady : Archive ℕ
steady = record {
  read_snapshot_graph = λ capture_id s. ok triangle;
  build_topology_event_timeline = λ capture_id. ok [];
  estimate_dependency_strength = λ capture_id t. ok [];
  diff_snapshots = λ capture_id a b. ok [];
  track_node_behavioral_evolution = λ fps. ok [];
}

abbrev pub snapshot : String → ℕ → NetworkSnapshot
snapshot id t = record { snapshot_id = text id; graph_id = text "g"; captured_at = t; version = 1 }

abbrev pub fingerprint : String → ℕ → BehavioralFingerprint ℕ
fingerprint node t = record {
  node_id = text node;
  window = short;
  computed_at = t;
  distinct_ports = [];
  distinct_protocols = [];
  distinct_destinations = 1;
  mean_flow_duration_seconds = 1;
  outbound_byte_ratio = 1;
  is_persistent_talker = true;
  total_byte_count = 10;
}

abbrev pub twin_of : NetworkSnapshot → List (BehavioralFingerprint ℕ) → ℕ → DigitalTwin ℕ
twin_of s fps now = record {
  capture_id = text "c";
  snapshot = s;
  topology = triangle;
  behavioral_fingerprints = fps;
  history = [];
  dependencies = [];
  generated_at = now;
}

abbrev pub old_twin : DigitalTwin ℕ
old_twin = twin_of (snapshot "s1" 5) (fingerprint "a" 5 ∷ []) 5

abbrev pub second : Item ℕ
second = record {
  snapshot = snapshot "s2" 6;
  fingerprints = fingerprint "a" 6 ∷ fingerprint "b" 6 ∷ [];
}

abbrev pub third : Item ℕ
third = record { snapshot = snapshot "s3" 8; fingerprints = fingerprint "a" 8 ∷ [] }

-- the twin after both submissions
abbrev pub new_twin : DigitalTwin ℕ
new_twin = twin_of (snapshot "s3" 8) (fingerprint "a" 8 ∷ fingerprint "b" 6 ∷ []) 9

both_synced : sync_each steady old_twin (second ∷ third ∷ []) 9 ≡ ok new_twin
unfolding sync_each sync_digital_twin merged_fingerprints in_key_order record_all fingerprint_key
    insert lookup sort_by place
both_synced = refl

sync_batch-eq-sync_each_example :
    (r : TwinSyncResult ℕ) × (sync_batch steady old_twin second (third ∷ []) 10 ≡ ok r)
    × TwinStateEqual r.twin new_twin
sync_batch-eq-sync_each_example =
    sync_batch-eq-sync_each steady (λ a b e. ([], refl)) old_twin new_twin second (third ∷ []) 9 10
      [] refl both_synced

-- two submissions, the second of which is synced before it is counted, and one that a stop discards
abbrev story : List (Event ℕ)
story =
    checks second
    ∷ puts 0
    ∷ turns 9
    ∷ checks third
    ∷ counts
    ∷ puts 0
    ∷ turns 9
    ∷ turns 9
    ∷ turns 9
    ∷ turns 9
    ∷ turns 9
    ∷ stops
    ∷ counts
    ∷ checks third
    ∷ puts 0
    ∷ discards
    ∷ []

-- one client submits twice while the worker collects its batch
abbrev before_sync : List (Event ℕ)
before_sync = checks second ∷ puts 0 ∷ turns 9 ∷ turns 9 ∷ checks third ∷ puts 0 ∷ turns 9 ∷ []

abbrev the_sync : List (Event ℕ)
the_sync = turns 9 ∷ turns 9 ∷ counts ∷ counts ∷ []

before_sync_serial : are_serial steady (start_system old_twin 2 true) before_sync ≡ true
unfolding are_serial run step start_system start_daemon check_order put_item
before_sync_serial = refl

the_sync_serial :
    are_serial steady (run steady (start_system old_twin 2 true) before_sync) the_sync ≡ true
unfolding are_serial run step
the_sync_serial = refl

run-IsOrdered_example :
    Ascends
      (twin_time (run steady (start_system old_twin 2 true) before_sync))
      (hand (run steady (start_system old_twin 2 true) before_sync).worker
        ++ (run steady (start_system old_twin 2 true) before_sync).daemon.queue)
      (run steady (start_system old_twin 2 true) before_sync).daemon.last_accepted
    × (twin_time (run steady (start_system old_twin 2 true) before_sync)
        ≤ twin_time (run steady (run steady (start_system old_twin 2 true) before_sync) the_sync))
run-IsOrdered_example =
    run-IsOrdered steady old_twin 2 true before_sync the_sync before_sync_serial the_sync_serial

-- Two clients that pass the check in order and put out of order: a worker that takes one item at a time
-- syncs to the later snapshot and then back to the earlier one.
abbrev crossing : List (Event ℕ)
crossing = checks second ∷ checks third ∷ puts 0 ∷ puts 0 ∷ turns 9 ∷ turns 9 ∷ turns 9 ∷ []

crossing_later : twin_time (run steady (start_system old_twin 2 false) crossing) ≡ 8
unfolding run step start_system start_daemon check_order put_item process processed sync_batch
    sync_digital_twin record_all insert lookup fingerprint_key merged_fingerprints sort_by
crossing_later = refl

crossing_back :
    twin_time (
      run steady
        (run steady (start_system old_twin 2 false) crossing)
        (turns 9 ∷ turns 9 ∷ turns 9 ∷ []))
    ≡ 6
unfolding run step start_system start_daemon check_order put_item process processed sync_batch
    sync_digital_twin record_all insert lookup fingerprint_key merged_fingerprints sort_by
crossing_back = refl

-- a daemon with room for one submission, which has one
abbrev pub full : Daemon ℕ
full = (submit (start_daemon old_twin 1 true) second).0

abbrev pub between : Item ℕ
between = record { snapshot = snapshot "s4" 7; fingerprints = [] }

full_bound : full.last_accepted ≤ 8
unfolding submit start_daemon check_order put_or_refuse put_item count_submitted
full_bound = omega arith

full_is_full : full.max_queue ≤ length full.queue
unfolding submit start_daemon check_order put_or_refuse put_item count_submitted
full_is_full = omega arith

submit_refused-bounds_example :
    ((submit full third).1 ≡ false)
    × ((submit full third).0.queue ≡ full.queue)
    × ((submit (submit full third).0 between).1 ≡ false)
    × ((submit (submit full third).0 between).0.stats.rejected_out_of_order
        ≡ suc full.stats.rejected_out_of_order)
submit_refused-bounds_example =
    submit_refused-bounds full third between full_bound full_is_full (omega arith)
