-- ===== src/DigitalTwin/Daemon.antt =====
-- `TwinSyncDaemon` of backend/digital_twin/daemon.py: its state and the operations that change it, each
-- a section under the daemon's lock or one operation of its queue, which module Threads interleaves.
-- Times that only measure (latencies), the rate limit, which delays a sync and does not change it, the
-- texts of errors, and the callback `on_sync`, which runs after a sync is counted, are left out.
use netscope_x.Prelude.{
  ℕ, suc, ◌+◌, ◌-◌, ◌≤◌, Bool, true, false, Option, none, some, List, [], ◌∷◌, ◌++◌, ltb, leb, max,
  length, if◌then◌else◌, Result, ok, raise, ◌>>=◌, concat_map, values, last_or, map, nat_ord,
  list_ord, pair_ord,
}
use netscope_x.Models.Behavior.{BehavioralFingerprint}
use netscope_x.Models.Snapshot.{NetworkSnapshot}
use netscope_x.DigitalTwin.Merge.{Key, record_all}
use netscope_x.DigitalTwin.Sync.{Archive, DigitalTwin, TwinSyncResult, sync_digital_twin}
pub mod Coalescing
pub mod Threads
pub mod Counters
pub mod Accounts
pub mod Clients
pub mod Turns
pub mod Order

pub record DaemonStats : Type 0 where
  pub submitted : ℕ
  pub rejected_full : ℕ
  pub rejected_out_of_order : ℕ
  pub synced : ℕ
  pub coalesced : ℕ
  pub errors : ℕ
  pub discarded_on_stop : ℕ
  pub max_queue_depth : ℕ

pub record Item (F : Type 0) : Type 0 where
  pub snapshot : NetworkSnapshot
  pub fingerprints : List (BehavioralFingerprint F)

pub record Daemon (F : Type 0) : Type 0 where
  pub twin : DigitalTwin F
  pub max_queue : ℕ
  pub coalesce : Bool
  pub queue : List (Item F)
  pub last_accepted : ℕ
  pub stats : DaemonStats
  pub changes : List (TwinSyncResult F)

abbrev pub no_stats : DaemonStats
no_stats = record {
  submitted = 0;
  rejected_full = 0;
  rejected_out_of_order = 0;
  synced = 0;
  coalesced = 0;
  errors = 0;
  discarded_on_stop = 0;
  max_queue_depth = 0;
}

module _ {F : Type 0} where
  -- `__init__`, whose checks of `policy` and `max_queue` have passed
  unfoldable pub start_daemon : DigitalTwin F → ℕ → Bool → Daemon F
  start_daemon twin max_queue coalesce = record {
    twin = twin;
    max_queue = max_queue;
    coalesce = coalesce;
    queue = [];
    last_accepted = twin.snapshot.captured_at;
    stats = no_stats;
    changes = [];
  }

  -- the first section of `submit` under the lock: a snapshot that is older than the last accepted one
  -- is refused, any other moves that bound
  unfoldable pub check_order : Daemon F → Item F → Daemon F × Bool
  check_order d item =
      if ltb item.snapshot.captured_at d.last_accepted
      then (
        record d {
          stats = record d.stats { rejected_out_of_order = suc d.stats.rejected_out_of_order };
        },
        false,
      )
      else (record d { last_accepted = item.snapshot.captured_at }, true)

  -- the queue has no room, so that a put waits or raises `queue.Full`
  abbrev pub is_full : Daemon F → Bool
  is_full d = leb d.max_queue (length d.queue)

  -- the put of `submit`, which holds no lock but the queue's own
  unfoldable pub put_item : Daemon F → Item F → Daemon F
  put_item d item = record d { queue = d.queue ++ item ∷ [] }

  -- the section of `submit` under the lock after a put that raised `queue.Full`
  unfoldable pub count_full : Daemon F → Daemon F
  count_full d = record d { stats = record d.stats { rejected_full = suc d.stats.rejected_full } }

  -- the last section of `submit` under the lock
  unfoldable pub count_submitted : Daemon F → Daemon F
  count_submitted d = record d {
    stats = record d.stats {
      submitted = suc d.stats.submitted;
      max_queue_depth = max d.stats.max_queue_depth (length d.queue);
    };
  }

  -- what follows the check of `submit`, where the queue is full for good (under "block", until the
  -- timeout) or has room
  unfoldable pub put_or_refuse : Daemon F → Item F → Daemon F × Bool
  unfolding put_item count_full count_submitted
  put_or_refuse d item =
      if is_full d then (count_full d, false) else (count_submitted (put_item d item), true)

  abbrev pub when_checked : Item F → Daemon F × Bool → Daemon F × Bool
  when_checked item (d, accepted) = if accepted then put_or_refuse d item else (d, false)

  -- a `submit` that no other thread interrupts; module Threads has its sections as steps of their own
  unfoldable pub submit : Daemon F → Item F → Daemon F × Bool
  unfolding check_order put_or_refuse
  submit d item = when_checked item (check_order d item)

  -- the fingerprints of a batch: later submissions replace earlier ones
  abbrev pub batch_fingerprints : List (Item F) → List (BehavioralFingerprint F)
  batch_fingerprints batch = values (record_all [] (concat_map (λ i. i.fingerprints) batch))

  abbrev pub newest_snapshot : Item F → List (Item F) → NetworkSnapshot
  newest_snapshot first rest = (last_or first rest).snapshot

  module _ (archive : Archive F) where
    -- the one sync of a batch
    unfoldable pub sync_batch :
        DigitalTwin F → Item F → List (Item F) → ℕ → Result (TwinSyncResult F)
    sync_batch twin first rest now =
        sync_digital_twin archive twin (newest_snapshot first rest)
          (batch_fingerprints (first ∷ rest)) now

    -- what `_process` does with the result of the sync
    unfoldable pub processed : Daemon F → ℕ → Result (TwinSyncResult F) → Daemon F
    processed d folded (raise e) = record d {
      stats = record d.stats { errors = suc d.stats.errors };
    }
    processed d folded (ok result) = record d {
      twin = result.twin;
      changes = d.changes ++ result ∷ [];
      stats = record d.stats {
        synced = suc d.stats.synced;
        coalesced = d.stats.coalesced + folded;
      };
    }

    -- `_process` of a batch that is taken from the queue
    unfoldable pub process : Daemon F → Item F → List (Item F) → ℕ → Daemon F
    unfolding sync_batch processed
    process d first rest now = processed d (length rest) (sync_batch d.twin first rest now)

  -- one round of the loop of `stop` that empties the queue
  abbrev pub discard_from : Daemon F → List (Item F) → Daemon F
  discard_from d [] = d
  discard_from d (item ∷ q) = record d {
    queue = q;
    stats = record d.stats { discarded_on_stop = suc d.stats.discarded_on_stop };
  }

  unfoldable pub discard : Daemon F → Daemon F
  discard d = discard_from d d.queue
