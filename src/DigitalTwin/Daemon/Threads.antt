-- ===== src/DigitalTwin/Daemon/Threads.antt =====
-- The threads of `TwinSyncDaemon`: the clients in `submit`, the worker in `_run` and the one that stops
-- it, whose steps interleave. A step is one section under the daemon's lock, or one operation of the
-- queue or of the stop flag, which lock themselves.
use netscope_x.Prelude.{
  ℕ, zero, suc, Bool, true, false, Option, none, some, List, [], ◌∷◌, ◌++◌, if◌then◌else◌,
}
use netscope_x.DigitalTwin.Sync.{Archive, DigitalTwin}
use netscope_x.DigitalTwin.Daemon.{
  Item, Daemon, start_daemon, check_order, is_full, put_item, count_full, count_submitted, process,
  discard,
}

-- where the worker is: before the test of the stop flag, in the `get` that waits, collecting a batch,
-- about to process it, or done
pub data Worker (F : Type 0) : Type 0 where
  at_test waiting finished : Worker F
  gathering ready : Item F → List (Item F) → Worker F

pub record System (F : Type 0) : Type 0 where
  pub daemon : Daemon F
  -- the items of the clients between the check of the order and the put
  pub putting : List (Item F)
  -- the clients between the put and the count of it, and those whose put raised `queue.Full`
  pub counting : ℕ
  pub refusing : ℕ
  pub worker : Worker F
  pub stopping : Bool

-- `puts` and `raises_full` name the client by the place of its item among those that are being put.
pub data Event (F : Type 0) : Type 0 where
  checks : Item F → Event F
  puts raises_full : ℕ → Event F
  counts counts_full : Event F
  turns : ℕ → Event F
  stops discards : Event F

module _ {F : Type 0} where
  abbrev pub beside : Item F → Option (Item F × List (Item F)) → Option (Item F × List (Item F))
  beside i none = none
  beside i (some (item, others)) = some (item, i ∷ others)

  abbrev pub take_out : ℕ → List (Item F) → Option (Item F × List (Item F))
  take_out k [] = none
  take_out zero (i ∷ is) = some (i, is)
  take_out (suc k) (i ∷ is) = beside i (take_out k is)

  unfoldable pub start_system : DigitalTwin F → ℕ → Bool → System F
  unfolding start_daemon
  start_system twin max_queue coalesce = record {
    daemon = start_daemon twin max_queue coalesce;
    putting = [];
    counting = 0;
    refusing = 0;
    worker = at_test;
    stopping = false;
  }

  -- a client goes on to the put if its item passes the check
  abbrev pub step_checks : System F → Item F → Daemon F × Bool → System F
  step_checks s item (d, accepted) =
      if accepted
      then record s { daemon = d; putting = item ∷ s.putting }
      else record s { daemon = d }

  -- a put waits while the queue is full
  abbrev pub step_puts : System F → Option (Item F × List (Item F)) → System F
  step_puts s none = s
  step_puts s (some (item, others)) =
      if is_full s.daemon
      then s
      else record s { daemon = put_item s.daemon item; putting = others; counting = suc s.counting }

  -- and raises `queue.Full` only then
  abbrev pub step_raises_full : System F → Option (Item F × List (Item F)) → System F
  step_raises_full s none = s
  step_raises_full s (some (item, others)) =
      if is_full s.daemon then record s { putting = others; refusing = suc s.refusing } else s

  abbrev pub step_counts : System F → ℕ → System F
  step_counts s zero = s
  step_counts s (suc n) = record s { daemon = count_submitted s.daemon; counting = n }

  abbrev pub step_counts_full : System F → ℕ → System F
  step_counts_full s zero = s
  step_counts_full s (suc n) = record s { daemon = count_full s.daemon; refusing = n }

  -- the worker has got the first item of a batch
  abbrev pub got : Daemon F → Item F → Worker F
  got d first = if d.coalesce then gathering first [] else ready first []

  abbrev pub step_waiting : System F → List (Item F) → System F
  step_waiting s [] = record s { worker = at_test }
  step_waiting s (first ∷ q) = record s {
    daemon = record s.daemon { queue = q };
    worker = got s.daemon first;
  }

  abbrev pub step_gathering : System F → Item F → List (Item F) → List (Item F) → System F
  step_gathering s first rest [] = record s { worker = ready first rest }
  step_gathering s first rest (i ∷ q) = record s {
    daemon = record s.daemon { queue = q };
    worker = gathering first (rest ++ i ∷ []);
  }

  module _ (archive : Archive F) where
    -- One step of `_run`. A sync reads what only the worker writes, so that it counts as done in the
    -- section under the lock that ends `_process`.
    abbrev pub step_worker : System F → ℕ → Worker F → System F
    step_worker s now at_test = record s { worker = if s.stopping then finished else waiting }
    step_worker s now waiting = step_waiting s s.daemon.queue
    step_worker s now (gathering first rest) = step_gathering s first rest s.daemon.queue
    step_worker s now (ready first rest) = record s {
      daemon = process archive s.daemon first rest now;
      worker = at_test;
    }
    step_worker s now finished = s

    unfoldable pub step : System F → Event F → System F
    unfolding check_order put_item count_full count_submitted process discard
    step s (checks item) = step_checks s item (check_order s.daemon item)
    step s (puts k) = step_puts s (take_out k s.putting)
    step s (raises_full k) = step_raises_full s (take_out k s.putting)
    step s counts = step_counts s s.counting
    step s counts_full = step_counts_full s s.refusing
    step s (turns now) = step_worker s now s.worker
    step s stops = record s { stopping = true }
    step s discards = if s.stopping then record s { daemon = discard s.daemon } else s

    unfoldable pub run : System F → List (Event F) → System F
    unfolding step
    run s [] = s
    run s (e ∷ es) = run (step s e) es

    pub run-keeps :
        (P : System F → Type 0)
        → ((s : System F) (e : Event F) → P s → P (step s e))
        → (s : System F) (es : List (Event F)) → P s
        → P (run s es)
    unfolding run
    run-keeps P h s [] p = p
    run-keeps P h s (e ∷ es) p = run-keeps P h (step s e) es (h s e p)
