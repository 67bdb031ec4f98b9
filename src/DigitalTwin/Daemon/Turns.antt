-- ===== src/DigitalTwin/Daemon/Turns.antt =====
-- The order of the snapshots through the turns of the worker and the discards of a stop.
use netscope_x.Prelude.{
  ℕ, ◌≤◌, List, [], ◌∷◌, ◌++◌, length, Result, ok, raise, ◌≡◌, refl, ap, arith, Bool-cases, inl,
  inr, if◌then◌else◌,
}
use mathlib.Core.List.{append_assoc}
use netscope_x.DigitalTwin.Sync.{Archive, DigitalTwin, TwinSyncResult}
use netscope_x.DigitalTwin.Merge.{merged_fingerprints}
use netscope_x.DigitalTwin.Daemon.{
  Item, sync_batch, processed, process, discard_from, newest_snapshot, batch_fingerprints,
}
use netscope_x.DigitalTwin.Daemon.Coalescing.{sync-built, build-fields}
use netscope_x.DigitalTwin.Daemon.Threads.{
  Worker, at_test, waiting, finished, gathering, ready, System, step_waiting, step_gathering,
  step_worker,
}
use netscope_x.DigitalTwin.Daemon.Clients.{
  twin_time, Ascends, hand, IsOrdered, Goes, Ascends-sooner, Ascends-split, Ascends-drop,
}

module _ {F : Type 0} where
  -- the queue, its first item or the batch of the worker change hands
  waiting-Goes :
      (s : System F) (q : List (Item F))
      → s.worker ≡ waiting
      → s.daemon.queue ≡ q
      → IsOrdered s
      → Goes s (step_waiting s q)
  waiting-Goes s [] w e (h, p) = ((rw w at h, p), omega arith)
  waiting-Goes s (first ∷ q) w e (h, p) =
      let h' : Ascends (twin_time s) (first ∷ q) s.daemon.last_accepted = rw e at (rw w at h) in
      elim (Bool-cases s.daemon.coalesce) [
        | inl c ↦ rw c ((h', p), omega arith)
        | inr c ↦ rw c ((h', p), omega arith)
      ]

  gathering-Goes :
      (s : System F) (first : Item F) (rest q : List (Item F))
      → s.worker ≡ gathering first rest
      → s.daemon.queue ≡ q
      → IsOrdered s
      → Goes s (step_gathering s first rest q)
  gathering-Goes s first rest [] w e (h, p) = ((rw w at h, p), omega arith)
  gathering-Goes s first rest (i ∷ q) w e (h, p) =
      let h' : Ascends (twin_time s) (first ∷ rest ++ i ∷ q) s.daemon.last_accepted =
        rw e at (rw w at h) in
      ((rw (append_assoc rest (i ∷ []) q) h', p), omega arith)

  pub discards-Goes :
      (s : System F) (q : List (Item F))
      → s.daemon.queue ≡ q
      → IsOrdered s
      → Goes s (record s { daemon = discard_from s.daemon q })
  discards-Goes s [] e h = (h, omega arith)
  discards-Goes s (i ∷ q) e (h, p) = (
    (Ascends-drop (twin_time s) (hand s.worker) i q s.daemon.last_accepted (rw e at h), p),
    omega arith,
  )

  at_test-Goes :
      (s : System F)
      → s.worker ≡ at_test
      → IsOrdered s
      → Goes s (record s { worker = if s.stopping then finished else waiting })
  at_test-Goes s w (h, p) = elim (Bool-cases s.stopping) [
    | inl e ↦ rw e ((rw w at h, p), omega arith)
    | inr e ↦ rw e ((rw w at h, p), omega arith)
  ]

  module _ (archive : Archive F) where
    sync-time :
        (twin : DigitalTwin F) (first : Item F) (rest : List (Item F)) (now : ℕ)
        (r : TwinSyncResult F)
        → sync_batch archive twin first rest now ≡ ok r
        → r.twin.snapshot ≡ newest_snapshot first rest
    unfolding sync_batch
    sync-time twin first rest now r h =
        let fps = batch_fingerprints (first ∷ rest) in
        (build-fields archive twin.capture_id (newest_snapshot first rest)
          (merged_fingerprints twin.behavioral_fingerprints fps) now r.twin
          (sync-built archive twin (newest_snapshot first rest) fps now r h)).1

    processed-Goes :
        (s : System F) (first : Item F) (rest : List (Item F)) (now : ℕ)
        (m : Result (TwinSyncResult F))
        → sync_batch archive s.daemon.twin first rest now ≡ m
        → s.worker ≡ ready first rest
        → IsOrdered s
        → Goes s
            (record s { daemon = processed archive s.daemon (length rest) m; worker = at_test })
    unfolding processed
    processed-Goes s first rest now m e w (h, p) =
        let (l, k) =
          Ascends-split (twin_time s) first rest s.daemon.queue s.daemon.last_accepted
            (rw w at h) in
        go m e l k
      where
        go :
            (m : Result (TwinSyncResult F))
            → sync_batch archive s.daemon.twin first rest now ≡ m
            → twin_time s ≤ (newest_snapshot first rest).captured_at
            → Ascends (newest_snapshot first rest).captured_at s.daemon.queue s.daemon.last_accepted
            → Goes s
                (record s { daemon = processed archive s.daemon (length rest) m; worker = at_test })
        go (raise _) e l k = (
          (
            Ascends-sooner (twin_time s) (newest_snapshot first rest).captured_at s.daemon.queue
                s.daemon.last_accepted l k,
            p,
          ),
          omega arith,
        )
        go (ok r) e l k =
            let same : r.twin.snapshot.captured_at ≡ (newest_snapshot first rest).captured_at =
              ap (λ s. s.captured_at) (sync-time s.daemon.twin first rest now r e) in
            ((rw same k, p), omega (arith, same, l))

    pub worker-Goes :
        (s : System F) (now : ℕ) (w : Worker F)
        → s.worker ≡ w
        → IsOrdered s
        → Goes s (step_worker archive s now w)
    unfolding process
    worker-Goes s now at_test w h = at_test-Goes s w h
    worker-Goes s now waiting w h = waiting-Goes s s.daemon.queue w refl h
    worker-Goes s now finished w h = (h, omega arith)
    worker-Goes s now (gathering first rest) w h =
        gathering-Goes s first rest s.daemon.queue w refl h
    worker-Goes s now (ready first rest) w h =
        processed-Goes s first rest now (sync_batch archive s.daemon.twin first rest now) refl w h
