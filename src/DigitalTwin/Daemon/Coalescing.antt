-- ===== src/DigitalTwin/Daemon/Coalescing.antt =====
-- A coalesced batch against the same submissions one by one. `track_node_behavioral_evolution` of
-- backend/archaeology/behavior_evolution.py raises only for an empty list and for fingerprints of
-- different nodes or windows, so that it tells the changes between any two of one node and window.
use netscope_x.Prelude.{
  ℕ, List, [], ◌∷◌, ◌++◌, Text, nat_ord, list_ord, pair_ord, Dict, lookup, values, Result, ok,
  ◌>>=◌, >>=-eq-ok, concat_map, ◌≡◌, refl, sym, ap, ◌∙◌, arith, sort_by, inl, inr, Option-cases,
}
use netscope_x.Models.Behavior.{BehavioralFingerprint}
use netscope_x.Models.Snapshot.{NetworkSnapshot, GraphChangeEvent}
use netscope_x.DigitalTwin.Merge.{
  Key, fingerprint_key, record_all, merged_fingerprints, newest, newest-merged, newest-append,
  newest-recorded, merged_ext, or_else, or_else_assoc, key-lookup, IsTable, record_all-IsTable,
}
use netscope_x.DigitalTwin.Sync.{
  Archive, DigitalTwin, TwinSyncResult, TwinStateEqual, build_digital_twin, behavior_changes,
  changes_from, sync_digital_twin, BehavioralEvolutionEvent, by_change_key,
}
use netscope_x.DigitalTwin.Daemon.{Item, sync_batch, batch_fingerprints, newest_snapshot}

append_nil : {A : Type 0} (xs : List A) → xs ++ [] ≡ xs
append_nil [] = refl
append_nil (x ∷ xs) = ap (◌∷◌ x) (append_nil xs)

module _ {F : Type 0} where
  -- merging twice is merging once
  merged_twice :
      (p f g : List (BehavioralFingerprint F))
      → merged_fingerprints (merged_fingerprints p f) g ≡ merged_fingerprints p (f ++ g)
  merged_twice p f g = merged_ext (merged_fingerprints p f) p g (f ++ g) (λ k.
      ap (or_else (newest k g)) (newest-merged k p f)
      ∙ sym (or_else_assoc (newest k g) (newest k f) (newest k p))
      ∙ ap (λ a. or_else a (newest k p)) (sym (newest-append k f g)))

  merged_recorded :
      (p f : List (BehavioralFingerprint F))
      → merged_fingerprints p (values (record_all [] f)) ≡ merged_fingerprints p f
  merged_recorded p f =
      merged_ext p p (values (record_all [] f)) f
        (λ k. ap (λ a. or_else a (newest k p)) (newest-recorded k f))

  abbrev pub all_fingerprints : List (Item F) → List (BehavioralFingerprint F)
  all_fingerprints = concat_map (λ i. i.fingerprints)

  module _ (archive : Archive F) where
    -- the submissions of a batch, each synced on its own
    unfoldable pub sync_each : DigitalTwin F → List (Item F) → ℕ → Result (DigitalTwin F)
    sync_each twin [] now = ok twin
    sync_each twin (i ∷ is) now = do
      result ← sync_digital_twin archive twin i.snapshot i.fingerprints now
      sync_each result.twin is now

    -- a sync that returns has built its twin
    pub sync-built :
        (twin : DigitalTwin F) (s : NetworkSnapshot) (fps : List (BehavioralFingerprint F))
        (now : ℕ) (r : TwinSyncResult F)
        → sync_digital_twin archive twin s fps now ≡ ok r
        → build_digital_twin archive twin.capture_id s
            (merged_fingerprints twin.behavioral_fingerprints fps)
            now
          ≡ ok r.twin
    unfolding sync_digital_twin
    sync-built twin s fps now r h = ground arith

    pub build-fields :
        (cap : Text) (s : NetworkSnapshot) (fps : List (BehavioralFingerprint F)) (now : ℕ)
        (t : DigitalTwin F)
        → build_digital_twin archive cap s fps now ≡ ok t
        → (t.capture_id ≡ cap) × (t.snapshot ≡ s) × (t.behavioral_fingerprints ≡ fps)
    unfolding build_digital_twin
    build-fields cap s fps now t h = ground arith

    -- another clock gives the same twin with another stamp
    build-restamp :
        (cap : Text) (s : NetworkSnapshot) (fps : List (BehavioralFingerprint F)) (now later : ℕ)
        (t : DigitalTwin F)
        → build_digital_twin archive cap s fps now ≡ ok t
        → build_digital_twin archive cap s fps later ≡ ok (record t { generated_at = later })
    unfolding build_digital_twin
    build-restamp cap s fps now later t h = ground arith

    -- the twin that single syncs reach is built from the last snapshot and all the fingerprints
    sync_each-built :
        (twin : DigitalTwin F) (first : Item F) (rest : List (Item F)) (now : ℕ) (t : DigitalTwin F)
        → sync_each twin (first ∷ rest) now ≡ ok t
        → build_digital_twin archive twin.capture_id
            (newest_snapshot first rest)
            (merged_fingerprints twin.behavioral_fingerprints (all_fingerprints (first ∷ rest)))
            now
          ≡ ok t
    unfolding sync_each
    sync_each-built twin first [] now t h =
        let (r, hr, hs) =
          >>=-eq-ok (sync_digital_twin archive twin first.snapshot first.fingerprints now)
            (λ result. sync_each result.twin [] now) h in
        rw (append_nil first.fingerprints)
          (sync-built twin first.snapshot first.fingerprints now r hr ∙ hs)
    sync_each-built twin first (i ∷ is) now t h =
        let (r, hr, hs) =
          >>=-eq-ok (sync_digital_twin archive twin first.snapshot first.fingerprints now)
            (λ result. sync_each result.twin (i ∷ is) now) h in
        let built = sync-built twin first.snapshot first.fingerprints now r hr in
        let (cap, snap, fps) =
          build-fields twin.capture_id first.snapshot
            (merged_fingerprints twin.behavioral_fingerprints first.fingerprints) now r.twin
            built in
        let later = sync_each-built r.twin i is now t hs in
        let from_first : build_digital_twin archive twin.capture_id (newest_snapshot i is)
              (merged_fingerprints
                (merged_fingerprints twin.behavioral_fingerprints first.fingerprints)
                (all_fingerprints (i ∷ is)))
              now
            ≡ ok t =
          rw fps at (rw cap at later) in
        rw
          (merged_twice twin.behavioral_fingerprints first.fingerprints (all_fingerprints (i ∷ is)))
          at from_first

    -- behavior changes can be told where those of two fingerprints of one node and window can
    behavior_changes-ok :
        (d : Dict Key (BehavioralFingerprint F)) (fps : List (BehavioralFingerprint F))
        → ((a b : BehavioralFingerprint F)
            → fingerprint_key a ≡ fingerprint_key b
            → (cs : List BehavioralEvolutionEvent) × (archive.track_node_behavioral_evolution
                  (a ∷ b ∷ [])
                ≡ ok cs))
        → IsTable d
        → (cs : List BehavioralEvolutionEvent) × (behavior_changes archive d fps ≡ ok cs)
    unfolding behavior_changes changes_from
    behavior_changes-ok d [] h table = ([], refl)
    behavior_changes-ok d (fp ∷ fps) h table =
        let (more, em) = behavior_changes-ok d fps h table in
        elim (Option-cases (lookup (fingerprint_key fp) d)) [
          | inl e ↦ (more, rw e (rw em))
          | inr (a, e) ↦
              let (cs, ec) = h a fp (key-lookup d (fingerprint_key fp) a table e) in
              (cs ++ more, rw e (rw ec (rw em)))
        ]

    -- Where the differences of the twin's snapshot and the last of a batch can be read and the changes
    -- between two fingerprints of one node and window can be told, a batch of submissions whose single
    -- syncs succeed one after the other is synced at once, and the two twins are equal but for the time
    -- of their construction.
    pub sync_batch-eq-sync_each :
        ((a b : BehavioralFingerprint F)
          → fingerprint_key a ≡ fingerprint_key b
          → (cs : List BehavioralEvolutionEvent) × (archive.track_node_behavioral_evolution
                (a ∷ b ∷ [])
              ≡ ok cs))
        → (twin t : DigitalTwin F) (first : Item F) (rest : List (Item F)) (now later : ℕ)
        → (ds : List GraphChangeEvent)
        → archive.diff_snapshots twin.capture_id twin.snapshot (newest_snapshot first rest) ≡ ok ds
        → sync_each twin (first ∷ rest) now ≡ ok t
        → (r : TwinSyncResult F) × (sync_batch archive twin first rest later ≡ ok r)
          × TwinStateEqual r.twin t
    unfolding sync_batch sync_digital_twin
    sync_batch-eq-sync_each tracks twin t first rest now later ds ed h =
        let previous = twin.behavioral_fingerprints in
        let fps = batch_fingerprints (first ∷ rest) in
        let (cs, ec) =
          behavior_changes-ok (record_all [] previous) fps tracks
            (record_all-IsTable [] previous (tt, tt)) in
        let built =
          build-restamp twin.capture_id (newest_snapshot first rest)
            (merged_fingerprints previous (all_fingerprints (first ∷ rest))) now later t
            (sync_each-built twin first rest now t h) in
        let same = merged_recorded previous (all_fingerprints (first ∷ rest)) in
        let updated : build_digital_twin archive twin.capture_id (newest_snapshot first rest)
              (merged_fingerprints previous fps) later
            ≡ ok (record t { generated_at = later }) =
          rw same built in
        (
          record {
            twin = record t { generated_at = later };
            structural_changes = ds;
            behavior_changes = sort_by by_change_key cs;
          },
          rw ed (rw ec (rw updated)),
          (refl, refl, refl, refl, refl, refl),
        )
