-- ===== src/DigitalTwin/Daemon/Order.antt =====
-- The order in which the daemon's twin goes through the snapshots.
use netscope_x.Prelude.{
  ℕ, zero, suc, ◌≤◌, ◌<◌, Bool, true, false, List, [], ◌∷◌, ◌++◌, ltb, leb, lt→ltb, le→leb, length,
  ◌≡◌, refl, ap, arith, Bool-cases, inl, inr, ◌&&◌,
}
use netscope_x.DigitalTwin.Sync.{Archive, DigitalTwin}
use netscope_x.DigitalTwin.Daemon.{
  Item, Daemon, check_order, is_full, count_full, count_submitted, put_or_refuse, submit, discard,
}
use netscope_x.DigitalTwin.Daemon.Threads.{
  System, Event, checks, puts, raises_full, counts, counts_full, turns, stops, discards,
  start_system, step_counts, step_counts_full, step, run,
}
use netscope_x.DigitalTwin.Daemon.Clients.{
  twin_time, Ascends, hand, IsOrdered, Goes, checks-Goes, puts-Goes, raises_full-Goes,
}
use netscope_x.DigitalTwin.Daemon.Turns.{worker-Goes, discards-Goes}

module _ {F : Type 0} where
  module _ (archive : Archive F) where
    -- whether no client is between its check and its put when the event is a check
    abbrev pub may_check : System F → Event F → Bool
    may_check s (checks item) = leb (length s.putting) 0
    may_check s _ = true

    -- the clients submit one at a time
    unfoldable pub are_serial : System F → List (Event F) → Bool
    are_serial s [] = true
    are_serial s (e ∷ es) = may_check s e && are_serial (step archive s e) es

    none_putting : (is : List (Item F)) → leb (length is) 0 ≡ true → is ≡ []
    none_putting [] h = refl
    none_putting (i ∷ is) h = absurd (ground arith)

    step-Goes :
        (s : System F) (e : Event F)
        → may_check s e ≡ true
        → IsOrdered s
        → Goes s (step archive s e)
    unfolding step discard count_full count_submitted
    step-Goes s (checks item) m h = checks-Goes s item (none_putting s.putting m) h
    step-Goes s (puts k) m h = puts-Goes s k s.putting refl h
    step-Goes s (raises_full k) m h = raises_full-Goes s k s.putting refl h
    step-Goes s counts m h = go s.counting
      where
        go : (n : ℕ) → Goes s (step_counts s n)
        go zero = (h, omega arith)
        go (suc n) = (h, omega arith)
    step-Goes s counts_full m h = go s.refusing
      where
        go : (n : ℕ) → Goes s (step_counts_full s n)
        go zero = (h, omega arith)
        go (suc n) = (h, omega arith)
    step-Goes s (turns now) m h = worker-Goes archive s now s.worker refl h
    step-Goes s stops m h = (h, omega arith)
    step-Goes s discards m h = elim (Bool-cases s.stopping) [
      | inl e ↦ rw e (discards-Goes s s.daemon.queue refl h)
      | inr e ↦ rw e (h, omega arith)
    ]

    run-Goes :
        (s : System F) (es : List (Event F))
        → are_serial s es ≡ true
        → IsOrdered s
        → Goes s (run archive s es)
    unfolding run are_serial
    run-Goes s [] m h = (h, omega arith)
    run-Goes s (e ∷ es) m h =
        let a : may_check s e ≡ true = ground (arith, m) in
        let b : are_serial (step archive s e) es ≡ true = ground (arith, m) in
        let (k, l) = step-Goes s e a h in
        let (m, n) = run-Goes (step archive s e) es b k in (m, omega (arith, l, n))

    start-IsOrdered :
        (twin : DigitalTwin F) (max_queue : ℕ) (coalesce : Bool)
        → IsOrdered (start_system twin max_queue coalesce)
    unfolding start_system
    start-IsOrdered twin max_queue coalesce = (omega arith, tt)

    -- Where the clients submit one at a time, each putting its item before the next one's check, the twin
    -- never goes back in time, in every interleaving with the worker and the stop: whatever steps were
    -- made, no further steps lead to a twin whose snapshot is older, and the snapshots in the worker's
    -- hand and then in the queue are in order of time, none older than the twin's.
    pub run-IsOrdered :
        (twin : DigitalTwin F) (max_queue : ℕ) (coalesce : Bool) (es later : List (Event F))
        → are_serial (start_system twin max_queue coalesce) es ≡ true
        → are_serial (run archive (start_system twin max_queue coalesce) es) later ≡ true
        → let s = run archive (start_system twin max_queue coalesce) es in
          Ascends (twin_time s) (hand s.worker ++ s.daemon.queue) s.daemon.last_accepted
          × (twin_time s ≤ twin_time (run archive s later))
    run-IsOrdered twin max_queue coalesce es later m n =
        let start = start_system twin max_queue coalesce in
        let (h, l) = run-Goes start es m (start-IsOrdered twin max_queue coalesce) in
        (h.0, (run-Goes (run archive start es) later n h).1)

  submit_old :
      (d : Daemon F) (item : Item F)
      → ltb item.snapshot.captured_at d.last_accepted ≡ true
      → submit d item ≡ (
        record d {
          stats = record d.stats { rejected_out_of_order = suc d.stats.rejected_out_of_order };
        },
        false,
      )
  unfolding submit check_order
  submit_old d item e = rw e refl

  submit_full :
      (d : Daemon F) (item : Item F)
      → ltb item.snapshot.captured_at d.last_accepted ≡ false
      → is_full d ≡ true
      → submit d item ≡ (count_full (record d { last_accepted = item.snapshot.captured_at }), false)
  unfolding submit check_order put_or_refuse
  submit_full d item e f = rw e (rw f refl)

  -- A submission that the full queue refuses still moves the bound: another one that is older than it is
  -- refused as out of order, also where it is not older than any accepted snapshot.
  pub submit_refused-bounds :
      (d : Daemon F) (refused next : Item F)
      → d.last_accepted ≤ refused.snapshot.captured_at
      → d.max_queue ≤ length d.queue
      → next.snapshot.captured_at < refused.snapshot.captured_at
      → let after = (submit d refused).0 in
        ((submit d refused).1 ≡ false)
        × (after.queue ≡ d.queue)
        × ((submit after next).1 ≡ false)
        × ((submit after next).0.stats.rejected_out_of_order ≡ suc d.stats.rejected_out_of_order)
  unfolding count_full
  submit_refused-bounds d refused next h full old =
      let moved = count_full (record d { last_accepted = refused.snapshot.captured_at }) in
      let refusal =
        submit_full d refused (ground arith) (le→leb d.max_queue (length d.queue) full) in
      let is_old = lt→ltb next.snapshot.captured_at refused.snapshot.captured_at old in
      let again = submit_old moved next is_old in
      rw refusal (refl, refl, ap (λ r. r.1) again, ap (λ r. r.0.stats.rejected_out_of_order) again)
