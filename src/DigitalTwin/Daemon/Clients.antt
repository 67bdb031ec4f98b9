-- ===== src/DigitalTwin/Daemon/Clients.antt =====
-- The order of the snapshots that wait in the daemon, and the steps of its clients.
use netscope_x.Prelude.{
  ℕ, zero, suc, ◌≤◌, true, false, List, [], ◌∷◌, ◌++◌, ltb, ◌≡◌, refl, sym, arith, last_or,
  Bool-cases, inl, inr,
}
use mathlib.Core.List.{append_assoc}
use netscope_x.DigitalTwin.Daemon.{Item, check_order, is_full, put_item}
use netscope_x.DigitalTwin.Daemon.Threads.{
  Worker, gathering, ready, System, take_out, step_checks, step_puts, step_raises_full,
}

abbrev pub twin_time : {F : Type 0} → System F → ℕ
twin_time s = s.daemon.twin.snapshot.captured_at

module _ {F : Type 0} where
  -- from the first time through the queue to the last time, no snapshot is older than the one before
  abbrev pub Ascends : ℕ → List (Item F) → ℕ → Type 0
  Ascends t [] last = t ≤ last
  Ascends t (i ∷ q) last = (t ≤ i.snapshot.captured_at) × Ascends i.snapshot.captured_at q last

  -- the batch in the worker's hand
  abbrev pub hand : Worker F → List (Item F)
  hand (gathering first rest) = first ∷ rest
  hand (ready first rest) = first ∷ rest
  hand _ = []

  pub Ascends-later :
      (t : ℕ) (q : List (Item F)) (last next : ℕ)
      → last ≤ next
      → Ascends t q last
      → Ascends t q next
  Ascends-later t [] last next l h = omega arith
  Ascends-later t (i ∷ q) last next l (h, hs) =
      (h, Ascends-later i.snapshot.captured_at q last next l hs)

  pub Ascends-sooner :
      (s t : ℕ) (q : List (Item F)) (last : ℕ) → s ≤ t → Ascends t q last → Ascends s q last
  Ascends-sooner s t [] last l h = omega arith
  Ascends-sooner s t (i ∷ q) last l (h, hs) = (omega arith, hs)

  Ascends-append :
      (t : ℕ) (q : List (Item F)) (i : Item F) (last : ℕ)
      → last ≤ i.snapshot.captured_at
      → Ascends t q last
      → Ascends t (q ++ i ∷ []) i.snapshot.captured_at
  Ascends-append t [] i last l h = (omega arith, omega arith)
  Ascends-append t (j ∷ q) i last l (h, hs) =
      (h, Ascends-append j.snapshot.captured_at q i last l hs)

  -- the last of a batch lies between the twin and the last time
  Ascends-last :
      (t : ℕ) (i : Item F) (q : List (Item F)) (last : ℕ)
      → Ascends t (i ∷ q) last
      → (t ≤ (last_or i q).snapshot.captured_at) × ((last_or i q).snapshot.captured_at ≤ last)
  Ascends-last t i [] last h = h
  Ascends-last t i (j ∷ q) last (h, hs) =
      let (a, b) = Ascends-last i.snapshot.captured_at j q last hs in (omega arith, b)

  Ascends-whole : (t : ℕ) (q : List (Item F)) (last : ℕ) → Ascends t q last → t ≤ last
  Ascends-whole t [] last h = h
  Ascends-whole t (i ∷ q) last (h, hs) =
      omega (arith, Ascends-whole i.snapshot.captured_at q last hs)

  -- what follows a batch is not older than its last, and that is not older than the twin
  pub Ascends-split :
      (t : ℕ) (i : Item F) (r q : List (Item F)) (last : ℕ)
      → Ascends t (i ∷ r ++ q) last
      → (t ≤ (last_or i r).snapshot.captured_at) × Ascends (last_or i r).snapshot.captured_at q last
  Ascends-split t i [] q last h = h
  Ascends-split t i (j ∷ r) q last (h, hs) =
      let (a, b) = Ascends-split i.snapshot.captured_at j r q last hs in (omega (arith, a, h), b)

  -- without the first item behind the hand
  pub Ascends-drop :
      (t : ℕ) (r : List (Item F)) (i : Item F) (q : List (Item F)) (last : ℕ)
      → Ascends t (r ++ i ∷ q) last
      → Ascends t (r ++ q) last
  Ascends-drop t [] i q last (h, hs) = Ascends-sooner t i.snapshot.captured_at q last h hs
  Ascends-drop t (j ∷ r) i q last (h, hs) = (h, Ascends-drop j.snapshot.captured_at r i q last hs)

  -- a client that has passed the check, if there is one, holds the last accepted snapshot
  abbrev pub IsPending : List (Item F) → ℕ → Type 0
  IsPending [] last = Unit {0}
  IsPending (i ∷ []) last = i.snapshot.captured_at ≡ last
  IsPending (i ∷ j ∷ is) last = true ≡ false

  abbrev pub IsOrdered : System F → Type 0
  IsOrdered s =
      Ascends (twin_time s) (hand s.worker ++ s.daemon.queue) s.daemon.last_accepted
      × IsPending s.putting s.daemon.last_accepted

  -- the twin does not go back
  abbrev pub Goes : System F → System F → Type 0
  Goes s t = IsOrdered t × (twin_time s ≤ twin_time t)

  pub checks-Goes :
      (s : System F) (item : Item F)
      → s.putting ≡ []
      → IsOrdered s
      → Goes s (step_checks s item (check_order s.daemon item))
  unfolding check_order
  checks-Goes s item e (h, p) =
      elim (Bool-cases (ltb item.snapshot.captured_at s.daemon.last_accepted)) [
        | inl f ↦ rw f ((h, p), omega arith)
        | inr f ↦ rw f (
          rw e (
            Ascends-later (twin_time s) (hand s.worker ++ s.daemon.queue) s.daemon.last_accepted
                item.snapshot.captured_at (ground arith) h,
            refl,
          ),
          omega arith,
        )
      ]

  pub puts-Goes :
      (s : System F) (k : ℕ) (is : List (Item F))
      → s.putting ≡ is
      → IsOrdered s
      → Goes s (step_puts s (take_out k is))
  unfolding put_item
  puts-Goes s k [] e h = (h, omega arith)
  puts-Goes s zero (i ∷ []) e (h, p) =
      let same : i.snapshot.captured_at ≡ s.daemon.last_accepted = rw e at p in
      elim (Bool-cases (is_full s.daemon)) [
        | inl f ↦ rw f ((h, p), omega arith)
        | inr f ↦ rw f (
          (
            rw (sym (append_assoc (hand s.worker) s.daemon.queue (i ∷ []))) (
                Ascends-later (twin_time s) ((hand s.worker ++ s.daemon.queue) ++ i ∷ [])
                  i.snapshot.captured_at s.daemon.last_accepted (omega (arith, same))
                  (Ascends-append (twin_time s) (hand s.worker ++ s.daemon.queue) i
                    s.daemon.last_accepted (omega (arith, same)) h)),
            tt,
          ),
          omega arith,
        )
      ]
  puts-Goes s (suc k) (i ∷ []) e h = (h, omega arith)
  puts-Goes s k (i ∷ j ∷ is) e (h, p) = absurd (cc (rw e at p))

  pub raises_full-Goes :
      (s : System F) (k : ℕ) (is : List (Item F))
      → s.putting ≡ is
      → IsOrdered s
      → Goes s (step_raises_full s (take_out k is))
  raises_full-Goes s k [] e h = (h, omega arith)
  raises_full-Goes s zero (i ∷ []) e (h, p) = elim (Bool-cases (is_full s.daemon)) [
    | inl f ↦ rw f ((h, tt), omega arith)
    | inr f ↦ rw f ((h, p), omega arith)
  ]
  raises_full-Goes s (suc k) (i ∷ []) e h = (h, omega arith)
  raises_full-Goes s k (i ∷ j ∷ is) e (h, p) = absurd (cc (rw e at p))
