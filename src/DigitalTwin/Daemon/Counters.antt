-- ===== src/DigitalTwin/Daemon/Counters.antt =====
-- The counters of the daemon against the submissions in it, through the steps of its clients and the
-- worker's taking of a batch.
use netscope_x.Prelude.{
  ℕ, zero, suc, ◌+◌, ◌≤◌, Bool, true, false, Option, none, some, List, [], ◌∷◌, ltb, length,
  length-append, ◌≡◌, refl, ap, sym, ◌∙◌, arith, Bool-cases, ◌⊎◌, inl, inr,
}
use netscope_x.DigitalTwin.Daemon.{
  Item, check_order, is_full, put_item, count_full, count_submitted,
}
use netscope_x.DigitalTwin.Daemon.Threads.{
  Worker, waiting, gathering, ready, System, step_checks, step_puts, step_raises_full, step_counts,
  step_counts_full, step_waiting, step_gathering,
}

module _ {F : Type 0} where
  -- the submissions in the hand of the worker
  abbrev pub in_hand : Worker F → ℕ
  in_hand (gathering first rest) = suc (length rest)
  in_hand (ready first rest) = suc (length rest)
  in_hand _ = 0

  -- the submissions that were put, by what became of them
  abbrev pub accounted : System F → ℕ
  accounted s =
      s.daemon.stats.synced
      + s.daemon.stats.coalesced
      + s.daemon.stats.errors
      + s.daemon.stats.discarded_on_stop
      + length s.daemon.queue
      + in_hand s.worker

  -- a batch of one, which a worker that does not coalesce takes
  abbrev pub takes_one : Worker F → Bool
  takes_one (gathering first rest) = false
  takes_one (ready first []) = true
  takes_one (ready first (i ∷ is)) = false
  takes_one _ = true

  abbrev pub IsExact : Bool → System F → Type 0
  IsExact c s =
      (c ≡ true)
      ⊎ ((takes_one s.worker ≡ true) × (accounted s ≡ s.daemon.stats.submitted + s.counting))

  abbrev pub IsAccounted : ℕ → Bool → System F → Type 0
  IsAccounted m c s =
      (s.daemon.max_queue ≡ m)
      × (s.daemon.coalesce ≡ c)
      × (length s.daemon.queue ≤ m)
      × (s.daemon.stats.max_queue_depth ≤ m)
      × (accounted s ≤ s.daemon.stats.submitted + s.counting)
      × IsExact c s

  module _ (m : ℕ) (c : Bool) where
    pub checks-IsAccounted :
        (s : System F) (item : Item F)
        → IsAccounted m c s
        → IsAccounted m c (step_checks s item (check_order s.daemon item))
    unfolding check_order
    checks-IsAccounted s item h =
        elim (Bool-cases (ltb item.snapshot.captured_at s.daemon.last_accepted)) [
          | inl e ↦ rw e h
          | inr e ↦ rw e h
        ]

    pub puts-IsAccounted :
        (s : System F) (taken : Option (Item F × List (Item F)))
        → IsAccounted m c s
        → IsAccounted m c (step_puts s taken)
    unfolding put_item
    puts-IsAccounted s none h = h
    puts-IsAccounted s (some (item, others)) (em, ec, b, x, a, k) =
        let n = length-append s.daemon.queue (item ∷ []) in
        elim (Bool-cases (is_full s.daemon)) [
          | inl e ↦ rw e (em, ec, b, x, a, k)
          | inr e ↦ rw e (
            em,
            ec,
            ground (arith, n),
            x,
            omega (arith, a, n),
            elim k [ inl t ↦ inl t | inr (one, k) ↦ inr (one, omega (arith, k, n)) ],
          )
        ]

    pub raises_full-IsAccounted :
        (s : System F) (taken : Option (Item F × List (Item F)))
        → IsAccounted m c s
        → IsAccounted m c (step_raises_full s taken)
    raises_full-IsAccounted s none h = h
    raises_full-IsAccounted s (some (item, others)) h = elim (Bool-cases (is_full s.daemon)) [
      | inl e ↦ rw e h
      | inr e ↦ rw e h
    ]

    pub counts-IsAccounted :
        (s : System F) (n : ℕ)
        → s.counting ≡ n
        → IsAccounted m c s
        → IsAccounted m c (step_counts s n)
    unfolding count_submitted
    counts-IsAccounted s zero e h = h
    counts-IsAccounted s (suc n) e (em, ec, b, x, a, k) = (
      em,
      ec,
      b,
      ground arith,
      omega (arith, a, e),
      elim k [ inl t ↦ inl t | inr (one, k) ↦ inr (one, omega (arith, k, e)) ],
    )

    pub counts_full-IsAccounted :
        (s : System F) (n : ℕ) → IsAccounted m c s → IsAccounted m c (step_counts_full s n)
    unfolding count_full
    counts_full-IsAccounted s zero h = h
    counts_full-IsAccounted s (suc n) h = h

    -- the first item of a batch
    pub waiting-IsAccounted :
        (s : System F) (q : List (Item F))
        → s.worker ≡ waiting
        → s.daemon.queue ≡ q
        → IsAccounted m c s
        → IsAccounted m c (step_waiting s q)
    waiting-IsAccounted s [] w e (em, ec, b, x, a, k) =
        let n = ap in_hand w in
        (
          em,
          ec,
          b,
          x,
          omega (arith, a, n),
          elim k [ inl t ↦ inl t | inr (one, k) ↦ inr (refl, omega (arith, k, n)) ],
        )
    waiting-IsAccounted s (first ∷ q) w e (em, ec, b, x, a, k) =
        let n = ap in_hand w in
        let l = ap length e in
        elim (Bool-cases s.daemon.coalesce) [
          | inl d ↦
              rw d
                (em, sym d ∙ ec, omega (arith, b, l), x, omega (arith, a, l, n), inl (sym ec ∙ d))
          | inr d ↦ rw d (
            em,
            sym d ∙ ec,
            omega (arith, b, l),
            x,
            omega (arith, a, l, n),
            elim k [ inl t ↦ inl t | inr (one, k) ↦ inr (refl, omega (arith, k, l, n)) ],
          )
        ]

    pub gathering-IsAccounted :
        (s : System F) (first : Item F) (rest q : List (Item F))
        → s.worker ≡ gathering first rest
        → s.daemon.queue ≡ q
        → IsAccounted m c s
        → IsAccounted m c (step_gathering s first rest q)
    gathering-IsAccounted s first rest [] w e (em, ec, b, x, a, k) =
        let n = ap in_hand w in
        (
          em,
          ec,
          b,
          x,
          omega (arith, a, n),
          elim k [ inl t ↦ inl t | inr (one, k) ↦ absurd (cc (ap takes_one w)) ],
        )
    gathering-IsAccounted s first rest (i ∷ q) w e (em, ec, b, x, a, k) =
        let n = ap in_hand w in
        let l = ap length e in
        let j = length-append rest (i ∷ []) in
        (
          em,
          ec,
          omega (arith, b, l),
          x,
          omega (arith, a, l, n, j),
          elim k [ inl t ↦ inl t | inr (one, k) ↦ absurd (cc (ap takes_one w)) ],
        )
