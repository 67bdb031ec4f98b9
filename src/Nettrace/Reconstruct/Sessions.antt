-- ===== src/Nettrace/Reconstruct/Sessions.antt =====
-- `_split_udp_sessions` of backend/nettrace/reconstruct.py. Times and the timeout are microseconds.
use netscope_x.Prelude.{
  ℕ, ◌+◌, ◌≤◌, ◌<◌, List, [], ◌∷◌, ◌++◌, ◌≡◌, refl, ap, ◌∙◌, arith, Bool, ltb, leb, if◌then◌else◌,
  All, last_or, Bool-cases, inl, inr, sort_by,
}
use mathlib.Core.List.{append_assoc}
use netscope_x.Models.Packet.{Packet}

-- `key=lambda p: p.timestamp`
abbrev pub by_time : Packet → Packet → Bool
by_time p q = leb p.timestamp q.timestamp

-- The loop: `current` is `sessions[-1]`, and `last` its last packet. A gap that is equal to the
-- timeout does not split.
unfoldable pub split_from : ℕ → List Packet → Packet → List Packet → List (List Packet)
split_from idle current last [] = current ∷ []
split_from idle current last (p ∷ rest) =
    let new_session = current ∷ split_from idle (p ∷ []) p rest in
    let same_session = split_from idle (current ++ p ∷ []) p rest in
    if ltb (last.timestamp + idle) p.timestamp then new_session else same_session

-- of the packets in order of time; `ordered[0]` raises IndexError for no packet, see `derive_units`
unfoldable pub split_ordered : ℕ → List Packet → List (List Packet)
unfolding split_from
split_ordered idle [] = []
split_ordered idle (p ∷ rest) = split_from idle (p ∷ []) p rest

unfoldable pub split_udp_sessions : ℕ → List Packet → List (List Packet)
unfolding split_ordered
split_udp_sessions idle group = split_ordered idle (sort_by by_time group)

abbrev pub concat {ℓ} : {A : Type ℓ} → List (List A) → List A
concat [] = []
concat (xs ∷ xss) = xs ++ concat xss

-- within one session no gap is longer than the timeout
abbrev pub NoGap : ℕ → Packet → List Packet → Type 0
NoGap idle p [] = Unit
NoGap idle p (q ∷ rest) = (q.timestamp ≤ p.timestamp + idle) × NoGap idle q rest

abbrev pub IsSession : ℕ → List Packet → Type 0
IsSession idle [] = ⊥
IsSession idle (p ∷ rest) = NoGap idle p rest

-- between a session and the next the gap is longer than the timeout
abbrev pub IsLater : ℕ → List Packet → List Packet → Type 0
IsLater idle (p ∷ s) (q ∷ t) = (last_or p s).timestamp + idle < q.timestamp
IsLater idle _ _ = ⊥

abbrev pub StartsLater : ℕ → List Packet → List (List Packet) → Type 0
StartsLater idle s [] = Unit
StartsLater idle s (t ∷ more) = IsLater idle s t

abbrev pub AreApart : ℕ → List (List Packet) → Type 0
AreApart idle [] = Unit
AreApart idle (s ∷ more) = StartsLater idle s more × AreApart idle more

module _ (idle : ℕ) where
  concat-split_from :
      (current : List Packet) (last : Packet) (rest : List Packet)
      → concat (split_from idle current last rest) ≡ current ++ rest
  unfolding split_from
  concat-split_from current last [] = refl
  concat-split_from current last (p ∷ rest) =
      elim (Bool-cases (ltb (last.timestamp + idle) p.timestamp)) [
        | inl gap ↦ rw gap (ap (λ l. current ++ l) (concat-split_from (p ∷ []) p rest))
        | inr near ↦
            rw near
              (concat-split_from (current ++ p ∷ []) p rest ∙ append_assoc current (p ∷ []) rest)
      ]

  NoGap-concat :
      (p : Packet) (s : List Packet) (q : Packet)
      → NoGap idle p s
      → q.timestamp ≤ (last_or p s).timestamp + idle
      → NoGap idle p (s ++ q ∷ [])
  NoGap-concat p [] q h k = (k, tt)
  NoGap-concat p (r ∷ s) q (g, h) k = (g, NoGap-concat r s q h k)

  last_or-concat : (p : Packet) (s : List Packet) (q : Packet) → last_or p (s ++ q ∷ []) ≡ q
  last_or-concat p [] q = refl
  last_or-concat p (r ∷ s) q = last_or-concat r s q

  split_from-IsSession :
      (c : Packet) (cs : List Packet) (last : Packet) (rest : List Packet)
      → last_or c cs ≡ last
      → NoGap idle c cs
      → All (IsSession idle) (split_from idle (c ∷ cs) last rest)
  unfolding split_from
  split_from-IsSession c cs last [] e h = (h, tt)
  split_from-IsSession c cs last (p ∷ rest) e h =
      elim (Bool-cases (ltb (last.timestamp + idle) p.timestamp)) [
        | inl gap ↦ rw gap (h, split_from-IsSession p [] p rest refl tt)
        | inr near ↦ rw near (
            split_from-IsSession c (cs ++ p ∷ []) p rest (last_or-concat c cs p)
              (NoGap-concat c cs p h (rw e (ground arith))))
      ]

  split_from-StartsLater :
      (s : List Packet) (c : Packet) (cs : List Packet) (last : Packet) (rest : List Packet)
      → IsLater idle s (c ∷ [])
      → StartsLater idle s (split_from idle (c ∷ cs) last rest)
  unfolding split_from
  split_from-StartsLater (q ∷ s) c cs last [] h = h
  split_from-StartsLater (q ∷ s) c cs last (p ∷ rest) h =
      elim (Bool-cases (ltb (last.timestamp + idle) p.timestamp)) [
        | inl gap ↦ rw gap h
        | inr near ↦ rw near (split_from-StartsLater (q ∷ s) c (cs ++ p ∷ []) p rest h)
      ]
  split_from-StartsLater [] c cs last rest h = absurd h

  split_from-AreApart :
      (c : Packet) (cs : List Packet) (last : Packet) (rest : List Packet)
      → last_or c cs ≡ last
      → AreApart idle (split_from idle (c ∷ cs) last rest)
  unfolding split_from
  split_from-AreApart c cs last [] e = (tt, tt)
  split_from-AreApart c cs last (p ∷ rest) e =
      elim (Bool-cases (ltb (last.timestamp + idle) p.timestamp)) [
        | inl gap ↦ rw gap (
          split_from-StartsLater (c ∷ cs) p [] p rest (rw e (ground arith)),
          split_from-AreApart p [] p rest refl,
        )
        | inr near ↦ rw near (split_from-AreApart c (cs ++ p ∷ []) p rest (last_or-concat c cs p))
      ]

  abbrev pub IsCut : List Packet → List (List Packet) → Type 0
  IsCut ordered sessions =
      (concat sessions ≡ ordered) × All (IsSession idle) sessions × AreApart idle sessions

  split_ordered-IsCut : (ordered : List Packet) → IsCut ordered (split_ordered idle ordered)
  unfolding split_ordered
  split_ordered-IsCut [] = (refl, tt, tt)
  split_ordered-IsCut (p ∷ rest) = (
    concat-split_from (p ∷ []) p rest,
    split_from-IsSession p [] p rest refl tt,
    split_from-AreApart p [] p rest refl,
  )

-- The sessions are the packets in order of time, each once, cut exactly at the gaps that are longer
-- than the timeout: no session is empty, no gap within a session is longer, and every gap between
-- one session and the next is.
pub split_udp_sessions-IsCut :
    (idle : ℕ) (group : List Packet)
    → IsCut idle (sort_by by_time group) (split_udp_sessions idle group)
unfolding split_udp_sessions
split_udp_sessions-IsCut idle group = split_ordered-IsCut idle (sort_by by_time group)
