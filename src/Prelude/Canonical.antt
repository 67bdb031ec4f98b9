-- ===== src/Prelude/Canonical.antt =====
-- Dictionaries with each key once, in the order of their keys: what is looked up in one determines it.
use mathlib.Core.Path.{◌≡◌, refl, sym, ap, ◌∙◌}
use mathlib.Core.Bool.{Bool, true, false, ◌||◌, ◌&&◌, not}
use mathlib.Core.Option.{none, some}
use mathlib.Core.List.{[], ◌∷◌}
use mathlib.Core.Logic.{inl, inr}
use native.Mathlib.Omega.{arith}
use netscope_x.Prelude.Tests.{if◌then◌else◌, Bool-cases}
use netscope_x.Prelude.Lists.{All, All-imp}
use netscope_x.Prelude.Order.{
  Ord, ◌==◌, ◌<=◌, ==_iff, ==_self, ==_comm, <=_total, <=_trans, <=_antisym,
}
use netscope_x.Prelude.Sorting.{sort_by, place, place-All}
use netscope_x.Prelude.Dicts.{
  Dict, contains, keys, lookup, insert, AreDistinct, contains-keys-insert,
}

module _ {K V : Type 0} ⦃o : Ord K⦄ where
  abbrev pub by_key : K × V → K × V → Bool
  by_key a b = a.0 <= b.0

  pub insert-AreDistinct :
      (k : K) (v : V) (d : Dict K V) → AreDistinct (keys d) → AreDistinct (keys (insert k v d))
  unfolding insert
  insert-AreDistinct k v [] h = (refl, tt)
  insert-AreDistinct k v ((j, w) ∷ d) (h, hs) = elim (Bool-cases (j == k)) [
    | inl e ↦ rw e (h, hs)
    | inr e ↦
        rw e
          (ground (arith, contains-keys-insert k j v d, ==_comm k j), insert-AreDistinct k v d hs)
  ]

  lookup-absent : (k : K) (d : Dict K V) → contains (keys d) k ≡ false → lookup k d ≡ none
  unfolding lookup
  lookup-absent k [] h = refl
  lookup-absent k ((j, v) ∷ d) h = ground (arith, lookup-absent k d)

  contains-place :
      (e : K × V) (d : Dict K V) (k : K)
      → contains (keys (place by_key e d)) k ≡ (e.0 == k || contains (keys d) k)
  unfolding place
  contains-place e [] k = refl
  contains-place e (f ∷ d) k = ground (arith, contains-place e d k)

  lookup-place :
      (e : K × V) (d : Dict K V) (k : K)
      → contains (keys d) e.0 ≡ false
      → lookup k (place by_key e d) ≡ (if e.0 == k then some e.1 else lookup k d)
  unfolding place lookup
  lookup-place e [] k h = refl
  lookup-place e (f ∷ d) k h =
      ground (arith, lookup-place e d k, ==_iff e.0 k, ==_iff f.0 k, ==_iff f.0 e.0)

  contains-sort_by :
      (d : Dict K V) (k : K) → contains (keys (sort_by by_key d)) k ≡ contains (keys d) k
  unfolding sort_by
  contains-sort_by [] k = refl
  contains-sort_by (e ∷ d) k =
      ground (arith, contains-place e (sort_by by_key d) k, contains-sort_by d k)

  -- sorting by the keys changes no lookup
  pub lookup-sort_by :
      (d : Dict K V) (k : K) → AreDistinct (keys d) → lookup k (sort_by by_key d) ≡ lookup k d
  unfolding sort_by lookup
  lookup-sort_by [] k h = refl
  lookup-sort_by (e ∷ d) k (h, hs) =
      lookup-place e (sort_by by_key d) k (contains-sort_by d e.0 ∙ h)
      ∙ ap (λ r. if e.0 == k then some e.1 else r) (lookup-sort_by d k hs)

  -- each key is smaller than all that stand behind it
  abbrev pub IsAscending : Dict K V → Type 0
  IsAscending [] = Unit
  IsAscending (e ∷ d) = All (λ f. (e.0 <= f.0 && not (e.0 == f.0)) ≡ true) d × IsAscending d

  abbrev IsAfter : K → K × V → Type 0
  IsAfter k f = (k <= f.0 && not (k == f.0)) ≡ true

  IsAfter-trans :
      (k j : K) (d : Dict K V)
      → (k <= j && not (k == j)) ≡ true
      → All (IsAfter j) d
      → All (IsAfter k) d
  IsAfter-trans k j d h = All-imp (IsAfter j) (IsAfter k) d (λ f p.
      ground (arith, <=_trans k j f.0, <=_antisym k j, ==_iff k j, ==_iff k f.0, ==_iff j f.0))

  place-IsAscending :
      (e : K × V) (d : Dict K V)
      → contains (keys d) e.0 ≡ false
      → IsAscending d
      → IsAscending (place by_key e d)
  unfolding place
  place-IsAscending e [] n h = (tt, tt)
  place-IsAscending e (f ∷ d) n (h, hs) = elim (Bool-cases (by_key e f)) [
    | inl c ↦
        let first : IsAfter e.0 f = ground (arith, c, ==_comm e.0 f.0) in
        rw c ((first, IsAfter-trans e.0 f.0 d first h), (h, hs))
    | inr c ↦ rw c (
      place-All by_key (IsAfter f.0) e d (ground (arith, <=_total e.0 f.0 c)) h,
      place-IsAscending e d (ground arith) hs,
    )
  ]

  pub sort_by-IsAscending : (d : Dict K V) → AreDistinct (keys d) → IsAscending (sort_by by_key d)
  unfolding sort_by
  sort_by-IsAscending [] h = tt
  sort_by-IsAscending (e ∷ d) (h, hs) =
      place-IsAscending e (sort_by by_key d) (contains-sort_by d e.0 ∙ h) (sort_by-IsAscending d hs)

  -- what stands behind a key does not have it, nor a smaller key
  lookup-after : (k j : K) (d : Dict K V) → (k <= j) ≡ true → All (IsAfter j) d → lookup k d ≡ none
  unfolding lookup
  lookup-after k j [] l h = refl
  lookup-after k j (f ∷ d) l (p, h) =
      ground (
        arith,
        lookup-after k j d l h,
        ==_iff f.0 k,
        ==_iff j f.0,
        <=_antisym k j,
        <=_antisym j f.0,
      )

  -- the smallest keys agree
  first_key :
      (k j : K) (v w : V) (a b : Dict K V)
      → All (IsAfter k) a
      → All (IsAfter j) b
      → ((i : K) → lookup i ((k, v) ∷ a) ≡ lookup i ((j, w) ∷ b))
      → k ≡ j
  unfolding lookup
  first_key k j v w a b ha hb h = elim (Bool-cases (k <= j)) [
    | inl l ↦ ground (arith, h k, ==_self k, ==_iff j k, lookup-after k j b l hb)
    | inr g ↦ ground (arith, h j, ==_self j, ==_iff k j, lookup-after j k a (<=_total k j g) ha)
  ]

  same_rest :
      (k i : K) (v w : V) (a b : Dict K V)
      → All (IsAfter k) a
      → All (IsAfter k) b
      → lookup i ((k, v) ∷ a) ≡ lookup i ((k, w) ∷ b)
      → lookup i a ≡ lookup i b
  unfolding lookup
  same_rest k i v w a b ha hb h = elim (Bool-cases (k == i)) [
    | inl e ↦
        let back : (i <= k) ≡ true = rw (← (==_iff k i).0 e) (ground (arith, <=_total k k)) in
        lookup-after i k a back ha ∙ sym (lookup-after i k b back hb)
    | inr e ↦ rw e at h
  ]

  first_value :
      (k : K) (v w : V) (a b : Dict K V) → lookup k ((k, v) ∷ a) ≡ lookup k ((k, w) ∷ b) → v ≡ w
  unfolding lookup
  first_value k v w a b h = ground (arith, h, ==_self k)

  -- two dictionaries in the order of their keys are equal if all lookups agree
  pub ascending_ext :
      (a b : Dict K V) → IsAscending a → IsAscending b → ((k : K) → lookup k a ≡ lookup k b) → a ≡ b
  unfolding lookup
  ascending_ext [] [] ha hb h = refl
  ascending_ext [] (f ∷ b) ha hb h = absurd (ground (arith, h f.0, ==_self f.0))
  ascending_ext (e ∷ a) [] ha hb h = absurd (ground (arith, h e.0, ==_self e.0))
  ascending_ext ((k, v) ∷ a) ((j, w) ∷ b) (ha, has) (hb, hbs) h =
      let kj = first_key k j v w a b ha hb h in
      let hb' : All (IsAfter k) b = rw kj hb in
      let h' : (i : K) → lookup i ((k, v) ∷ a) ≡ lookup i ((k, w) ∷ b) =
        λ i. h i ∙ ap (λ m. lookup i ((m, w) ∷ b)) (sym kj) in
      let rest = ascending_ext a b has hbs (λ i. same_rest k i v w a b ha hb' (h' i)) in
      let value = first_value k v w a b (h' k) in cc

  absent_after : (k : K) (d : Dict K V) → All (IsAfter k) d → contains (keys d) k ≡ false
  absent_after k [] h = refl
  absent_after k (f ∷ d) (p, h) = ground (arith, absent_after k d h, ==_comm k f.0)

  pub ascending-AreDistinct : (d : Dict K V) → IsAscending d → AreDistinct (keys d)
  ascending-AreDistinct [] h = tt
  ascending-AreDistinct (e ∷ d) (h, hs) = (absent_after e.0 d h, ascending-AreDistinct d hs)
