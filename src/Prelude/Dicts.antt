-- ===== src/Prelude/Dicts.antt =====
-- Python's `dict` as the list of its items in insertion order, and `defaultdict(list)`.
use mathlib.Core.Path.{◌≡◌, refl}
use mathlib.Core.Bool.{Bool, true, false, ◌||◌}
use mathlib.Core.Option.{Option, none, some}
use mathlib.Core.List.{List, [], ◌∷◌, ◌++◌, map}
use native.Mathlib.Omega.{arith}
use mathlib.Core.Logic.{inl, inr}
use netscope_x.Prelude.Tests.{if◌then◌else◌, Bool-cases}
use netscope_x.Prelude.Order.{Ord, ◌==◌, ==_iff, ==_comm}

abbrev pub Dict {ℓ} : Type ℓ → Type ℓ → Type ℓ
Dict K V = List (K × V)

module _ {ℓ} {A : Type ℓ} ⦃o : Ord A⦄ where
  -- `a in xs`
  abbrev pub contains : List A → A → Bool
  contains [] a = false
  contains (x ∷ xs) a = x == a || contains xs a

  -- `s.add(a)`: a set is the list of its elements, each once
  abbrev pub add : List A → A → List A
  add xs a = if contains xs a then xs else xs ++ a ∷ []

  pub contains-append :
      (xs ys : List A) (a : A) → contains (xs ++ ys) a ≡ (contains xs a || contains ys a)
  contains-append [] ys a = refl
  contains-append (x ∷ xs) ys a = ground (arith, contains-append xs ys a)

  pub contains-add : (xs : List A) (a b : A) → contains (add xs a) b ≡ (contains xs b || a == b)
  contains-add xs a b = ground (arith, contains-append xs (a ∷ []) b, ==_iff a b)

  -- each element once
  abbrev pub AreDistinct : List A → Type 0
  AreDistinct [] = Unit
  AreDistinct (x ∷ xs) = (contains xs x ≡ false) × AreDistinct xs

  pub snoc-AreDistinct :
      (xs : List A) (a : A) → contains xs a ≡ false → AreDistinct xs → AreDistinct (xs ++ a ∷ [])
  snoc-AreDistinct [] a h k = (refl, tt)
  snoc-AreDistinct (x ∷ xs) a h (k, ks) = (
    ground (arith, contains-append xs (a ∷ []) x, ==_comm a x),
    snoc-AreDistinct xs a (ground arith) ks,
  )

module _ {ℓ} {K V : Type ℓ} where
  abbrev pub keys : Dict K V → List K
  keys = map (λ e. e.0)

  abbrev pub values : Dict K V → List V
  values = map (λ e. e.1)

module _ {ℓ} {K V : Type ℓ} ⦃o : Ord K⦄ where
  -- `d.get(k)`
  unfoldable pub lookup : K → Dict K V → Option V
  lookup k [] = none
  lookup k ((j, v) ∷ d) = if j == k then some v else lookup k d

  -- `d[k] = v`
  unfoldable pub insert : K → V → Dict K V → Dict K V
  insert k v [] = (k, v) ∷ []
  insert k v ((j, w) ∷ d) = if j == k then (j, v) ∷ d else (j, w) ∷ insert k v d

  pub lookup-insert :
      (k j : K) (v : V) (d : Dict K V)
      → lookup j (insert k v d) ≡ (if k == j then some v else lookup j d)
  unfolding lookup insert
  lookup-insert k j v [] = refl
  lookup-insert k j v ((i, w) ∷ d) =
      ground (arith, ==_iff k j, ==_iff i k, ==_iff i j, lookup-insert k j v d)

  pub contains-keys-insert :
      (k j : K) (v : V) (d : Dict K V)
      → contains (keys (insert k v d)) j ≡ (contains (keys d) j || k == j)
  unfolding insert
  contains-keys-insert k j v [] = ground arith
  contains-keys-insert k j v ((i, w) ∷ d) =
      ground (arith, ==_iff k j, ==_iff i k, ==_iff i j, contains-keys-insert k j v d)

  -- a key has a value exactly if it is a key
  pub lookup-eq-none : (k : K) (d : Dict K V) → contains (keys d) k ≡ false → lookup k d ≡ none
  unfolding lookup
  lookup-eq-none k [] h = refl
  lookup-eq-none k ((j, v) ∷ d) h = ground (arith, lookup-eq-none k d)

  pub lookup-eq-some :
      (k : K) (d : Dict K V) → contains (keys d) k ≡ true → (v : V) × (lookup k d ≡ some v)
  unfolding lookup
  lookup-eq-some k [] h = absurd (cc)
  lookup-eq-some k ((j, v) ∷ d) h = elim (Bool-cases (j == k)) [
    | inl e ↦ (v, rw e)
    | inr e ↦ rw e (lookup-eq-some k d (rw e at h))
  ]

module _ {ℓ} {K A : Type ℓ} ⦃o : Ord K⦄ where
  -- `d[k].append(a)` of a `defaultdict(list)`
  unfoldable pub append_at : K → A → Dict K (List A) → Dict K (List A)
  append_at k a [] = (k, a ∷ []) ∷ []
  append_at k a ((j, as') ∷ d) =
      if j == k then (j, as' ++ a ∷ []) ∷ d else (j, as') ∷ append_at k a d

  -- `d[k]`, which is empty for a key that is not there
  unfoldable pub group : K → Dict K (List A) → List A
  group k [] = []
  group k ((j, as') ∷ d) = if j == k then as' else group k d

  pub group-append_at :
      (k j : K) (a : A) (d : Dict K (List A))
      → group j (append_at k a d) ≡ (if k == j then group j d ++ a ∷ [] else group j d)
  unfolding group append_at
  group-append_at k j a [] = ground arith
  group-append_at k j a ((i, as') ∷ d) =
      ground (arith, ==_iff k j, ==_iff i k, ==_iff i j, group-append_at k j a d)

  pub contains-keys-append_at :
      (k j : K) (a : A) (d : Dict K (List A))
      → contains (keys (append_at k a d)) j ≡ (contains (keys d) j || k == j)
  unfolding append_at
  contains-keys-append_at k j a [] = ground arith
  contains-keys-append_at k j a ((i, as') ∷ d) =
      ground (arith, ==_iff k j, ==_iff i k, ==_iff i j, contains-keys-append_at k j a d)
