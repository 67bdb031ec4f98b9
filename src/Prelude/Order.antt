-- ===== src/Prelude/Order.antt =====
-- One interface for the keys of the program: a comparison that is a total order and whose `eq` is
-- equality. Numbers, pairs, optional values and lists (so texts) have it.
use Prim.Native.Nat.{ℕ, compare, Ordering}
use Prim.Native.Nat.Ordering.{lt, eq, gt}
use mathlib.Core.Path.{◌≡◌, refl, ap}
use mathlib.Core.Logic.{◌↔◌, ◌⊎◌, inl, inr}
use mathlib.Core.Bool.{Bool, true, false}
use mathlib.Core.Option.{Option, none, some}
use mathlib.Core.List.{List, [], ◌∷◌}
use native.Mathlib.Omega.{arith}
use netscope_x.Prelude.Tests.{if◌then◌else◌}

abbrev pub flip : Ordering → Ordering
flip lt = gt
flip eq = eq
flip gt = lt

-- the first comparison that decides
abbrev pub lexi : Ordering → Ordering → Ordering
lexi eq o = o
lexi lt o = lt
lexi gt o = gt

abbrev pub is_eq : Ordering → Bool
is_eq eq = true
is_eq _ = false

abbrev pub is_le : Ordering → Bool
is_le gt = false
is_le _ = true

pub record Ord {ℓ} (A : Type ℓ) : Type ℓ where
  pub cmp : A → A → Ordering
  pub cmp_self : (a : A) → cmp a a ≡ eq
  pub eq_of_cmp : (a b : A) → cmp a b ≡ eq → a ≡ b
  pub cmp_flip : (a b : A) → cmp b a ≡ flip (cmp a b)
  pub cmp_trans : (a b c : A) → cmp a b ≡ lt → cmp b c ≡ lt → cmp a c ≡ lt

infix 50 ◌==◌ ◌<=◌
abbrev pub ◌==◌ {ℓ} : {A : Type ℓ} ⦃o : Ord A⦄ → A → A → Bool
◌==◌ ⦃o⦄ a b = is_eq (o.cmp a b)

abbrev pub ◌<=◌ {ℓ} : {A : Type ℓ} ⦃o : Ord A⦄ → A → A → Bool
◌<=◌ ⦃o⦄ a b = is_le (o.cmp a b)

Ordering-cases : (o : Ordering) → (o ≡ eq) ⊎ (is_eq o ≡ false)
Ordering-cases lt = inr refl
Ordering-cases eq = inl refl
Ordering-cases gt = inr refl

module _ {ℓ} {A : Type ℓ} ⦃o : Ord A⦄ where
  pub ==_iff : (a b : A) → ((a == b) ≡ true) ↔ (a ≡ b)
  ==_iff a b = (
    λ h. o.eq_of_cmp a b (ground arith),
    λ p. ground (arith, ap (λ (x : A). o.cmp a x) p, o.cmp_self a),
  )

  pub ==_self : (a : A) → (a == a) ≡ true
  ==_self a = (==_iff a a).1 refl

  pub ==_comm : (a b : A) → (a == b) ≡ (b == a)
  ==_comm a b = ground (arith, o.cmp_flip a b)

  -- `<=` is total, antisymmetric and transitive
  pub <=_total : (a b : A) → (a <= b) ≡ false → (b <= a) ≡ true
  <=_total a b h = ground (arith, o.cmp_flip a b)

  pub <=_antisym : (a b : A) → (a <= b) ≡ true → (b <= a) ≡ true → a ≡ b
  <=_antisym a b h k = o.eq_of_cmp a b (ground (arith, o.cmp_flip a b))

  pub <=_trans : (a b c : A) → (a <= b) ≡ true → (b <= c) ≡ true → (a <= c) ≡ true
  <=_trans a b c h k =
      ground (arith, o.cmp_trans a b c, o.eq_of_cmp a b, o.eq_of_cmp b c, o.cmp_self a)

pub cmp_nat_self : (a : ℕ) → compare a a ≡ eq
cmp_nat_self a = ground arith

pub cmp_nat_eq : (a b : ℕ) → compare a b ≡ eq → a ≡ b
cmp_nat_eq a b h = ground arith

pub cmp_nat_flip : (a b : ℕ) → compare b a ≡ flip (compare a b)
cmp_nat_flip a b = ground arith

pub cmp_nat_trans : (a b c : ℕ) → compare a b ≡ lt → compare b c ≡ lt → compare a c ≡ lt
cmp_nat_trans a b c h k = ground arith

instance abbrev pub nat_ord : Ord ℕ
nat_ord = record {
  cmp = compare;
  cmp_self = cmp_nat_self;
  eq_of_cmp = cmp_nat_eq;
  cmp_flip = cmp_nat_flip;
  cmp_trans = cmp_nat_trans;
}

module _ {ℓ} {A : Type ℓ} ⦃o : Ord A⦄ where
  abbrev pub cmp_list : List A → List A → Ordering
  cmp_list [] [] = eq
  cmp_list [] (y ∷ ys) = lt
  cmp_list (x ∷ xs) [] = gt
  cmp_list (x ∷ xs) (y ∷ ys) = lexi (o.cmp x y) (cmp_list xs ys)

  pub cmp_list_self : (a : List A) → cmp_list a a ≡ eq
  cmp_list_self [] = refl
  cmp_list_self (x ∷ xs) = ground (arith, o.cmp_self x, cmp_list_self xs)

  pub cmp_list-eq : (a b : List A) → cmp_list a b ≡ eq → a ≡ b
  cmp_list-eq [] [] h = refl
  cmp_list-eq [] (y ∷ ys) h = ground arith
  cmp_list-eq (x ∷ xs) [] h = ground arith
  cmp_list-eq (x ∷ xs) (y ∷ ys) h = ground (arith, o.eq_of_cmp x y, cmp_list-eq xs ys)

  pub cmp_list-flip : (a b : List A) → cmp_list b a ≡ flip (cmp_list a b)
  cmp_list-flip [] [] = refl
  cmp_list-flip [] (y ∷ ys) = refl
  cmp_list-flip (x ∷ xs) [] = refl
  cmp_list-flip (x ∷ xs) (y ∷ ys) = ground (arith, o.cmp_flip x y, cmp_list-flip xs ys)

  pub cmp_list_trans : (a b c : List A) → cmp_list a b ≡ lt → cmp_list b c ≡ lt → cmp_list a c ≡ lt
  cmp_list_trans [] b [] h k = ground arith
  cmp_list_trans [] b (z ∷ zs) h k = refl
  cmp_list_trans (x ∷ xs) [] c h k = ground arith
  cmp_list_trans (x ∷ xs) (y ∷ ys) [] h k = ground arith
  cmp_list_trans (x ∷ xs) (y ∷ ys) (z ∷ zs) h k = ground (
    arith,
    o.cmp_trans x y z,
    o.eq_of_cmp x y,
    o.eq_of_cmp y z,
    cmp_list_trans xs ys zs,
    o.cmp_self x,
  )

instance abbrev pub list_ord {ℓ} : {A : Type ℓ} ⦃o : Ord A⦄ → Ord (List A)
list_ord ⦃o⦄ = record {
  cmp = cmp_list;
  cmp_self = cmp_list_self;
  eq_of_cmp = cmp_list-eq;
  cmp_flip = cmp_list-flip;
  cmp_trans = cmp_list_trans;
}

module _ {ℓ} {A B : Type ℓ} ⦃o : Ord A⦄ ⦃p : Ord B⦄ where
  abbrev pub cmp_pair : A × B → A × B → Ordering
  cmp_pair (a, b) (c, d) = lexi (o.cmp a c) (p.cmp b d)

  pub cmp_pair_self : (a : A × B) → cmp_pair a a ≡ eq
  cmp_pair_self (a, b) = ground (arith, o.cmp_self a, p.cmp_self b)

  pub cmp_pair-eq : (a b : A × B) → cmp_pair a b ≡ eq → a ≡ b
  cmp_pair-eq (a, b) (c, d) h = ground (arith, o.eq_of_cmp a c, p.eq_of_cmp b d)

  pub cmp_pair-flip : (a b : A × B) → cmp_pair b a ≡ flip (cmp_pair a b)
  cmp_pair-flip (a, b) (c, d) = ground (arith, o.cmp_flip a c, p.cmp_flip b d)

  pub cmp_pair_trans : (a b c : A × B) → cmp_pair a b ≡ lt → cmp_pair b c ≡ lt → cmp_pair a c ≡ lt
  cmp_pair_trans (x, x') (y, y') (z, z') h k = ground (
    arith,
    o.cmp_trans x y z,
    o.eq_of_cmp x y,
    o.eq_of_cmp y z,
    o.cmp_self x,
    p.cmp_trans x' y' z',
  )

instance abbrev pub pair_ord {ℓ} : {A B : Type ℓ} ⦃o : Ord A⦄ ⦃p : Ord B⦄ → Ord (A × B)
pair_ord ⦃o⦄ ⦃p⦄ = record {
  cmp = cmp_pair;
  cmp_self = cmp_pair_self;
  eq_of_cmp = cmp_pair-eq;
  cmp_flip = cmp_pair-flip;
  cmp_trans = cmp_pair_trans;
}

module _ {ℓ} {A : Type ℓ} ⦃o : Ord A⦄ where
  abbrev pub cmp_option : Option A → Option A → Ordering
  cmp_option none none = eq
  cmp_option none (some b) = lt
  cmp_option (some a) none = gt
  cmp_option (some a) (some b) = o.cmp a b

  pub cmp_option_self : (a : Option A) → cmp_option a a ≡ eq
  cmp_option_self none = refl
  cmp_option_self (some a) = o.cmp_self a

  pub cmp_option-eq : (a b : Option A) → cmp_option a b ≡ eq → a ≡ b
  cmp_option-eq none none h = refl
  cmp_option-eq none (some b) h = ground arith
  cmp_option-eq (some a) none h = ground arith
  cmp_option-eq (some a) (some b) h = ap some (o.eq_of_cmp a b h)

  pub cmp_option-flip : (a b : Option A) → cmp_option b a ≡ flip (cmp_option a b)
  cmp_option-flip none none = refl
  cmp_option-flip none (some b) = refl
  cmp_option-flip (some a) none = refl
  cmp_option-flip (some a) (some b) = o.cmp_flip a b

  pub cmp_option_trans :
      (a b c : Option A) → cmp_option a b ≡ lt → cmp_option b c ≡ lt → cmp_option a c ≡ lt
  cmp_option_trans none b none h k = ground arith
  cmp_option_trans none b (some z) h k = refl
  cmp_option_trans (some x) none c h k = ground arith
  cmp_option_trans (some x) (some y) none h k = ground arith
  cmp_option_trans (some x) (some y) (some z) h k = o.cmp_trans x y z h k

instance abbrev pub option_ord {ℓ} : {A : Type ℓ} ⦃o : Ord A⦄ → Ord (Option A)
option_ord ⦃o⦄ = record {
  cmp = cmp_option;
  cmp_self = cmp_option_self;
  eq_of_cmp = cmp_option-eq;
  cmp_flip = cmp_option-flip;
  cmp_trans = cmp_option_trans;
}

module _ {ℓ} {A : Type ℓ} ⦃o : Ord A⦄ where
  -- `tuple(sorted((a, b)))`
  unfoldable pub sorted_pair : A → A → A × A
  sorted_pair a b = if a <= b then (a, b) else (b, a)

  pub sorted_pair_comm : (a b : A) → sorted_pair a b ≡ sorted_pair b a
  unfolding sorted_pair
  sorted_pair_comm a b = ground (arith, <=_total a b, <=_antisym a b)

  pub sorted_pair_eq :
      (a b c d : A) → sorted_pair a b ≡ sorted_pair c d → (a ≡ c) × (b ≡ d) ⊎ (a ≡ d) × (b ≡ c)
  unfolding sorted_pair
  sorted_pair_eq a b c d h = ground arith
