-- ===== src/Prelude/Results.antt =====
-- What a Python function may do: return a value, or raise an exception of one of these classes.
use mathlib.Core.Path.{◌≡◌, refl, ap}
use mathlib.Core.Bool.{Bool, true, false}
use mathlib.Core.Option.{Option, none, some}
use mathlib.Core.List.{List, [], ◌∷◌}

-- `out_of_rounds` is no exception: it says that a loop of the model got too few rounds.
pub data Error : Type 0 where
  value_error index_error key_error runtime_error validation_error flow_export_error quorum_error
        not_found_error authentication_error authorization_error tenant_access_error sync_error
        overflow_error struct_error os_error type_error out_of_rounds :
      Error

pub data Result {ℓ} (A : Type ℓ) : Type ℓ where
  ok : A → Result A
  raise : Error → Result A

pub some-injective {ℓ} : {A : Type ℓ} (a b : A) → some a ≡ some b → a ≡ b
some-injective a b e = ap (λ o. elim o [ none ↦ a | some x ↦ x ]) e

module _ {ℓ κ} {A : Type ℓ} {B : Type κ} where
  infixl 5 ◌>>=◌
  -- the next statement, which an exception skips
  abbrev pub ◌>>=◌ : Result A → (A → Result B) → Result B
  raise error >>= next = raise error
  ok a >>= next = next a

  -- a chain that returns has returned from its first statement
  pub >>=-eq-ok :
      (m : Result A) (next : A → Result B) {b : B}
      → (m >>= next) ≡ ok b
      → (a : A) × (m ≡ ok a) × (next a ≡ ok b)
  >>=-eq-ok (raise error) next h = cc
  >>=-eq-ok (ok a) next h = (a, refl, h)

-- `if not test: raise error`
abbrev pub check : Bool → Error → Result (Unit {0})
check false error = raise error
check true error = ok tt

module _ {ℓ} {A : Type ℓ} where
  infixl 5 ◌>>◌
  abbrev pub ◌>>◌ : Result (Unit {0}) → Result A → Result A
  first >> second = first >>= (λ u. second)

  abbrev pub or_raise : Error → Option A → Result A
  or_raise error none = raise error
  or_raise error (some a) = ok a

module _ {ℓ κ} {A : Type ℓ} {B : Type κ} where
  -- `[f(x) for x in xs]` where `f` may raise
  abbrev pub traverse : (A → Result B) → List A → Result (List B)
  traverse f [] = ok []
  traverse f (x ∷ xs) = do y ← f x; ys ← traverse f xs; ok (y ∷ ys)
