-- ===== src/FlowExport/Failing.antt =====
-- How the decoders of backend/nettrace/flowexport may fail.
use netscope_x.Prelude.{
  Option, none, some, nat_ord, pair_ord, option_ord, Result, ok, raise, Error, or_raise, ◌>>=◌,
  value_error, overflow_error, flow_export_error, ◌≡◌, refl, ◌⊎◌, inl, inr,
}

-- the exceptions of the decoders: their own, and the ValueError of `ip_address`, and the
-- OverflowError of a time that is too large for a float
abbrev pub IsDecodeError : Error → Type 0
IsDecodeError e = (e ≡ flow_export_error) ⊎ (e ≡ value_error) ⊎ (e ≡ overflow_error)

abbrev pub Fails {ℓ} : {A : Type ℓ} → Result A → Type 0
Fails (ok a) = Unit
Fails (raise e) = IsDecodeError e

pub bind-Fails {ℓ κ} :
    {A : Type ℓ} {B : Type κ} (m : Result A) (f : A → Result B)
    → Fails m
    → ((a : A) → m ≡ ok a → Fails (f a))
    → Fails (m >>= f)
bind-Fails (ok a) f h k = k a refl
bind-Fails (raise e) f h k = h

pub or_raise-Fails {ℓ} :
    {A : Type ℓ} (e : Error) (o : Option A) → IsDecodeError e → Fails (or_raise e o)
or_raise-Fails e none h = h
or_raise-Fails e (some a) h = tt

pub flow : IsDecodeError flow_export_error
flow = inl refl

-- a decoder that fails as it may returns, or raises one of these exceptions
pub ends {ℓ} :
    {A : Type ℓ} (m : Result A)
    → Fails m
    → ((a : A) × (m ≡ ok a)) ⊎ ((e : Error) × (m ≡ raise e) × IsDecodeError e)
ends (ok a) h = inl (a, refl)
ends (raise e) h = inr (e, refl, h)
