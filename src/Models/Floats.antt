-- ===== src/Models/Floats.antt =====
-- Python's floats and the `statistics` module, as far as the program uses them: the operations are
-- a parameter of the model, and `FloatLaws` states what their documentation promises.
use netscope_x.Prelude.{ℕ, ◌≡◌, ◌≤◌, ◌<◌, Bool, false, List, All, Text}

pub record Floats (F : Type 0) : Type 0 where
  pub zero_f : F
  pub one_f : F
  pub less : F → F → Bool
  pub equal : F → F → Bool
  -- `(t - s).total_seconds()`
  pub elapsed : ℕ → ℕ → F
  -- `a / b` of two integers
  pub quotient : ℕ → ℕ → F
  pub divide : F → F → F
  -- `statistics.fmean` and `statistics.pstdev`
  pub fmean : List F → F
  pub pstdev : List F → F
  -- the texts of `f"{x:.3f}"`
  pub show3 : F → Text

pub record FloatLaws {F : Type 0} (fl : Floats F) : Type 0 where
  pub zero_nonneg : fl.less fl.zero_f fl.zero_f ≡ false
  pub zero-le-one : fl.less fl.one_f fl.zero_f ≡ false
  pub elapsed_nonneg : (t s : ℕ) → s ≤ t → fl.less (fl.elapsed t s) fl.zero_f ≡ false
  pub quotient_nonneg : (a b : ℕ) → fl.less (fl.quotient a b) fl.zero_f ≡ false
  pub quotient-le-one : (a b : ℕ) → a ≤ b → 0 < b → fl.less fl.one_f (fl.quotient a b) ≡ false
  pub fmean_nonneg :
      (xs : List F)
      → All (λ x. fl.less x fl.zero_f ≡ false) xs
      → fl.less (fl.fmean xs) fl.zero_f ≡ false
