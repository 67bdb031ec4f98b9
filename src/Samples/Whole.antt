-- ===== src/Samples/Whole.antt =====
-- Whole numbers in place of Python's floats: a model of `Floats` and of its laws.
use netscope_x.Prelude.{
  ◌==◌, nat_ord, ℕ, ◌-◌, List, [], ◌∷◌, ltb, leb, if◌then◌else◌, decimal, arith, refl,
}
use netscope_x.Models.Floats.{Floats, FloatLaws}

-- rounded up
abbrev pub whole_quotient : ℕ → ℕ → ℕ
whole_quotient a b = if ltb 0 a then (if leb a b then 1 else a) else 0

abbrev pub largest : List ℕ → ℕ
largest [] = 0
largest (x ∷ xs) = let rest = largest xs in if ltb rest x then x else rest

instance abbrev pub whole : Floats ℕ
whole = record {
  zero_f = 0;
  one_f = 1;
  less = ltb;
  equal = λ a b. a == b;
  elapsed = λ t s. t - s;
  quotient = whole_quotient;
  divide = whole_quotient;
  fmean = largest;
  pstdev = λ xs. 0;
  show3 = decimal;
}

pub whole_laws : FloatLaws whole
whole_laws = record {
  zero_nonneg = refl;
  zero-le-one = refl;
  elapsed_nonneg = λ t s h. ground arith;
  quotient_nonneg = λ a b. ground arith;
  quotient-le-one = λ a b h k. ground arith;
  fmean_nonneg = λ xs h. ground arith;
}
