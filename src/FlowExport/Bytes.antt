-- ===== src/FlowExport/Bytes.antt =====
-- Unsigned integers in network byte order, as `int.to_bytes`, `int.from_bytes` and `struct` have them.
use netscope_x.Prelude.{
  ℕ, zero, suc, ◌+◌, ◌*◌, ◌/◌, ◌%◌, ◌^◌, ◌<◌, List, [], ◌∷◌, ◌++◌, ltb, lt→ltb, if◌then◌else◌,
  length, length-append, take, drop, take-append, drop-append, Result, ok, raise, Error, ◌≡◌, refl,
  ◌∙◌, arith,
}

abbrev pub Bytes : Type 0
Bytes = List ℕ

-- the last `n` digits of `v` to the base 256, the highest first
unfoldable pub digits : ℕ → ℕ → Bytes
digits zero v = []
digits (suc n) v = digits n (v / 256) ++ v % 256 ∷ []

-- `int.from_bytes(b, "big")`
unfoldable pub from_bytes : ℕ → Bytes → ℕ
from_bytes acc [] = acc
from_bytes acc (b ∷ bs) = from_bytes (acc * 256 + b) bs

-- the value of `n` bytes
abbrev pub uint : Bytes → ℕ
uint = from_bytes 0

-- `v.to_bytes(n, "big")`, and a field of `struct.pack`, raise where the value does not fit
unfoldable pub to_bytes : Error → ℕ → ℕ → Result Bytes
to_bytes error n v = if ltb v (256 ^ n) then ok (digits n v) else raise error

pub length-digits : (n v : ℕ) → length (digits n v) ≡ n
unfolding digits
length-digits zero v = refl
length-digits (suc n) v =
    length-append (digits n (v / 256)) (v % 256 ∷ []) ∙ omega (arith, length-digits n (v / 256))

from_bytes-append :
    (acc : ℕ) (bs : Bytes) (b : ℕ) → from_bytes acc (bs ++ b ∷ []) ≡ from_bytes acc bs * 256 + b
unfolding from_bytes
from_bytes-append acc [] b = refl
from_bytes-append acc (c ∷ bs) b = from_bytes-append (acc * 256 + c) bs b

high_digits : (n v : ℕ) → v < 256 ^ suc n → v / 256 < 256 ^ n
high_digits n v h = omega (arith, towards n)
  where
    towards : (n : ℕ) → 256 ^ suc n ≡ 256 * 256 ^ n
    towards n = omega arith

pub uint-digits : (n v : ℕ) → v < 256 ^ n → uint (digits n v) ≡ v
unfolding digits from_bytes
uint-digits zero v h = omega arith
uint-digits (suc n) v h =
    from_bytes-append 0 (digits n (v / 256)) (v % 256)
    ∙ omega (arith, uint-digits n (v / 256) (high_digits n v h))

pub to_bytes-fits : (error : Error) (n v : ℕ) → v < 256 ^ n → to_bytes error n v ≡ ok (digits n v)
unfolding to_bytes
to_bytes-fits error n v h = rw (lt→ltb v (256 ^ n) h)

-- what stands before, and what stands behind, a field of known length
pub take-field : (n : ℕ) (xs ys : Bytes) → length xs ≡ n → take n (xs ++ ys) ≡ xs
take-field n xs ys h = rw (← h) (take-append xs ys)

pub drop-field : (n : ℕ) (xs ys : Bytes) → length xs ≡ n → drop n (xs ++ ys) ≡ ys
drop-field n xs ys h = rw (← h) (drop-append xs ys)
