-- ===== src/Decimal/Whole.antt =====
-- Whole numbers as decimals: the interface has an instance, on which the tests run.
use openmatch.Base.{
  ℕ, zero, suc, ◌+◌, ◌*◌, ◌/◌, ◌%◌, ◌≡◌, refl, some, List, [], ◌∷◌, ◌++◌, ℤ, pos, negsuc, pos_part,
  neg_part, ◌+ℤ◌, ◌-ℤ◌, ◌≤ℤ◌, +ℤ_parts, arith, ltb, if◌then◌else◌, Bool, Option, none, not, ◌&&◌,
  ltb_ℤ,
}
use openmatch.Decimal.{Decimal}

abbrev negate : ℕ → ℤ
negate zero = pos 0
negate (suc n) = negsuc n

-- rounded towards zero
abbrev div_ℤ : ℤ → ℤ → ℤ
div_ℤ (pos n) (pos m) = pos (n / m)
div_ℤ (pos n) (negsuc m) = negate (n / suc m)
div_ℤ (negsuc n) (pos m) = negate (suc n / m)
div_ℤ (negsuc n) (negsuc m) = pos (suc n / suc m)

abbrev pub mul_ℤ : ℤ → ℤ → ℤ
mul_ℤ (pos n) (pos m) = pos (n * m)
mul_ℤ (pos n) (negsuc m) = negate (n * suc m)
mul_ℤ (negsuc n) (pos m) = negate (suc n * m)
mul_ℤ (negsuc n) (negsuc m) = pos (suc n * suc m)

abbrev abs_ℤ : ℤ → ℤ
abs_ℤ a = pos (pos_part a + neg_part a)

-- the last digits of `n`, at most as many as the fuel
abbrev pub digits : ℕ → ℕ → List ℕ
digits zero n = []
digits (suc fuel) n =
    let rest = digits fuel (n / 10) in
    if ltb n 10 then (48 + n) ∷ [] else rest ++ (48 + n % 10) ∷ []

abbrev text_of : ℤ → List ℕ
text_of (pos n) = digits 30 n
text_of (negsuc n) = 45 ∷ digits 30 (suc n)

-- `Decimal::MAX`
abbrev greatest : ℤ
greatest = pos 79_228_162_514_264_337_593_543_950_335

abbrev in_range : ℤ → Bool
in_range c = not (ltb_ℤ greatest c) && not (ltb_ℤ (greatest +ℤ c) (pos 0))

abbrev checked : ℤ → Option ℤ
checked c = if in_range c then some c else none

pub checked-fits :
    (a b : ℤ)
    → a +ℤ b ≤ℤ greatest
    → pos 0 ≤ℤ greatest +ℤ (a +ℤ b)
    → checked (a +ℤ b) ≡ some (a +ℤ b)
checked-fits a b h k = ground arith

pub checked-none : (a b : ℤ) → greatest +ℤ pos 1 ≤ℤ a +ℤ b → checked (a +ℤ b) ≡ none
checked-none a b h = ground (arith, +ℤ_parts greatest (pos 1))

pub ones : (n : ℕ) → pos n ≡ pos (n * 1)
ones n = ground arith

instance abbrev pub whole_decimal : Decimal ℤ
whole_decimal = record {
  units = λ a. a;
  zero = pos 0;
  two = pos 2;
  max = greatest;
  whole = pos;
  add = λ a b. a +ℤ b;
  sub = λ a b. a -ℤ b;
  mul = mul_ℤ;
  div = div_ℤ;
  checked_add = λ a b. checked (a +ℤ b);
  checked_mul = λ a b. some (mul_ℤ a b);
  saturating_mul = mul_ℤ;
  abs = abs_ℤ;
  to_bytes = text_of;
  one_units = 1;
  units-zero = refl;
  units-whole = ones;
  units-add = λ a b. refl;
  units-sub = λ a b. refl;
  units-abs = λ a. refl;
  checked_add-fits = checked-fits;
  checked_add-none = checked-none;
}
