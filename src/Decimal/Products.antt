-- ===== src/Decimal/Products.antt =====
-- What the settlement of a batch needs of the products of `rust_decimal`, where they are exact, as the
-- products of prices and quantities are that the program means to make.
use openmatch.Base.{
  ℕ, ◌+◌, ◌*◌, ◌-◌, ◌≤◌, ◌≡◌, ap, ℤ, pos, negsuc, ◌+ℤ◌, ◌-ℤ◌, ◌≤ℤ◌, int_laws, arith,
}
use openmatch.Decimal.{Decimal}
use openmatch.Decimal.Whole.{mul_ℤ, whole_decimal}

pub record HasExactProducts (D : Type 0) ⦃d : Decimal D⦄ : Type 0 where
  pub mul-nonneg :
      (a b : D) → pos 0 ≤ℤ d.units a → pos 0 ≤ℤ d.units b → pos 0 ≤ℤ d.units (d.mul a b)
  pub mul_mono :
      (a b c : D)
      → pos 0 ≤ℤ d.units a
      → d.units a ≤ℤ d.units b
      → pos 0 ≤ℤ d.units c
      → d.units (d.mul a c) ≤ℤ d.units (d.mul b c)
  pub mul-sub :
      (a b c : D)
      → pos 0 ≤ℤ d.units a
      → pos 0 ≤ℤ d.units c
      → d.units c ≤ℤ d.units b
      → d.units (d.mul a (d.sub b c)) +ℤ d.units (d.mul a c) ≡ d.units (d.mul a b)

mul_ℤ-nonneg : (a b : ℤ) → pos 0 ≤ℤ a → pos 0 ≤ℤ b → pos 0 ≤ℤ mul_ℤ a b
mul_ℤ-nonneg (pos n) (pos m) h k = omega arith
mul_ℤ-nonneg (pos n) (negsuc m) h k = absurd (omega arith)
mul_ℤ-nonneg (negsuc n) b h k = absurd (omega arith)

mul_ℤ_mono : (a b c : ℤ) → pos 0 ≤ℤ a → a ≤ℤ b → pos 0 ≤ℤ c → mul_ℤ a c ≤ℤ mul_ℤ b c
mul_ℤ_mono (pos n) (pos m) (pos k) h le p = grind arith
mul_ℤ_mono (pos n) (negsuc m) c h le p = absurd (omega arith)
mul_ℤ_mono (negsuc n) b c h le p = absurd (omega arith)
mul_ℤ_mono a b (negsuc k) h le p = absurd (omega arith)

sub_pos : (b c : ℕ) → c ≤ b → pos b -ℤ pos c ≡ pos (b - c)
unfolding ◌-ℤ◌
sub_pos b c h = ground arith

products : (n b c : ℕ) → c ≤ b → n * (b - c) + n * c ≡ n * b
products n b c h = let e : b ≡ b - c + c = omega arith in omega (arith, ap (λ (x : ℕ). n * x) e)

mul_ℤ-sub :
    (a b c : ℤ) → pos 0 ≤ℤ a → pos 0 ≤ℤ c → c ≤ℤ b → mul_ℤ a (b -ℤ c) +ℤ mul_ℤ a c ≡ mul_ℤ a b
mul_ℤ-sub (pos n) (pos b) (pos c) h k le =
    let split : n * (b - c) + n * c ≡ n * b = products n b c (omega arith) in
    rw (sub_pos b c (omega arith)) (omega int_laws)
mul_ℤ-sub (pos n) (negsuc b) (pos c) h k le = absurd (omega arith)
mul_ℤ-sub (negsuc n) b c h k le = absurd (omega arith)
mul_ℤ-sub a b (negsuc c) h k le = absurd (omega arith)

-- Products of whole numbers are exact.
pub whole_products : HasExactProducts ℤ
whole_products = record { mul-nonneg = mul_ℤ-nonneg; mul_mono = mul_ℤ_mono; mul-sub = mul_ℤ-sub }
