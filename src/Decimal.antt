-- ===== src/Decimal.antt =====
-- `rust_decimal::Decimal`, an external type: its operations and what the code relies on are an
-- interface. A value stands for an integer count of the smallest unit, and two values compare by
-- that count, whatever their scale. The laws describe operations whose result is exact. Where the
-- code adds two prices, of which one may be the greatest decimal, the sum is a `checked_add`;
-- elsewhere an overflow (a panic) is outside the model.
pub mod Whole
pub mod Products
use openmatch.Base.{
  ℕ, ◌+◌, ◌*◌, ◌≡◌, Bool, List, Option, some, none, ℤ, pos, ◌+ℤ◌, ◌-ℤ◌, ◌≤ℤ◌, ltb_ℤ, eqb_ℤ,
  pos_part, neg_part, +ℤ_parts, -ℤ_parts, eq_of_parts, arith, not, if◌then◌else◌,
}

pub record Decimal (D : Type 0) : Type 0 where
  -- how many smallest units a value stands for
  pub units : D → ℤ
  -- `Decimal::ZERO`, `Decimal::TWO`, `Decimal::MAX`
  pub zero : D
  pub two : D
  pub max : D
  -- `Decimal::new(n, 0)`
  pub whole : ℕ → D
  pub add : D → D → D
  pub sub : D → D → D
  pub mul : D → D → D
  pub div : D → D → D
  -- the sum, or `None` if it overflows, where `+` panics
  pub checked_add : D → D → Option D
  -- the product, or `None` if it overflows
  pub checked_mul : D → D → Option D
  -- the product, or `Decimal::MAX` or its opposite if it overflows
  pub saturating_mul : D → D → D
  pub abs : D → D
  -- `to_string().as_bytes()`
  pub to_bytes : D → List ℕ
  -- the units of the number one
  pub one_units : ℕ
  pub units-zero : units zero ≡ pos 0
  pub units-whole : (n : ℕ) → units (whole n) ≡ pos (n * one_units)
  pub units-add : (a b : D) → units (add a b) ≡ units a +ℤ units b
  pub units-sub : (a b : D) → units (sub a b) ≡ units a -ℤ units b
  pub units-abs : (a : D) → units (abs a) ≡ pos (pos_part (units a) + neg_part (units a))
  -- a sum within the range of decimals is found, and one past the greatest by one or more is not
  pub checked_add-fits :
      (a b : D)
      → units a +ℤ units b ≤ℤ units max
      → pos 0 ≤ℤ units max +ℤ (units a +ℤ units b)
      → checked_add a b ≡ some (add a b)
  pub checked_add-none :
      (a b : D) → units max +ℤ pos one_units ≤ℤ units a +ℤ units b → checked_add a b ≡ none

module _ {D : Type 0} ⦃d : Decimal D⦄ where
  abbrev pub lt : D → D → Bool
  lt a b = ltb_ℤ (d.units a) (d.units b)

  abbrev pub le : D → D → Bool
  le a b = not (lt b a)

  -- `==` of two decimals
  abbrev pub eq : D → D → Bool
  eq a b = eqb_ℤ (d.units a) (d.units b)

  abbrev pub is_zero : D → Bool
  is_zero a = eqb_ℤ (d.units a) (pos 0)

  abbrev pub is_sign_negative : D → Bool
  is_sign_negative a = ltb_ℤ (d.units a) (pos 0)

  -- `Ord::min`
  abbrev pub min : D → D → D
  min a b = if lt b a then b else a

  pub add_parts :
      (a b : D)
      → pos_part (d.units (d.add a b)) + neg_part (d.units a) + neg_part (d.units b)
        ≡ neg_part (d.units (d.add a b)) + pos_part (d.units a) + pos_part (d.units b)
  add_parts a b = ground (arith, d.units-add a b, +ℤ_parts (d.units a) (d.units b))

  pub sub_parts :
      (a b : D)
      → pos_part (d.units (d.sub a b)) + neg_part (d.units a) + pos_part (d.units b)
        ≡ neg_part (d.units (d.sub a b)) + pos_part (d.units a) + neg_part (d.units b)
  sub_parts a b = ground (arith, d.units-sub a b, -ℤ_parts (d.units a) (d.units b))

pub ruleset decimal_laws = (arith, +ℤ_parts, -ℤ_parts, eq_of_parts, add_parts, sub_parts)

pub zero_parts :
    (D : Type 0) ⦃d : Decimal D⦄ → (pos_part (d.units d.zero) ≡ 0) × (neg_part (d.units d.zero) ≡ 0)
zero_parts D ⦃d⦄ = ground (arith, d.units-zero)
