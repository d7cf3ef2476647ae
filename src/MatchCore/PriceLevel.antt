-- ===== src/MatchCore/PriceLevel.antt =====
-- crates/openmatch-matchcore/src/price_level.rs: the orders at one price, oldest first.
use openmatch.Base.{
  ℕ, List, [], ◌∷◌, ◌++◌, Option, none, some, Bool, true, false, ◌==◌, length, if◌then◌else◌,
}
use openmatch.Decimal.{Decimal}
use openmatch.Types.{Order, OrderId}

pub record PriceLevel (D : Type 0) : Type 0 where
  pub price : D
  pub orders : List (Order D)

module _ {D : Type 0} where
  abbrev pub new_level : D → PriceLevel D
  new_level p = record { price = p; orders = [] }

  abbrev pub push_back : Order D → PriceLevel D → PriceLevel D
  push_back o l = record l { orders = l.orders ++ o ∷ [] }

  unfoldable pub pop_front : PriceLevel D → Option (Order D) × PriceLevel D
  pop_front l = elim l.orders [ [] ↦ (none, l) | o ∷ os ↦ (some o, record l { orders = os }) ]

  unfoldable pub front : PriceLevel D → Option (Order D)
  front l = elim l.orders [ [] ↦ none | o ∷ os ↦ some o ]

  -- `position`, then `remove`: the first order of that id, and the others
  unfoldable pub take_order : OrderId → List (Order D) → Option (Order D × List (Order D))
  take_order i [] = none
  take_order i (o ∷ os) =
      let later = take_order i os in
      if o.id == i
      then some (o, os)
      else elim later [ none ↦ none | some (found, rest) ↦ some (found, o ∷ rest) ]

  unfoldable pub remove_order : OrderId → PriceLevel D → Option (Order D) × PriceLevel D
  remove_order i l = elim (take_order i l.orders) [
    | none ↦ (none, l)
    | some (o, rest) ↦ (some o, record l { orders = rest })
  ]

  abbrev pub is_empty : PriceLevel D → Bool
  is_empty l = elim l.orders [ [] ↦ true | o ∷ os ↦ false ]

  abbrev pub len : PriceLevel D → ℕ
  len l = length l.orders

module _ {D : Type 0} ⦃d : Decimal D⦄ where
  -- `iter().map(|o| o.remaining_qty).sum()`, from `acc`
  abbrev sum_remaining : D → List (Order D) → D
  sum_remaining acc [] = acc
  sum_remaining acc (o ∷ os) = sum_remaining (d.add acc o.remaining_qty) os

  unfoldable pub total_quantity : PriceLevel D → D
  total_quantity l = sum_remaining d.zero l.orders
