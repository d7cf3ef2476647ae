-- ===== src/Core/PriceLevel.antt =====
-- crates/openmatch-core/src/price_level.rs. Outside of its tests it has the code of the file of
-- crates/openmatch-matchcore, and so each name here is that of `MatchCore.PriceLevel`.
use openmatch.Base.{ℕ, Bool, Option}
use openmatch.Decimal.{Decimal}
use openmatch.Types.{Order, OrderId}
use openmatch.MatchCore.PriceLevel as Level

abbrev pub PriceLevel : Type 0 → Type 0
PriceLevel D = Level.PriceLevel D

module _ {D : Type 0} where
  abbrev pub new_level : D → PriceLevel D
  new_level p = Level.new_level p

  abbrev pub push_back : Order D → PriceLevel D → PriceLevel D
  push_back o l = Level.push_back o l

  abbrev pub pop_front : PriceLevel D → Option (Order D) × PriceLevel D
  pop_front l = Level.pop_front l

  abbrev pub front : PriceLevel D → Option (Order D)
  front l = Level.front l

  abbrev pub remove_order : OrderId → PriceLevel D → Option (Order D) × PriceLevel D
  remove_order i l = Level.remove_order i l

  abbrev pub is_empty : PriceLevel D → Bool
  is_empty l = Level.is_empty l

  abbrev pub len : PriceLevel D → ℕ
  len l = Level.len l

abbrev pub total_quantity : {D : Type 0} ⦃d : Decimal D⦄ → PriceLevel D → D
total_quantity l = Level.total_quantity l
