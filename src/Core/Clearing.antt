-- ===== src/Core/Clearing.antt =====
-- crates/openmatch-core/src/clearing.rs: the uniform price of a batch of buy and sell orders. A
-- `BTreeSet` of prices is an ascending list; two decimals of one value are one entry.
pub mod Search
pub mod Sums
pub mod Optimal
use openmatch.Base.{List, [], ◌∷◌, ◌++◌, Option, none, some, Bool, true, false, if◌then◌else◌}
use openmatch.Decimal.{Decimal, lt, le, eq, is_zero, min}
use openmatch.Types.{Order, effective_price}

pub record ClearingResult (D : Type 0) : Type 0 where
  pub price : D
  pub volume : D
  pub demand : D
  pub supply : D

module _ {D : Type 0} ⦃d : Decimal D⦄ where
  -- `BTreeSet::insert`
  abbrev pub insert_price : D → List D → List D
  insert_price p [] = p ∷ []
  insert_price p (q ∷ qs) =
      let rest = insert_price p qs in
      if lt p q then p ∷ q ∷ qs else if eq p q then q ∷ qs else q ∷ rest

  -- the effective prices of orders, without `Decimal::MAX`
  unfoldable pub price_set : List (Order D) → List D → List D
  price_set [] prices = prices
  price_set (o ∷ os) prices =
      price_set os
        (if eq (effective_price o) d.max then prices else insert_price (effective_price o) prices)

  -- `iter().filter(counts).map(|o| o.remaining_qty).sum()`, from `acc`
  unfoldable pub sum_where : (Order D → Bool) → D → List (Order D) → D
  sum_where counts acc [] = acc
  sum_where counts acc (o ∷ os) =
      sum_where counts (if counts o then d.add acc o.remaining_qty else acc) os

  abbrev demand_at : List (Order D) → D → D
  demand_at buys p = sum_where (λ b. le p (effective_price b)) d.zero buys

  abbrev supply_at : List (Order D) → D → D
  supply_at sells p = sum_where (λ s. le (effective_price s) p) d.zero sells

  -- the candidate at a price
  abbrev pub candidate : List (Order D) → List (Order D) → D → ClearingResult D
  candidate buys sells p = record {
    price = p;
    volume = min (demand_at buys p) (supply_at sells p);
    demand = demand_at buys p;
    supply = supply_at sells p;
  }

  abbrev pub imbalance : ClearingResult D → D
  imbalance c = d.abs (d.sub c.demand c.supply)

  -- `is_better`, against a best so far
  unfoldable pub is_better : ClearingResult D → ClearingResult D → Bool
  is_better new current =
      if lt current.volume new.volume
      then true
      else if eq new.volume current.volume
      then if lt (imbalance new) (imbalance current)
        then true
        else if eq (imbalance new) (imbalance current)
        then lt current.price new.price
        else false
      else false

  abbrev pub better_of : ClearingResult D → Option (ClearingResult D) → Option (ClearingResult D)
  better_of new none = some new
  better_of new (some current) = if is_better new current then some new else some current

  -- The loop over the prices.
  unfoldable pub search :
      List (Order D)
      → List (Order D)
      → List D
      → Option (ClearingResult D)
      → Option (ClearingResult D)
  search buys sells [] best = best
  search buys sells (p ∷ ps) best =
      let new = candidate buys sells p in
      search buys sells ps (if is_zero new.volume then best else better_of new best)

  -- The early returns for empty lists and for no prices agree with a search among no prices.
  unfoldable pub compute_clearing_price :
      List (Order D) → List (Order D) → Option (ClearingResult D)
  compute_clearing_price [] sells = none
  compute_clearing_price (b ∷ buys) [] = none
  compute_clearing_price (b ∷ buys) (s ∷ sells) =
      search (b ∷ buys) (s ∷ sells) (price_set ((b ∷ buys) ++ (s ∷ sells)) []) none
