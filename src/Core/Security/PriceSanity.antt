-- ===== src/Core/Security/PriceSanity.antt =====
-- `PriceSanityChecker` of crates/openmatch-core/src/security.rs: an order's price against the last
-- reference price of its market. A division by zero panics: a check then returns nothing.
use openmatch.Base.{ℕ, Option, none, some, [], Result, ok, err, ◌||◌, if◌then◌else◌}
use openmatch.Decimal.{Decimal, lt, le, eq, is_zero}
use openmatch.Map.{Map, lookup, insert}
use openmatch.Types.{MarketPair, market_eq, OpenmatchError, Reason, suspicious_price}

pub record PriceSanityChecker (D : Type 0) : Type 0 where
  pub reference_prices : Map MarketPair D
  pub max_deviation : D

module _ {D : Type 0} ⦃d : Decimal D⦄ where
  abbrev new_checker : ℕ → PriceSanityChecker D
  new_checker n = record { reference_prices = []; max_deviation = d.whole n }

  unfoldable update_reference : MarketPair → D → PriceSanityChecker D → PriceSanityChecker D
  update_reference market price c =
      if lt d.zero price
      then record c { reference_prices = insert market price c.reference_prices }
      else c

  abbrev pub reference_price : MarketPair → PriceSanityChecker D → Option D
  reference_price market c = lookup market c.reference_prices

  abbrev pub upper_bound : D → PriceSanityChecker D → D
  upper_bound ref_price c = d.saturating_mul ref_price c.max_deviation

  abbrev pub lower_bound : D → PriceSanityChecker D → D
  lower_bound ref_price c = d.div ref_price c.max_deviation

  abbrev out_of_range : D → D → PriceSanityChecker D → OpenmatchError D
  out_of_range price ref_price c = suspicious_price (
      Reason.price_out_of_range price c.max_deviation ref_price (lower_bound ref_price c)
        (upper_bound ref_price c))

  -- `if let Some(&ref_price) = self.reference_prices.get(market) { .. } Ok(())`
  abbrev pub check_deviation :
      D → Option D → PriceSanityChecker D → Option (Result (OpenmatchError D) (Unit {0}))
  check_deviation price none c = some (ok tt)
  check_deviation price (some ref_price) c =
      if is_zero c.max_deviation
      then none
      else if lt (upper_bound ref_price c) price || lt price (lower_bound ref_price c)
      then some (err (out_of_range price ref_price c))
      else some (ok tt)

  unfoldable pub check_price :
      MarketPair → D → PriceSanityChecker D → Option (Result (OpenmatchError D) (Unit {0}))
  check_price market price c =
      if le price d.zero
      then some (err (suspicious_price (Reason.text "Price must be positive")))
      else if eq price d.max
      then some (ok tt)
      else check_deviation price (reference_price market c) c
