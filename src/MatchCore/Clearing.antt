-- ===== src/MatchCore/Clearing.antt =====
-- crates/openmatch-matchcore/src/clearing.rs: the uniform clearing price of a book.
pub mod Prices
use openmatch.Base.{List, [], ◌∷◌, Option, none, some, Bool, true, false, not, if◌then◌else◌, map}
use openmatch.Decimal.{Decimal, lt, le, is_zero, min}
use openmatch.MatchCore.PriceLevel.{total_quantity}
use openmatch.MatchCore.OrderBook.{OrderBook, Levels, best_bid, best_ask}

pub record ClearingResult (D : Type 0) : Type 0 where
  pub clearing_price : Option D
  pub matchable_volume : D
  pub best_bid : Option D
  pub best_ask : Option D

-- The variables of the two loops: `last_ask` is the price at `ask_idx - 1`.
pub record Walked (D : Type 0) : Type 0 where
  pub cum_demand : D
  pub cum_supply : D
  pub matchable : D
  pub last_ask : Option D

module _ {D : Type 0} ⦃d : Decimal D⦄ where
  -- `level.price` and `level.total_quantity()` of each level
  abbrev pub quantities : Levels D → List (D × D)
  quantities [] = []
  quantities ((p, l) ∷ m) = (l.price, total_quantity l) ∷ quantities m

  -- The first loop; it returns the bids from `bid_idx` on.
  unfoldable pub walk_both : List (D × D) → List (D × D) → Walked D → List (D × D) × Walked D
  walk_both [] asks w = ([], w)
  walk_both (b ∷ bids) [] w = (b ∷ bids, w)
  walk_both ((p, n) ∷ bids) ((q, k) ∷ asks) w =
      let demand = d.add w.cum_demand n in
      let supply = d.add w.cum_supply k in
      let later = walk_both bids asks (record {
        cum_demand = demand;
        cum_supply = supply;
        matchable = min demand supply;
        last_ask = some q;
      }) in
      if lt p q then ((p, n) ∷ bids, w) else later

  -- The second loop, with the price of the last ask level that the first took.
  unfoldable pub walk_bids : D → List (D × D) → Walked D → Walked D
  walk_bids ask [] w = w
  walk_bids ask ((p, n) ∷ bids) w =
      let demand = d.add w.cum_demand n in
      let later =
        walk_bids ask bids
          (record w { cum_demand = demand; matchable = min demand w.cum_supply }) in
      if lt p ask then w else later

  -- The second loop runs where the first took a level (`ask_idx > 0`).
  abbrev pub walk_on : Option D → List (D × D) → Walked D → Walked D
  walk_on none rest w = w
  walk_on (some ask) rest w = walk_bids ask rest w

  abbrev pub start_walk : Walked D
  start_walk = record {
    cum_demand = d.zero;
    cum_supply = d.zero;
    matchable = d.zero;
    last_ask = none;
  }

  unfoldable pub walk : List (D × D) → List (D × D) → Walked D
  walk bids asks = let (rest, w) = walk_both bids asks start_walk in walk_on w.last_ask rest w

  -- The result where there is no price.
  abbrev pub no_clearing : OrderBook D → ClearingResult D
  no_clearing b = record {
    clearing_price = none;
    matchable_volume = d.zero;
    best_bid = best_bid b;
    best_ask = best_ask b;
  }

  -- The result at half of the sum. Nothing where the sum, `b + a`, has panicked.
  abbrev pub clear_at : Option D → D → OrderBook D → Option (ClearingResult D)
  clear_at none volume b = none
  clear_at (some sum) volume b = some (record {
    clearing_price = some (d.div sum d.two);
    matchable_volume = volume;
    best_bid = best_bid b;
    best_ask = best_ask b;
  })

  -- From a best bid and a best ask that cross.
  unfoldable pub clear_crossed : D → D → OrderBook D → Option (ClearingResult D)
  clear_crossed bid ask b =
      let w = walk (quantities b.bids) (quantities b.asks) in
      if is_zero w.matchable
      then some (no_clearing b)
      else clear_at (d.checked_add bid ask) w.matchable b

  abbrev pub clear_between : Option D → Option D → OrderBook D → Option (ClearingResult D)
  clear_between none ask b = some (no_clearing b)
  clear_between (some bid) none b = some (no_clearing b)
  clear_between (some bid) (some ask) b =
      if le ask bid then clear_crossed bid ask b else some (no_clearing b)

  unfoldable pub compute_clearing_price : OrderBook D → Option (ClearingResult D)
  compute_clearing_price b = clear_between (best_bid b) (best_ask b) b
