-- ===== src/MatchCore/OrderBook.antt =====
-- crates/openmatch-matchcore/src/orderbook.rs. A `BTreeMap` of price levels is the list of its
-- entries, kept in the order of its keys: the highest price first for the bids (`Reverse`), the
-- lowest first for the asks.
pub mod Placed
pub mod Best
pub mod Index
pub mod Fresh
pub mod RoundTrip
use openmatch.Base.{
  ℕ, List, [], ◌∷◌, ◌++◌, Option, none, some, Bool, true, false, Eq, nat_eq, Result, ok, err, bind,
  length, ◌==◌, if◌then◌else◌,
}
use openmatch.Decimal.{Decimal, lt}
use openmatch.Map
use openmatch.Map.{Map, lookup, contains_key}
use openmatch.Types.{
  Order, OrderId, OrderSide, MarketPair, effective_price, OpenmatchError, duplicate_order,
  order_not_found,
}
use openmatch.MatchCore.PriceLevel.{PriceLevel, new_level, push_back, remove_order, is_empty}

abbrev pub Levels : Type 0 → Type 0
Levels D = List (D × PriceLevel D)

pub record OrderBook (D : Type 0) : Type 0 where
  pub market : MarketPair
  pub bids : Levels D
  pub asks : Levels D
  pub index : Map OrderId (OrderSide × D)

abbrev pub new_book : {D : Type 0} → MarketPair → OrderBook D
new_book market = record { market = market; bids = []; asks = []; index = [] }

module _ {D : Type 0} (before : D → D → Bool) where
  -- `BTreeMap::get_mut`
  unfoldable pub level_at : D → Levels D → Option (PriceLevel D)
  level_at p [] = none
  level_at p ((q, l) ∷ m) =
      let later = level_at p m in if before q p then later else if before p q then none else some l

  -- A write of the level under a key; an equal key stays.
  unfoldable pub put_level : D → PriceLevel D → Levels D → Levels D
  put_level p l [] = (p, l) ∷ []
  put_level p l ((q, k) ∷ m) =
      let later = put_level p l m in
      if before q p then (q, k) ∷ later else if before p q then (p, l) ∷ (q, k) ∷ m else (q, l) ∷ m

  -- `BTreeMap::remove`
  unfoldable pub drop_level : D → Levels D → Levels D
  drop_level p [] = []
  drop_level p ((q, k) ∷ m) =
      let later = drop_level p m in
      if before q p then (q, k) ∷ later else if before p q then (q, k) ∷ m else m

  -- `entry(p).or_insert_with(|| PriceLevel::new(p)).push_back(o)`
  unfoldable pub push_at : D → Order D → Levels D → Levels D
  push_at p o m = elim (level_at p m) [
    | none ↦ put_level p (push_back o (new_level p)) m
    | some l ↦ put_level p (push_back o l) m
  ]

  -- One side of `cancel_order`: the order of id `i` leaves its level, and an empty level goes.
  unfoldable pub cancel_at : OrderId → D → Levels D → Result (OpenmatchError D) (Order D) × Levels D
  cancel_at i p m = elim (level_at p m) [
    | none ↦ (err (order_not_found i), m)
    | some l ↦
        let (found, rest) = remove_order i l in
        elim found [
          | none ↦ (err (order_not_found i), m)
          | some o ↦ (ok o, if is_empty rest then drop_level p m else put_level p rest m)
        ]
  ]

-- every order of the levels, in the order of the keys
abbrev pub level_orders : {D : Type 0} → Levels D → List (Order D)
level_orders [] = []
level_orders ((p, l) ∷ m) = l.orders ++ level_orders m

-- `values()`
abbrev values : {D : Type 0} → Levels D → List (PriceLevel D)
values [] = []
values ((p, l) ∷ m) = l ∷ values m

-- `values_mut()`, with what its caller does to each level
abbrev change_values : {D : Type 0} → (PriceLevel D → PriceLevel D) → Levels D → Levels D
change_values f [] = []
change_values f ((p, l) ∷ m) = (p, f l) ∷ change_values f m

module _ {D : Type 0} ⦃d : Decimal D⦄ where
  -- the orders of the keys
  abbrev pub bid_before : D → D → Bool
  bid_before p q = lt q p

  abbrev pub ask_before : D → D → Bool
  ask_before p q = lt p q

  -- the write of `insert_order` in its side
  abbrev pub place : OrderSide → Order D → OrderBook D → OrderBook D
  place OrderSide.buy o b = record b { bids = push_at bid_before (effective_price o) o b.bids }
  place OrderSide.sell o b = record b { asks = push_at ask_before (effective_price o) o b.asks }

  unfoldable pub insert_order :
      Order D → OrderBook D → Result (OpenmatchError D) (Unit {0}) × OrderBook D
  insert_order o b = if contains_key o.id b.index then (err (duplicate_order o.id), b) else (
    ok tt,
    place o.side o (record b { index = Map.insert o.id (o.side, effective_price o) b.index }),
  )

  unfoldable pub insert_batch :
      List (Order D) → OrderBook D → Result (OpenmatchError D) (Unit {0}) × OrderBook D
  insert_batch [] b = (ok tt, b)
  insert_batch (o ∷ os) b = bind (insert_order o b) λ u b'. insert_batch os b'

  unfoldable pub cancel_order :
      OrderId → OrderBook D → Result (OpenmatchError D) (Order D) × OrderBook D
  cancel_order i b = elim (lookup i b.index) [
    | none ↦ (err (order_not_found i), b)
    | some (OrderSide.buy, p) ↦
        let (r, m) = cancel_at bid_before i p b.bids in
        (r, record b { bids = m; index = Map.remove i b.index })
    | some (OrderSide.sell, p) ↦
        let (r, m) = cancel_at ask_before i p b.asks in
        (r, record b { asks = m; index = Map.remove i b.index })
  ]

  abbrev pub best : Levels D → Option D
  best [] = none
  best ((p, l) ∷ m) = some p

  abbrev pub best_bid : OrderBook D → Option D
  best_bid b = best b.bids

  abbrev pub best_ask : OrderBook D → Option D
  best_ask b = best b.asks

  unfoldable pub spread : OrderBook D → Option D
  spread b = elim (best_bid b) [
    | none ↦ none
    | some bid ↦ elim (best_ask b) [ none ↦ none | some ask ↦ some (d.sub ask bid) ]
  ]

  -- Nothing where the sum panics.
  unfoldable pub mid_price : OrderBook D → Option (Option D)
  mid_price b = elim (best_bid b) [
    | none ↦ some none
    | some bid ↦ elim (best_ask b) [
      | none ↦ some none
      | some ask ↦ elim (d.checked_add bid ask) [
        | none ↦ none
        | some sum ↦ some (some (d.div sum d.two))
      ]
    ]
  ]

  abbrev pub contains_order : OrderId → OrderBook D → Bool
  contains_order i b = contains_key i b.index

  abbrev pub order_count : OrderBook D → ℕ
  order_count b = length b.index

  abbrev pub bid_depth : OrderBook D → ℕ
  bid_depth b = length b.bids

  abbrev pub ask_depth : OrderBook D → ℕ
  ask_depth b = length b.asks

  -- `is_empty`
  abbrev pub book_is_empty : OrderBook D → Bool
  book_is_empty b = length b.index == 0

  abbrev pub bid_levels : OrderBook D → List (PriceLevel D)
  bid_levels b = values b.bids

  abbrev pub ask_levels : OrderBook D → List (PriceLevel D)
  ask_levels b = values b.asks

  abbrev pub bid_levels_mut : (PriceLevel D → PriceLevel D) → OrderBook D → OrderBook D
  bid_levels_mut f b = record b { bids = change_values f b.bids }

  abbrev pub ask_levels_mut : (PriceLevel D → PriceLevel D) → OrderBook D → OrderBook D
  ask_levels_mut f b = record b { asks = change_values f b.asks }

  unfoldable pub drain_all : OrderBook D → List (Order D) × OrderBook D
  drain_all b =
      (level_orders b.bids ++ level_orders b.asks, record b { bids = []; asks = []; index = [] })
