-- ===== src/MatchCore/Clearing/Prices.antt =====
-- The prices and the volume of crates/openmatch-matchcore/src/clearing.rs.
use openmatch.Base.{
  ◌+ℤ◌, Returns, ◌≡◌, refl, List, [], ◌∷◌, Option, none, some, true, false, All, Bool-cases, inl,
  inr, pos, ◌≤ℤ◌, ◌<ℤ◌, arith,
}
use openmatch.Decimal.{Decimal, lt, le, is_zero, min, zero_parts, add_parts}
use openmatch.MatchCore.PriceLevel.{PriceLevel, total_quantity}
use openmatch.MatchCore.OrderBook.{OrderBook, Levels, best_bid, best_ask, best}
use openmatch.MatchCore.Clearing.{
  Walked, quantities, walk_both, walk_bids, walk, walk_on, start_walk, clear_crossed,
  compute_clearing_price,
}

module _ {D : Type 0} ⦃d : Decimal D⦄ where
  -- Positive quantities at every price.
  abbrev AllPositive : List (D × D) → Type 0
  AllPositive levels = All (λ (l : D × D). pos 0 <ℤ d.units l.1) levels

  abbrev IsPositive : Walked D → Type 0
  IsPositive w =
      (pos 0 <ℤ d.units w.cum_demand)
      × (pos 0 <ℤ d.units w.cum_supply)
      × (pos 0 <ℤ d.units w.matchable)

  add_positive : (a b : D) → pos 0 ≤ℤ d.units a → pos 0 <ℤ d.units b → pos 0 <ℤ d.units (d.add a b)
  add_positive a b h k = ground (arith, add_parts a b)

  min_positive : (a b : D) → pos 0 <ℤ d.units a → pos 0 <ℤ d.units b → pos 0 <ℤ d.units (min a b)
  min_positive a b h k = ground arith

  walk_both-IsPositive :
      (bids asks : List (D × D)) (w : Walked D)
      → AllPositive bids
      → AllPositive asks
      → IsPositive w
      → AllPositive (walk_both bids asks w).0 × IsPositive (walk_both bids asks w).1
  unfolding walk_both
  walk_both-IsPositive [] asks w hb ha h = (tt, h)
  walk_both-IsPositive (b ∷ bids) [] w hb ha h = (hb, h)
  walk_both-IsPositive ((p, n) ∷ bids) ((q, k) ∷ asks) w (n_pos, hb) (k_pos, ha) (x, y, z) =
      elim (Bool-cases (lt p q)) [
        | inl apart ↦ rw apart ((n_pos, hb), (x, y, z))
        | inr crossed ↦ rw crossed (
            let demand = add_positive w.cum_demand n (omega arith) n_pos in
            let supply = add_positive w.cum_supply k (omega arith) k_pos in
            walk_both-IsPositive bids asks _ hb ha (
              demand,
              supply,
              min_positive (d.add w.cum_demand n) (d.add w.cum_supply k) demand supply,
            ))
      ]

  walk_bids-IsPositive :
      (ask : D) (bids : List (D × D)) (w : Walked D)
      → AllPositive bids
      → IsPositive w
      → IsPositive (walk_bids ask bids w)
  unfolding walk_bids
  walk_bids-IsPositive ask [] w hb h = h
  walk_bids-IsPositive ask ((p, n) ∷ bids) w (n_pos, hb) (x, y, z) = elim (Bool-cases (lt p ask)) [
    | inl apart ↦ rw apart (x, y, z)
    | inr crossed ↦ rw crossed (
        let demand = add_positive w.cum_demand n (omega arith) n_pos in
        walk_bids-IsPositive ask bids _ hb
          (demand, y, min_positive (d.add w.cum_demand n) w.cum_supply demand y))
  ]

  walk_on-positive :
      (last_ask : Option D) (rest : List (D × D)) (w : Walked D)
      → AllPositive rest
      → IsPositive w
      → pos 0 <ℤ d.units (walk_on last_ask rest w).matchable
  walk_on-positive none rest w hb h = h.2
  walk_on-positive (some ask) rest w hb h = (walk_bids-IsPositive ask rest w hb h).2

  -- The state after the first levels, which cross.
  abbrev first_walk : D → D → D → Walked D
  first_walk n k q = record {
    cum_demand = d.add d.zero n;
    cum_supply = d.add d.zero k;
    matchable = min (d.add d.zero n) (d.add d.zero k);
    last_ask = some q;
  }

  walk_both_first :
      (p n q k : D) (bids asks : List (D × D))
      → lt p q ≡ false
      → walk_both ((p, n) ∷ bids) ((q, k) ∷ asks) start_walk
        ≡ walk_both bids asks (first_walk n k q)
  unfolding walk_both
  walk_both_first p n q k bids asks h = rw h refl

  walk-positive :
      (p n q k : D) (bids asks : List (D × D))
      → AllPositive ((p, n) ∷ bids)
      → AllPositive ((q, k) ∷ asks)
      → lt p q ≡ false
      → pos 0 <ℤ d.units (walk ((p, n) ∷ bids) ((q, k) ∷ asks)).matchable
  unfolding walk
  walk-positive p n q k bids asks (n_pos, hb) (k_pos, ha) crossed =
      let demand : pos 0 <ℤ d.units (d.add d.zero n) =
        add_positive d.zero n (ground (arith, zero_parts D)) n_pos in
      let supply : pos 0 <ℤ d.units (d.add d.zero k) =
        add_positive d.zero k (ground (arith, zero_parts D)) k_pos in
      let (rest_pos, w_pos) =
        walk_both-IsPositive bids asks (first_walk n k q) hb ha
          (demand, supply, min_positive (d.add d.zero n) (d.add d.zero k) demand supply) in
      rw (walk_both_first p n q k bids asks crossed) (walk_on-positive _ _ _ rest_pos w_pos)

  -- Every level stands under its own price and has a positive total quantity.
  abbrev pub HasVolume : Levels D → Type 0
  HasVolume [] = Unit
  HasVolume ((p, l) ∷ m) =
      ((d.units l.price ≡ d.units p) × (pos 0 <ℤ d.units (total_quantity l))) × HasVolume m

  quantities-positive : (m : Levels D) → HasVolume m → AllPositive (quantities m)
  quantities-positive [] h = tt
  quantities-positive ((p, l) ∷ m) (here, later) = (here.1, quantities-positive m later)

  best_of :
      (p : D) (l : PriceLevel D) (m : Levels D) (q : D)
      → best ((p, l) ∷ m) ≡ some q
      → d.units p ≡ d.units q
  best_of p l m q h = ground arith

  crossed_volume :
      (bids asks : Levels D) (bid ask : D)
      → best bids ≡ some bid
      → best asks ≡ some ask
      → le ask bid ≡ true
      → HasVolume bids
      → HasVolume asks
      → pos 0 <ℤ d.units (walk (quantities bids) (quantities asks)).matchable
  crossed_volume [] asks bid ask is_bid is_ask cross hb ha = absurd (ground arith)
  crossed_volume (b ∷ bids) [] bid ask is_bid is_ask cross hb ha = absurd (ground arith)
  crossed_volume ((p, l) ∷ bids) ((q, k) ∷ asks) bid ask is_bid is_ask cross hb ha =
      walk-positive l.price (total_quantity l) k.price (total_quantity k) (quantities bids)
        (quantities asks) (quantities-positive ((p, l) ∷ bids) hb)
        (quantities-positive ((q, k) ∷ asks) ha)
        (rw (hb.0.0, ha.0.0, best_of p l bids bid is_bid, best_of q k asks ask is_ask)
          (ground arith))

  pub zero_volume :
      (b : OrderBook D) (bid ask : D)
      → best_bid b ≡ some bid
      → best_ask b ≡ some ask
      → le ask bid ≡ true
      → HasVolume b.bids
      → HasVolume b.asks
      → is_zero (walk (quantities b.bids) (quantities b.asks)).matchable ≡ false
  zero_volume b bid ask is_bid is_ask cross hb ha =
      ground (arith, crossed_volume b.bids b.asks bid ask is_bid is_ask cross hb ha)

  -- A book whose best bid is at least its best ask, and whose levels each stand under their own price
  -- with a positive quantity, clears at half the sum of the two, if the sum is within the range of
  -- decimals.
  pub clearing_price_exists :
      (b : OrderBook D) (bid ask : D)
      → best_bid b ≡ some bid
      → best_ask b ≡ some ask
      → le ask bid ≡ true
      → HasVolume b.bids
      → HasVolume b.asks
      → d.units bid +ℤ d.units ask ≤ℤ d.units d.max
      → pos 0 ≤ℤ d.units d.max +ℤ (d.units bid +ℤ d.units ask)
      → Returns
          (λ r. r.clearing_price ≡ some (d.div (d.add bid ask) d.two))
          (compute_clearing_price b)
  unfolding compute_clearing_price clear_crossed
  clearing_price_exists b bid ask is_bid is_ask cross hb ha low high =
      rw
        (
          is_bid,
          is_ask,
          cross,
          zero_volume b bid ask is_bid is_ask cross hb ha,
          d.checked_add-fits bid ask low high,
        )
        refl
