-- ===== src/Exchange/Reserve.antt =====
-- The funds that orders may take, and the fills of crates/openmatch-matchcore/src/matcher.rs: a fill
-- takes no more than the two orders then give up.
use openmatch.Base.{
  ℕ, ◌≡◌, refl, List, [], ◌∷◌, ◌++◌, ℤ, pos, ◌+ℤ◌, ◌≤ℤ◌, ◌<ℤ◌, int_laws, parts, ◌=?◌, true, false,
  nat_eq, string_eq, pair_eq, Bool-cases, inl, inr, arith, All, All-append, All-split, sum_of,
  sum_of-append, sum_of-change, sum_of-nonneg, All-imp,
}
use openmatch.Decimal.{Decimal, sub_parts}
use openmatch.Decimal.Products.{HasExactProducts}
use openmatch.Types.{Order, Trade, MarketPair, effective_price, taker_is_buyer}
use openmatch.Map.{contains_key}
use openmatch.Accounts.{Key, Accounts}
use openmatch.Accounts.Frozen.{due, due-nonneg}
use openmatch.Pairing.{fill_qty, reduce}
use openmatch.Pairing.Steps.{Standing, Reaches, stop, fill}
use openmatch.Pairing.Volume.{min_covered}
use openmatch.MatchCore.Matcher.{Auction, trade_of}
use openmatch.Settlement.Tier1.Funded.{owed, IsSound}

module _ {D : Type 0} ⦃d : Decimal D⦄ where
  -- What a buy may take from the account `j` at its limit, and a sell.
  abbrev pub bid_reserve : Key → Order D → ℤ
  bid_reserve j o = due j (o.user_id, o.market.quote) (d.mul (effective_price o) o.remaining_qty)

  abbrev pub ask_reserve : Key → Order D → ℤ
  ask_reserve j o = due j (o.user_id, o.market.base) o.remaining_qty

  -- A crossing order of the market, whose account exists.
  pub record IsBid (price : D) (market : MarketPair) (m : Accounts D) (o : Order D) : Type 0 where
    pub of_market : o.market ≡ market
    pub left_nonneg : pos 0 ≤ℤ d.units o.remaining_qty
    pub within : d.units price ≤ℤ d.units (effective_price o)
    pub price_nonneg : pos 0 ≤ℤ d.units (effective_price o)
    pub account : contains_key (o.user_id, o.market.quote) m ≡ true

  pub record IsAsk (price : D) (market : MarketPair) (m : Accounts D) (o : Order D) : Type 0 where
    pub of_market : o.market ≡ market
    pub left_nonneg : pos 0 ≤ℤ d.units o.remaining_qty
    pub within : d.units (effective_price o) ≤ℤ d.units price
    pub price_nonneg : pos 0 ≤ℤ d.units (effective_price o)
    pub account : contains_key (o.user_id, o.market.base) m ≡ true

  due_split :
      (j k : Key) (a b c : D)
      → d.units a +ℤ d.units b ≤ℤ d.units c
      → due j k a +ℤ due j k b ≤ℤ due j k c
  due_split j k a b c h = elim (Bool-cases (k =? j)) [
    | inl same ↦ rw same h
    | inr other ↦ rw other (omega int_laws)
  ]

  -- What is reserved and what is traded, together.
  abbrev pub held : Key → Standing D → ℤ
  held j s =
      sum_of (bid_reserve j) s.bids +ℤ sum_of (ask_reserve j) s.asks +ℤ sum_of (owed j) s.trades

module _ {D : Type 0} ⦃d : Decimal D⦄ (laws : HasExactProducts D) (a : Auction D)
    (market : MarketPair) (m : Accounts D) (apart : (market.base =? market.quote) ≡ false) where
  abbrev pub Fits : Standing D → Type 0
  Fits s =
      All (IsBid a.price market m) s.bids
      × All (IsAsk a.price market m) s.asks
      × All (IsSound m) s.trades

  -- One fill.
  record Filling (bid ask : Order D) : Type 0 where
    bid_ok : IsBid a.price market m bid
    ask_ok : IsAsk a.price market m ask
    positive : pos 0 <ℤ d.units (fill_qty bid ask)
    bid_left : pos 0 ≤ℤ d.units (d.sub bid.remaining_qty (fill_qty bid ask))
    ask_left : pos 0 ≤ℤ d.units (d.sub ask.remaining_qty (fill_qty bid ask))

  bid_gives :
      (j : Key) (bid ask : Order D)
      → Filling bid ask
      → bid_reserve j (reduce (fill_qty bid ask) bid)
          +ℤ due j (bid.user_id, bid.market.quote) (d.mul a.price (fill_qty bid ask))
        ≤ℤ bid_reserve j bid
  unfolding effective_price
  bid_gives j bid ask f =
      let q = fill_qty bid ask in
      let l = effective_price bid in
      let low : pos 0 ≤ℤ d.units a.price = omega (arith, f.ask_ok.within, f.ask_ok.price_nonneg) in
      due_split j (bid.user_id, bid.market.quote) (d.mul l (d.sub bid.remaining_qty q))
        (d.mul a.price q) (d.mul l bid.remaining_qty)
        (omega (
          int_laws,
          laws.mul_mono a.price l q low f.bid_ok.within (omega (arith, f.positive)),
          parts (
              laws.mul-sub l bid.remaining_qty q f.bid_ok.price_nonneg (omega (arith, f.positive))
                (omega (arith, f.bid_left, sub_parts bid.remaining_qty q))),
        ))

  ask_gives :
      (j : Key) (bid ask : Order D)
      → Filling bid ask
      → ask_reserve j (reduce (fill_qty bid ask) ask)
          +ℤ due j (ask.user_id, ask.market.base) (fill_qty bid ask)
        ≤ℤ ask_reserve j ask
  ask_gives j bid ask f =
      let q = fill_qty bid ask in
      due_split j (ask.user_id, ask.market.base) (d.sub ask.remaining_qty q) q ask.remaining_qty
        (omega (int_laws, sub_parts ask.remaining_qty q))

  trade_of-IsSound :
      (n : ℕ) (bid ask : Order D) → Filling bid ask → IsSound m (trade_of a n bid ask)
  unfolding taker_is_buyer
  trade_of-IsSound n bid ask f = record {
    quantity_nonneg = omega (arith, f.positive);
    quote_nonneg =
        laws.mul-nonneg a.price (fill_qty bid ask)
          (omega (arith, f.ask_ok.within, f.ask_ok.price_nonneg)) (omega (arith, f.positive));
    two_assets = rw (f.bid_ok.of_market) apart;
    seller_account = rw (f.bid_ok.of_market) (rw (f.ask_ok.of_market) at (f.ask_ok.account));
    buyer_account = f.bid_ok.account;
  }

  reduce-IsBid :
      (bid ask : Order D) → Filling bid ask → IsBid a.price market m (reduce (fill_qty bid ask) bid)
  unfolding effective_price
  reduce-IsBid bid ask f = record {
    of_market = f.bid_ok.of_market;
    left_nonneg = f.bid_left;
    within = f.bid_ok.within;
    price_nonneg = f.bid_ok.price_nonneg;
    account = f.bid_ok.account;
  }

  reduce-IsAsk :
      (bid ask : Order D) → Filling bid ask → IsAsk a.price market m (reduce (fill_qty bid ask) ask)
  unfolding effective_price
  reduce-IsAsk bid ask f = record {
    of_market = f.ask_ok.of_market;
    left_nonneg = f.ask_left;
    within = f.ask_ok.within;
    price_nonneg = f.ask_ok.price_nonneg;
    account = f.ask_ok.account;
  }

  -- The two orders give up what the trade takes.
  owed_given :
      (j : Key) (n : ℕ) (bid ask : Order D)
      → Filling bid ask
      → owed j (trade_of a n bid ask)
        ≡ due j (ask.user_id, ask.market.base) (fill_qty bid ask)
          +ℤ due j (bid.user_id, bid.market.quote) (d.mul a.price (fill_qty bid ask))
  unfolding taker_is_buyer
  owed_given j n bid ask f = rw (f.bid_ok.of_market, f.ask_ok.of_market) refl

  held_fill :
      (j : Key) (n : ℕ) (before after pre post : List (Order D)) (bid ask : Order D)
      (ts : List (Trade D))
      → Filling bid ask
      → let q = fill_qty bid ask in
        sum_of (bid_reserve j) (before ++ reduce q bid ∷ after)
          +ℤ sum_of (ask_reserve j) (pre ++ reduce q ask ∷ post)
          +ℤ sum_of (owed j) (ts ++ trade_of a n bid ask ∷ [])
        ≤ℤ sum_of (bid_reserve j) (before ++ bid ∷ after)
          +ℤ sum_of (ask_reserve j) (pre ++ ask ∷ post)
          +ℤ sum_of (owed j) ts
  held_fill j n before after pre post bid ask ts f =
      let q = fill_qty bid ask in
      omega (
        int_laws,
        sum_of-change (bid_reserve j) before after bid (reduce q bid)
            (due j (bid.user_id, bid.market.quote) (d.mul a.price q)) (bid_gives j bid ask f),
        sum_of-change (ask_reserve j) pre post ask (reduce q ask)
            (due j (ask.user_id, ask.market.base) q) (ask_gives j bid ask f),
        parts (sum_of-append (owed j) ts (trade_of a n bid ask ∷ [])),
        parts (owed_given j n bid ask f),
      )

  -- What is reserved is not negative.
  pub held_covers : (j : Key) (s : Standing D) → Fits s → sum_of (owed j) s.trades ≤ℤ held j s
  held_covers j s (hb, ha, ht) = omega (
    int_laws,
    sum_of-nonneg (bid_reserve j) s.bids (
        All-imp
          (λ (o : Order D) k.
            due-nonneg j (o.user_id, o.market.quote) (d.mul (effective_price o) o.remaining_qty)
              (laws.mul-nonneg (effective_price o) o.remaining_qty k.price_nonneg k.left_nonneg))
          s.bids hb),
    sum_of-nonneg (ask_reserve j) s.asks (
        All-imp
          (λ (o : Order D) k. due-nonneg j (o.user_id, o.market.base) o.remaining_qty k.left_nonneg)
          s.asks ha),
  )

  -- The orders that the fills leave still fit, and what is reserved and traded has not grown.
  pub Reaches-held :
      {may : Order D → Order D → Type 0} (j : Key) {s t : Standing D}
      → Reaches (trade_of a) may s t
      → Fits s
      → Fits t × (held j t ≤ℤ held j s)
  Reaches-held j (stop s) h = (h, omega arith)
  Reaches-held j (fill before bid after pre ask post ts n t allowed live left k) (hb, ha, ht) =
      let (b1, (b, b2)) = All-split (IsBid a.price market m) before (bid ∷ after) hb in
      let (a1, (o, a2)) = All-split (IsAsk a.price market m) pre (ask ∷ post) ha in
      let (some_qty, bid_left, ask_left) =
        min_covered bid.remaining_qty ask.remaining_qty live left o.left_nonneg in
      let q = fill_qty bid ask in
      let f : Filling bid ask = record {
        bid_ok = b;
        ask_ok = o;
        positive = some_qty;
        bid_left = bid_left;
        ask_left = ask_left;
      } in
      let (fits, less) = Reaches-held j k (
        All-append (IsBid a.price market m) before (reduce q bid ∷ after) b1
            (reduce-IsBid bid ask f, b2),
        All-append (IsAsk a.price market m) pre (reduce q ask ∷ post) a1
            (reduce-IsAsk bid ask f, a2),
        All-append (IsSound m) ts (trade_of a n bid ask ∷ []) ht (trade_of-IsSound n bid ask f, tt),
      ) in
      (fits, omega (arith, less, held_fill j n before after pre post bid ask ts f))
