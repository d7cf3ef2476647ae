-- ===== src/MatchCore/Matcher/Limits.antt =====
-- The trades of a sealed batch (crates/openmatch-matchcore/src/matcher.rs): users, price, limits.
use openmatch.Base.{
  Returns, Allows-Returns, ℕ, ◌≡◌, ◌≢◌, ◌∙◌, refl, sym, subst, List, [], ◌∷◌, some, Bool, true, All,
  All-append, All-imp, Exists, Exists-imp, Bool-cases, inl, inr, nat_eq,
}
use openmatch.Decimal.{Decimal, le}
use openmatch.Sort.Laws.{sort_by-All}
use openmatch.Types.{Order, OrderId, OrderSide, Trade, TradeBundle, SealedBatch, effective_price}
use openmatch.MatchCore.OrderBook.{OrderBook, Levels, new_book}
use openmatch.MatchCore.OrderBook.Placed.{AreInLevel, ArePlaced}
use openmatch.MatchCore.Matcher.Book.{fill_book-ArePlaced}
use openmatch.MatchCore.Matcher.{
  Auction, trade_of, fill_book, orders_where, crossing_bids, crossing_asks, earlier,
  match_sealed_batch, bundle,
}
use openmatch.MatchCore.Matcher.Bundles.{HoldsFrom, match_sealed_batch-bundle}
use openmatch.MatchCore.Matcher.Steps.{TwoUsers}
use openmatch.MatchCore.Matcher.Trades.{Sound, trade_of-Makes}
use openmatch.MatchCore.Matcher.Returned.{IsModest, match_sealed_batch-Returns}
use openmatch.Pairing.{Fills}
use openmatch.Pairing.Sound.{Reaches-AreSound}

All-Exists : {A : Type 0} (xs : List A) → All (λ o. Exists (λ x. x ≡ o) xs) xs
All-Exists [] = tt
All-Exists (x ∷ xs) = (inl refl, All-imp (λ o h. inr h) xs (All-Exists xs))

module _ {D : Type 0} ⦃d : Decimal D⦄ (G : Order D → Type 0) where
  pub orders_where-All :
      (crosses : D → Bool)
      → ((p q : D) → d.units p ≡ d.units q → crosses p ≡ true → crosses q ≡ true)
      → (m : Levels D) → AreInLevel G m
      → All (λ o. (crosses (effective_price o) ≡ true) × G o) (orders_where crosses m)
  orders_where-All crosses same [] h = tt
  orders_where-All crosses same ((p, l) ∷ m) ((k, os), later) =
      let rest = orders_where-All crosses same m later in
      elim (Bool-cases (crosses l.price)) [
        | inl on ↦ rw on (
            All-append (λ (o : Order D). (crosses (effective_price o) ≡ true) × G o) l.orders
              (orders_where crosses m)
              (All-imp (λ (o : Order D) h. (same l.price (effective_price o) (k ∙ sym h.0) on, h.1))
                l.orders os)
              rest)
        | inr off ↦ rw off rest
      ]

module _ {D : Type 0} ⦃d : Decimal D⦄ (batch : SealedBatch D) where
  -- an order of the batch
  abbrev Given : Order D → Type 0
  Given o = Exists (λ x. x ≡ o) batch.orders

  -- The id of an order of the batch, on the given side, whose limit allows the price.
  abbrev pub Buys : D → OrderId → Type 0
  Buys price i =
      Exists (λ o. (o.id ≡ i) × (o.side ≡ OrderSide.buy) × (le price (effective_price o) ≡ true))
        batch.orders

  abbrev pub Sells : D → OrderId → Type 0
  Sells price i =
      Exists (λ o. (o.id ≡ i) × (o.side ≡ OrderSide.sell) × (le (effective_price o) price ≡ true))
        batch.orders

  crossing_bids-Buys :
      (price : D) (b : OrderBook D)
      → ArePlaced Given b
      → All (λ o. Buys price o.id) (crossing_bids price b)
  crossing_bids-Buys price b h =
      sort_by-All earlier (λ (o : Order D). Buys price o.id) _
        (All-imp
          (λ (o : Order D) k.
            Exists-imp
              (λ (x : Order D) e.
                subst
                  (λ (y : Order D).
                    (y.id ≡ o.id)
                    × (y.side ≡ OrderSide.buy)
                    × (le price (effective_price y) ≡ true))
                  (sym e) (refl, k.1.0, k.0))
              batch.orders k.1.1)
          _
          (orders_where-All (λ o. (o.side ≡ OrderSide.buy) × Given o) (λ p. le price p)
            (λ p q e on. rw e at on) b.bids h.0))

  crossing_asks-Sells :
      (price : D) (b : OrderBook D)
      → ArePlaced Given b
      → All (λ o. Sells price o.id) (crossing_asks price b)
  crossing_asks-Sells price b h =
      sort_by-All earlier (λ (o : Order D). Sells price o.id) _
        (All-imp
          (λ (o : Order D) k.
            Exists-imp
              (λ (x : Order D) e.
                subst
                  (λ (y : Order D).
                    (y.id ≡ o.id)
                    × (y.side ≡ OrderSide.sell)
                    × (le (effective_price y) price ≡ true))
                  (sym e) (refl, k.1.0, k.0))
              batch.orders k.1.1)
          _
          (orders_where-All (λ o. (o.side ≡ OrderSide.sell) × Given o) (λ p. le p price)
            (λ p q e on. rw e at on) b.asks h.1))

  -- What a trade of the bundle `r` is.
  pub record IsLegal (r : TradeBundle D) (t : Trade D) : Type 0 where
    pub at_clearing : r.clearing_price ≡ some t.price
    pub of_epoch : t.epoch_id ≡ batch.epoch_id
    pub quoted : t.quote_amount ≡ d.mul t.price t.quantity
    pub two_users : t.taker_user_id ≢ t.maker_user_id
    pub buyer : Buys t.price t.taker_order_id
    pub seller : Sells t.price t.maker_order_id

  Sound-IsLegal :
      (a : Auction D) (bids : List (Order D)) (f : Fills D) (book : OrderBook D)
      → a.epoch_id ≡ batch.epoch_id
      → (t : Trade D) → Sound a (Buys a.price) (Sells a.price) t
      → IsLegal (bundle a batch book bids f) t
  unfolding bundle
  Sound-IsLegal a bids f book same t (fair, b, s) = record {
    at_clearing = rw (fair.one_price) refl;
    of_epoch = fair.one_epoch ∙ same;
    quoted = fair.quoted;
    two_users = fair.two_users;
    buyer = rw (fair.one_price) b;
    seller = rw (fair.one_price) s;
  }

  fills-IsLegal :
      (book : OrderBook D)
      → ArePlaced Given book
      → (sha256 : List ℕ → List ℕ) → HoldsFrom sha256 batch (λ r. All (IsLegal r) r.trades) book
  unfolding bundle
  fills-IsLegal book h sha256 a bids f same k =
      All-imp (Sound-IsLegal a bids f book same) f.trades
        (Reaches-AreSound (trade_of a) TwoUsers (λ o. Buys a.price o.id) (λ o. Sells a.price o.id)
          (Sound a (Buys a.price) (Sells a.price)) (trade_of-Makes a (Buys a.price) (Sells a.price))
          k (crossing_bids-Buys a.price book h, crossing_asks-Sells a.price book h, tt)).2

module _ {D : Type 0} ⦃d : Decimal D⦄ where
  -- Other overflows than that of the sum of two prices aside, if no order of a sealed batch has an
  -- effective price that is negative or above half the greatest decimal, which leaves out market
  -- buys, the matcher returns a bundle, and each of its trades is at the clearing price, in the
  -- batch's epoch, for its price times its quantity, between two different users, for the id of a
  -- buy order of the batch whose effective price is at least that price and the id of a sell order
  -- of the batch whose effective price is at most that price.
  pub match_sealed_batch-IsLegal :
      (sha256 : List ℕ → List ℕ) (clock : ℕ → ℕ) (batch : SealedBatch D)
      → All (λ o. IsModest (effective_price o)) batch.orders
      → Returns (λ r. All (IsLegal batch r) r.trades) (match_sealed_batch sha256 clock batch)
  match_sealed_batch-IsLegal sha256 clock batch modest =
      Allows-Returns (λ r. All (IsLegal batch r) r.trades) (match_sealed_batch sha256 clock batch)
        (match_sealed_batch-bundle sha256 batch (λ r. All (IsLegal batch r) r.trades) clock
          (λ e. tt) (λ market. tt)
          λ market.
            fills-IsLegal batch (fill_book batch.orders (new_book market))
              (fill_book-ArePlaced (λ o. Exists (λ x. x ≡ o) batch.orders) batch.orders
                (new_book market) (All-Exists batch.orders) (tt, tt))
              sha256)
        (match_sealed_batch-Returns sha256 clock batch modest)
