-- ===== src/MatchCore/Matcher/Returned.antt =====
-- Where crates/openmatch-matchcore/src/matcher.rs returns a bundle, and where it panics: in
-- `(b + a) / Decimal::TWO` of crates/openmatch-matchcore/src/clearing.rs.
use openmatch.Base.{
  ℕ, ◌≡◌, refl, List, [], ◌∷◌, Option, none, some, true, Bool-cases, inl, inr, All, pos, ◌+ℤ◌, ◌≤ℤ◌,
  int_laws, Returns, Returns-bind, Allows,
}
use openmatch.Decimal.{Decimal, le, is_zero}
use openmatch.Types.{Order, SealedBatch, TradeBundle, effective_price}
use openmatch.MatchCore.OrderBook.{OrderBook, Levels, new_book, best, best_bid, best_ask}
use openmatch.MatchCore.OrderBook.Best.{AllKeys, ArePriced}
use openmatch.MatchCore.Clearing.{
  ClearingResult, compute_clearing_price, clear_crossed, clear_between, walk, quantities,
}
use openmatch.MatchCore.Clearing.Prices.{HasVolume, zero_volume}
use openmatch.MatchCore.Matcher.{match_at, match_book, match_sealed_batch, fill_book, no_trades}
use openmatch.MatchCore.Matcher.Book.{fill_book-ArePriced}
use openmatch.MatchCore.Matcher.Bundles.{match_at-bundle}

module _ {D : Type 0} ⦃d : Decimal D⦄ where
  -- A price that is not negative and at most half the greatest decimal.
  abbrev pub IsModest : D → Type 0
  IsModest p = (pos 0 ≤ℤ d.units p) × (d.units p +ℤ d.units p ≤ℤ d.units d.max)

  best-IsModest : (m : Levels D) → AllKeys IsModest m → Allows IsModest (best m)
  best-IsModest [] h = tt
  best-IsModest ((p, l) ∷ m) h = h.0

  clear_crossed-Returns :
      (b : OrderBook D) (bid ask : D)
      → IsModest bid
      → IsModest ask
      → Returns (λ r. Unit) (clear_crossed bid ask b)
  unfolding clear_crossed
  clear_crossed-Returns b bid ask (b_low, b_half) (a_low, a_half) =
      elim (Bool-cases (is_zero (walk (quantities b.bids) (quantities b.asks)).matchable)) [
        | inl nothing ↦ rw nothing tt
        | inr volume ↦
            rw
              (
                volume,
                d.checked_add-fits bid ask (omega (int_laws, b_half, a_half))
                    (omega (int_laws, b_low, a_low, b_half)),
              )
              tt
      ]

  clear_between-Returns :
      (bid ask : Option D) (b : OrderBook D)
      → Allows IsModest bid
      → Allows IsModest ask
      → Returns (λ r. Unit) (clear_between bid ask b)
  clear_between-Returns none ask b hb ha = tt
  clear_between-Returns (some bid) none b hb ha = tt
  clear_between-Returns (some bid) (some ask) b hb ha = elim (Bool-cases (le ask bid)) [
    | inl crossed ↦ rw crossed (clear_crossed-Returns b bid ask hb ha)
    | inr apart ↦ rw apart tt
  ]

  match_book-Returns :
      (sha256 : List ℕ → List ℕ) (clock : ℕ → ℕ) (batch : SealedBatch D) (b : OrderBook D)
      → ArePriced IsModest b
      → Returns (λ r. Unit) (match_book sha256 clock batch b)
  unfolding compute_clearing_price match_book
  match_book-Returns sha256 clock batch b h =
      Returns-bind (λ (r : TradeBundle D). Unit) (compute_clearing_price b)
        (λ (c : ClearingResult D). match_at c.clearing_price sha256 clock batch b)
        (clear_between-Returns (best_bid b) (best_ask b) b (best-IsModest b.bids h.0)
          (best-IsModest b.asks h.1))
        (λ (c : ClearingResult D) u.
          match_at-bundle sha256 batch (λ r. Unit) clock b c.clearing_price tt
            (λ a bids f same k. tt))

  -- The matcher returns for orders whose prices are modest.
  pub match_sealed_batch-Returns :
      (sha256 : List ℕ → List ℕ) (clock : ℕ → ℕ) (batch : SealedBatch D)
      → All (λ o. IsModest (effective_price o)) batch.orders
      → Returns (λ r. Unit) (match_sealed_batch sha256 clock batch)
  unfolding match_sealed_batch
  match_sealed_batch-Returns sha256 clock batch h = of_orders batch.orders
    where
      of_orders :
          (os : List (Order D))
          → Returns
              (λ (r : TradeBundle D). Unit)
              (elim os [
                | [] ↦ some (no_trades sha256 batch [])
                | first ∷ others ↦
                    match_book sha256 clock batch (fill_book batch.orders (new_book first.market))
              ])
      of_orders [] = tt
      of_orders (first ∷ others) =
          match_book-Returns sha256 clock batch (fill_book batch.orders (new_book first.market))
            (fill_book-ArePriced IsModest batch.orders (new_book first.market) h (tt, tt))

  -- A book whose best bid is at least its best ask, and whose levels each stand under their own price
  -- with a positive quantity, has neither a clearing price nor a bundle, since the code panics, if the
  -- sum of its two best prices passes the greatest decimal by one or more, as that of a market buy,
  -- whose effective price is the greatest decimal, and an ask of at least one does.
  pub match_book-panics :
      (b : OrderBook D) (bid ask : D) (sha256 : List ℕ → List ℕ) (clock : ℕ → ℕ)
      (batch : SealedBatch D)
      → best_bid b ≡ some bid
      → best_ask b ≡ some ask
      → le ask bid ≡ true
      → HasVolume b.bids
      → HasVolume b.asks
      → d.units d.max +ℤ pos d.one_units ≤ℤ d.units bid +ℤ d.units ask
      → (compute_clearing_price b ≡ none) × (match_book sha256 clock batch b ≡ none)
  unfolding compute_clearing_price clear_crossed match_book
  match_book-panics b bid ask sha256 clock batch is_bid is_ask cross hb ha over =
      let panics : compute_clearing_price b ≡ none =
        rw
          (
            is_bid,
            is_ask,
            cross,
            zero_volume b bid ask is_bid is_ask cross hb ha,
            d.checked_add-none bid ask over,
          )
          refl in
      (panics, rw (match_book, panics) refl)
