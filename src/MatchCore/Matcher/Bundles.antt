-- ===== src/MatchCore/Matcher/Bundles.antt =====
-- What holds of every bundle that crates/openmatch-matchcore/src/matcher.rs returns: it is enough to
-- show it of a bundle without trades and of one that the loops fill.
use openmatch.Base.{
  Returns, Returns-bind, Allows, Returns-Allows, ℕ, ◌≡◌, refl, List, [], ◌∷◌, Option, none, some,
}
use openmatch.Decimal.{Decimal}
use openmatch.Types.{Order, TradeBundle, SealedBatch, MarketPair}
use openmatch.Pairing.{Fills, start_fills}
use openmatch.Pairing.Steps.{Reaches, standing}
use openmatch.MatchCore.OrderBook.{OrderBook, new_book, drain_all}
use openmatch.MatchCore.Clearing.{ClearingResult, compute_clearing_price}
use openmatch.MatchCore.Matcher.{
  Auction, trade_of, fill_book, crossing_bids, crossing_asks, run_auction, match_at, match_book,
  match_sealed_batch, bundle, fill_bids, no_trades,
}
use openmatch.MatchCore.Matcher.Steps.{TwoUsers, fill_bids-Returns}

module _ {D : Type 0} ⦃d : Decimal D⦄ (sha256 : List ℕ → List ℕ) (batch : SealedBatch D)
    (P : TradeBundle D → Type 0) where
  -- `P` of the bundle that the loops fill from a book.
  abbrev pub HoldsFrom : OrderBook D → Type 0
  HoldsFrom book =
      (a : Auction D) (bids : List (Order D)) (f : Fills D)
      → a.epoch_id ≡ batch.epoch_id
      → Reaches (trade_of a) TwoUsers
          (standing (crossing_bids a.price book) (start_fills (crossing_asks a.price book)))
          (standing bids f)
      → P (bundle a batch book bids f)

  run_auction-bundle :
      (a : Auction D) (book : OrderBook D)
      → a.epoch_id ≡ batch.epoch_id
      → HoldsFrom book
      → Returns P (run_auction a batch book)
  unfolding run_auction
  run_auction-bundle a book same h =
      Returns-bind _
        (fill_bids a [] (crossing_bids a.price book) (start_fills (crossing_asks a.price book)))
        (λ (r : List (Order D) × Fills D). some (bundle a batch book r.0 r.1))
        (fill_bids-Returns a [] (crossing_bids a.price book)
          (start_fills (crossing_asks a.price book)))
        (λ (r : List (Order D) × Fills D) k. h a r.0 r.1 same k)

  pub match_at-bundle :
      (clock : ℕ → ℕ) (book : OrderBook D) (price : Option D)
      → P (no_trades sha256 batch (drain_all book).0)
      → HoldsFrom book
      → Returns P (match_at price sha256 clock batch book)
  unfolding match_at
  match_at-bundle clock book none unmatched h = unmatched
  match_at-bundle clock book (some price) unmatched h = run_auction-bundle _ book refl h

  pub match_book-bundle :
      (clock : ℕ → ℕ) (book : OrderBook D)
      → P (no_trades sha256 batch (drain_all book).0)
      → HoldsFrom book
      → Allows P (match_book sha256 clock batch book)
  unfolding match_book
  match_book-bundle clock book unmatched h = after (compute_clearing_price book)
    where
      after :
          (c : Option (ClearingResult D))
          → Allows P (elim c [
            | none ↦ none
            | some clearing ↦ match_at clearing.clearing_price sha256 clock batch book
          ])
      after none = tt
      after (some clearing) =
          Returns-Allows P (match_at clearing.clearing_price sha256 clock batch book)
            (match_at-bundle clock book clearing.clearing_price unmatched h)

  pub match_sealed_batch-bundle :
      (clock : ℕ → ℕ)
      → (batch.orders ≡ [] → P (no_trades sha256 batch []))
      → ((market : MarketPair)
          → P (no_trades sha256 batch (drain_all (fill_book batch.orders (new_book market))).0))
      → ((market : MarketPair) → HoldsFrom (fill_book batch.orders (new_book market)))
      → Allows P (match_sealed_batch sha256 clock batch)
  unfolding match_sealed_batch
  match_sealed_batch-bundle clock empty unmatched h = of_orders batch.orders refl
    where
      of_orders :
          (os : List (Order D))
          → batch.orders ≡ os
          → Allows P (elim os [
            | [] ↦ some (no_trades sha256 batch [])
            | first ∷ others ↦
                match_book sha256 clock batch (fill_book batch.orders (new_book first.market))
          ])
      of_orders [] e = empty e
      of_orders (first ∷ others) e =
          match_book-bundle clock (fill_book batch.orders (new_book first.market))
            (unmatched first.market) (h first.market)
