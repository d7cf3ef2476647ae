-- ===== src/MatchCore/Matcher/Untimed.antt =====
-- What crates/openmatch-matchcore/src/matcher.rs takes from the clock: the times of the trades, and
-- nothing else.
use openmatch.Base.{
  ℕ, suc, ◌≡◌, ◌∙◌, refl, ap, List, [], ◌∷◌, ◌++◌, Option, none, some, ◌==◌, not, ◌&&◌,
  if◌then◌else◌, nat_eq, length, any,
}
use openmatch.Decimal.{Decimal}
use openmatch.Types.{Order, Trade, TradeBundle, SealedBatch}
use openmatch.Pairing.{Fills, fill_bid, enough_fuel, start_fills}
use openmatch.Pairing.Mapped.{map_trades, mapped, mapped_result, fill_bid-mapped}
use openmatch.MatchCore.OrderBook.{OrderBook, new_book}
use openmatch.MatchCore.Clearing.{ClearingResult, compute_clearing_price}
use openmatch.MatchCore.Determinism.{compute_trade_root, trade_bytes, trades_bytes}
use openmatch.MatchCore.Matcher.{
  Auction, trade_of, never_stops, fill_bids, fill_book, crossing_bids, crossing_asks, run_auction,
  match_at, match_book, match_sealed_batch, bundle, no_trades, add_unmatched, is_traded,
}

-- A trade without its time, and a bundle without the times of its trades.
abbrev untimed : {D : Type 0} → Trade D → Trade D
untimed t = record t { executed_at = 0 }

abbrev untimed_bundle : {D : Type 0} → TradeBundle D → TradeBundle D
untimed_bundle r = record r { trades = map_trades untimed r.trades }

abbrev pub untimed_result : {D : Type 0} → Option (TradeBundle D) → Option (TradeBundle D)
untimed_result none = none
untimed_result (some r) = some (untimed_bundle r)

-- The clock that stands still.
abbrev pub no_clock : ℕ → ℕ
no_clock n = 0

module _ {D : Type 0} ⦃d : Decimal D⦄ where
  length-untimed : (ts : List (Trade D)) → length (map_trades untimed ts) ≡ length ts
  length-untimed [] = refl
  length-untimed (t ∷ ts) = ap suc (length-untimed ts)

  trades_bytes-untimed :
      (ts : List (Trade D)) → trades_bytes (map_trades untimed ts) ≡ trades_bytes ts
  unfolding trade_bytes
  trades_bytes-untimed [] = refl
  trades_bytes-untimed (t ∷ ts) = rw (trades_bytes-untimed ts) refl

  -- The root of the trades does not depend on their times.
  compute_trade_root-untimed :
      (sha256 : List ℕ → List ℕ) (ts : List (Trade D))
      → compute_trade_root sha256 (map_trades untimed ts) ≡ compute_trade_root sha256 ts
  unfolding compute_trade_root
  compute_trade_root-untimed sha256 ts = rw (length-untimed ts, trades_bytes-untimed ts) refl

  is_traded-untimed :
      (o : Order D) (ts : List (Trade D)) → is_traded o (map_trades untimed ts) ≡ is_traded o ts
  is_traded-untimed o [] = refl
  is_traded-untimed o (t ∷ ts) = rw (is_traded-untimed o ts) refl

  add_unmatched-untimed :
      (ts : List (Trade D)) (remaining os : List (Order D))
      → add_unmatched (map_trades untimed ts) remaining os ≡ add_unmatched ts remaining os
  unfolding add_unmatched
  add_unmatched-untimed ts remaining [] = refl
  add_unmatched-untimed ts remaining (o ∷ os) = rw (is_traded-untimed o ts) (
      add_unmatched-untimed ts
        (if not (any (λ r. r.id == o.id) remaining) && not (is_traded o ts)
          then remaining ++ o ∷ []
          else remaining)
        os)

  abbrev stopped : Auction D → Auction D
  stopped a = record a { clock = no_clock }

  -- The outer loop after its inner loop.
  abbrev go_on :
      Auction D
      → List (Order D)
      → List (Order D)
      → Option (Order D × Fills D)
      → Option (List (Order D) × Fills D)
  go_on a done bids none = none
  go_on a done bids (some (bid', f')) = fill_bids a (done ++ bid' ∷ []) bids f'

  go_on-untimed :
      (a : Auction D) (done bids : List (Order D)) (r : Option (Order D × Fills D))
      → ((done' : List (Order D)) (f' : Fills D)
          → fill_bids (stopped a) done' bids (mapped untimed f')
            ≡ mapped_result untimed (fill_bids a done' bids f'))
      → go_on (stopped a) done bids (mapped_result untimed r)
        ≡ mapped_result untimed (go_on a done bids r)
  go_on-untimed a done bids none again = refl
  go_on-untimed a done bids (some (bid', f')) again = again (done ++ bid' ∷ []) f'

  fill_bids-untimed :
      (a : Auction D) (done bids : List (Order D)) (f : Fills D)
      → fill_bids (stopped a) done bids (mapped untimed f)
        ≡ mapped_result untimed (fill_bids a done bids f)
  unfolding fill_bids
  fill_bids-untimed a done [] f = refl
  fill_bids-untimed a done (bid ∷ bids) f =
      ap (go_on (stopped a) done bids) (
        fill_bid-mapped untimed (trade_of a) never_stops (enough_fuel f) bid f.passed f.rest
          f.trades f.fill_seq)
      ∙ go_on-untimed a done bids (fill_bid (trade_of a) never_stops (enough_fuel f) bid f)
          (λ done' f'. fill_bids-untimed a done' bids f')

  bundle-untimed :
      (a : Auction D) (batch : SealedBatch D) (book : OrderBook D) (bids : List (Order D))
      (f : Fills D)
      → bundle (stopped a) batch book bids (mapped untimed f)
        ≡ untimed_bundle (bundle a batch book bids f)
  unfolding bundle
  bundle-untimed a batch book bids f =
      rw (compute_trade_root-untimed a.sha256 f.trades) (rw (add_unmatched-untimed f.trades) refl)

  abbrev finish :
      Auction D
      → SealedBatch D
      → OrderBook D
      → Option (List (Order D) × Fills D)
      → Option (TradeBundle D)
  finish a batch book none = none
  finish a batch book (some (bids, f)) = some (bundle a batch book bids f)

  finish-untimed :
      (a : Auction D) (batch : SealedBatch D) (book : OrderBook D)
      (r : Option (List (Order D) × Fills D))
      → finish (stopped a) batch book (mapped_result untimed r)
        ≡ untimed_result (finish a batch book r)
  finish-untimed a batch book none = refl
  finish-untimed a batch book (some (bids, f)) = ap some (bundle-untimed a batch book bids f)

  run_auction-untimed :
      (a : Auction D) (batch : SealedBatch D) (book : OrderBook D)
      → run_auction (stopped a) batch book ≡ untimed_result (run_auction a batch book)
  unfolding run_auction
  run_auction-untimed a batch book =
      ap (finish (stopped a) batch book) (
        fill_bids-untimed a [] (crossing_bids a.price book)
          (start_fills (crossing_asks a.price book)))
      ∙ finish-untimed a batch book
          (fill_bids a [] (crossing_bids a.price book) (start_fills (crossing_asks a.price book)))

  match_at-untimed :
      (sha256 : List ℕ → List ℕ) (clock : ℕ → ℕ) (batch : SealedBatch D) (book : OrderBook D)
      (price : Option D)
      → match_at price sha256 no_clock batch book
        ≡ untimed_result (match_at price sha256 clock batch book)
  unfolding match_at
  match_at-untimed sha256 clock batch book none = refl
  match_at-untimed sha256 clock batch book (some price) =
      run_auction-untimed
        (record { epoch_id = batch.epoch_id; price = price; sha256 = sha256; clock = clock }) batch
        book

  match_book-untimed :
      (sha256 : List ℕ → List ℕ) (clock : ℕ → ℕ) (batch : SealedBatch D) (book : OrderBook D)
      → match_book sha256 no_clock batch book ≡ untimed_result (match_book sha256 clock batch book)
  unfolding match_book
  match_book-untimed sha256 clock batch book = after (compute_clearing_price book)
    where
      after :
          (c : Option (ClearingResult D))
          → (elim c [
            | none ↦ none
            | some clearing ↦ match_at clearing.clearing_price sha256 no_clock batch book
          ])
            ≡ untimed_result (elim c [
              | none ↦ none
              | some clearing ↦ match_at clearing.clearing_price sha256 clock batch book
            ])
      after none = refl
      after (some clearing) = match_at-untimed sha256 clock batch book clearing.clearing_price

  -- The clock changes the times of the trades of a bundle, and nothing else.
  pub match_sealed_batch-untimed :
      (sha256 : List ℕ → List ℕ) (clock : ℕ → ℕ) (batch : SealedBatch D)
      → match_sealed_batch sha256 no_clock batch
        ≡ untimed_result (match_sealed_batch sha256 clock batch)
  unfolding match_sealed_batch
  match_sealed_batch-untimed sha256 clock batch = of_orders batch.orders
    where
      of_orders :
          (os : List (Order D))
          → (elim os [
            | [] ↦ some (no_trades sha256 batch [])
            | first ∷ others ↦
                match_book sha256 no_clock batch (fill_book batch.orders (new_book first.market))
          ])
            ≡ untimed_result (elim os [
              | [] ↦ some (no_trades sha256 batch [])
              | first ∷ others ↦
                  match_book sha256 clock batch (fill_book batch.orders (new_book first.market))
            ])
      of_orders [] = refl
      of_orders (first ∷ others) =
          match_book-untimed sha256 clock batch (fill_book batch.orders (new_book first.market))
