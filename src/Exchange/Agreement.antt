-- ===== src/Exchange/Agreement.antt =====
-- Two nodes: crates/openmatch-ingress/src/batch_sealer.rs, then
-- crates/openmatch-matchcore/src/matcher.rs.
use openmatch.Base.{ℕ, ◌≡◌, ◌∙◌, refl, sym, ap, List, [], ◌∷◌, Option, none, some}
use mathlib.Core.List.{Permᴰ}
use openmatch.Decimal.{Decimal}
use openmatch.Sort.Laws.{AllDiffer}
use openmatch.Types.{Order, EpochId, NodeId, SealedBatch}
use openmatch.Ingress.BatchSealer.{BatchSealer, seal, comes_before}
use openmatch.Ingress.BatchSealer.Laws.{seal_unique}
use openmatch.MatchCore.Matcher.{
  match_sealed_batch, match_at, match_book, run_auction, bundle, no_trades, fill_book,
}
use openmatch.MatchCore.OrderBook.{OrderBook, new_book}
use openmatch.MatchCore.Clearing.{ClearingResult, compute_clearing_price}
use openmatch.MatchCore.Matcher.Untimed.{untimed_result, no_clock, match_sealed_batch-untimed}

module _ {D : Type 0} ⦃d : Decimal D⦄ (sha256 : List ℕ → List ℕ) where
  -- The batch as another node seals it.
  abbrev sealed_by : ℕ → NodeId → SealedBatch D → SealedBatch D
  sealed_by now node batch = record batch { sealed_at = now; sealer_node = node }

  match_at_reads :
      (clock : ℕ → ℕ) (batch : SealedBatch D) (now : ℕ) (node : NodeId) (book : OrderBook D)
      (price : Option D)
      → match_at price sha256 clock (sealed_by now node batch) book
        ≡ match_at price sha256 clock batch book
  unfolding match_at run_auction bundle
  match_at_reads clock batch now node book none = refl
  match_at_reads clock batch now node book (some price) = refl

  after_reads :
      (clock : ℕ → ℕ) (batch : SealedBatch D) (now : ℕ) (node : NodeId) (book : OrderBook D)
      (c : Option (ClearingResult D))
      → (elim c [
        | none ↦ none
        | some r ↦ match_at r.clearing_price sha256 clock (sealed_by now node batch) book
      ])
        ≡ elim c [ none ↦ none | some r ↦ match_at r.clearing_price sha256 clock batch book ]
  after_reads clock batch now node book none = refl
  after_reads clock batch now node book (some r) =
      match_at_reads clock batch now node book r.clearing_price

  of_orders_reads :
      (clock : ℕ → ℕ) (batch : SealedBatch D) (now : ℕ) (node : NodeId) (os : List (Order D))
      → (elim os [
        | [] ↦ some (no_trades sha256 (sealed_by now node batch) [])
        | first ∷ others ↦
            match_book sha256 clock
              (sealed_by now node batch)
              (fill_book batch.orders (new_book first.market))
      ])
        ≡ elim os [
          | [] ↦ some (no_trades sha256 batch [])
          | first ∷ others ↦
              match_book sha256 clock batch (fill_book batch.orders (new_book first.market))
        ]
  unfolding match_book
  of_orders_reads clock batch now node [] = refl
  of_orders_reads clock batch now node (first ∷ others) =
      let book = fill_book batch.orders (new_book first.market) in
      after_reads clock batch now node book (compute_clearing_price book)

  -- The matcher reads neither the time nor the node of the sealing.
  reads_no_sealer :
      (clock : ℕ → ℕ) (batch : SealedBatch D) (now : ℕ) (node : NodeId)
      → match_sealed_batch sha256 clock (record batch { sealed_at = now; sealer_node = node })
        ≡ match_sealed_batch sha256 clock batch
  unfolding match_sealed_batch
  reads_no_sealer clock batch now node = of_orders_reads clock batch now node batch.orders

  -- Two nodes that hold the same orders in any arrival order, no two of which agree in both sequence
  -- and id, seal them at any times and under any node ids, and match them by any clocks, get the same
  -- bundle but for the times of its trades: the same trades in the same order, the same trade root, the
  -- same input hash, clearing price and remaining orders.
  pub seal-match_sealed_batch_same :
      (epoch_id : EpochId) (now now' : ℕ) (s s' : BatchSealer) (clock clock' : ℕ → ℕ)
      {os os' : List (Order D)}
      → Permᴰ os os'
      → AllDiffer comes_before os
      → untimed_result (match_sealed_batch sha256 clock (seal sha256 now epoch_id os s))
        ≡ untimed_result (match_sealed_batch sha256 clock' (seal sha256 now' epoch_id os' s'))
  unfolding seal
  seal-match_sealed_batch_same e now now' s s' clock clock' {os} {os'} p differ =
      sym (match_sealed_batch-untimed sha256 clock (seal sha256 now e os s))
      ∙ reads_no_sealer no_clock (seal sha256 now' e os s') now s.node_id
      ∙ ap (match_sealed_batch sha256 no_clock) (seal_unique sha256 now' e s' p differ)
      ∙ match_sealed_batch-untimed sha256 clock' (seal sha256 now' e os' s')
