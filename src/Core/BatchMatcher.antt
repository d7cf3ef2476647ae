-- ===== src/Core/BatchMatcher.antt =====
-- crates/openmatch-core/src/batch_matcher.rs: a sealed buffer to trades. The inner loop, over the sells
-- for one buy, is `Pairing.fill_bid`. The logging is left out.
pub mod Steps
pub mod Legal
pub mod Results
pub mod Sealed
use openmatch.Base.{
  ℕ, List, [], ◌∷◌, ◌++◌, Option, none, some, Bool, true, false, not, ◌&&◌, length, Result, ok, err,
  if◌then◌else◌,
}
use openmatch.Decimal.{Decimal, lt, is_zero}
use openmatch.Sort.{sort_by}
use openmatch.Types.{
  Order, OrderSide, Trade, EpochId, NodeId, effective_price, is_cancel, is_buy, deterministic,
  OpenmatchError, uuid_bytes, to_le_bytes, ascii,
}
use openmatch.Pairing.{Fills, fill_qty, fill_bid, enough_fuel, start_fills}
use openmatch.Core.PendingBuffer.{PendingBuffer, take_orders, buy_before, sell_before}
use openmatch.Core.Clearing.{ClearingResult, compute_clearing_price}

pub record BatchMatcher : Type 0 where
  pub node_id : NodeId

pub record BatchResult (D : Type 0) : Type 0 where
  pub batch_id : EpochId
  pub trades : List (Trade D)
  pub result_hash : List ℕ
  pub input_hash : List ℕ
  pub remaining_orders : List (Order D)
  pub clearing_price : Option D

-- What the loops read: the batch, the price, the node, the hash function, and the clock at the n-th
-- trade.
pub record Round (D : Type 0) : Type 0 where
  pub batch_id : EpochId
  pub price : D
  pub node_id : NodeId
  pub sha256 : List ℕ → List ℕ
  pub clock : ℕ → ℕ

module _ {D : Type 0} ⦃d : Decimal D⦄ where
  -- `checked_mul(..).unwrap_or(Decimal::MAX)`
  abbrev pub or_max : Option D → D
  or_max none = d.max
  or_max (some p) = p

  abbrev pub trade_of : Round D → ℕ → Order D → Order D → Trade D
  trade_of r n buy sell = record {
    id = deterministic r.sha256 r.batch_id n;
    epoch_id = r.batch_id;
    market = buy.market;
    taker_order_id = buy.id;
    taker_user_id = buy.user_id;
    maker_order_id = sell.id;
    maker_user_id = sell.user_id;
    price = r.price;
    quantity = fill_qty buy sell;
    quote_amount = or_max (d.checked_mul r.price (fill_qty buy sell));
    taker_side = OrderSide.buy;
    matcher_node = r.node_id;
    executed_at = r.clock n;
  }

  -- The `break` of the inner loop.
  abbrev pub above_price : Round D → Order D → Bool
  above_price r sell = lt r.price (effective_price sell)

  -- The outer loop, after the buys `done`, with its `continue` and its `break`.
  unfoldable pub fill_buys :
      Round D → List (Order D) → List (Order D) → Fills D → Option (List (Order D) × Fills D)
  fill_buys r done [] f = some (done, f)
  fill_buys r done (buy ∷ buys) f = elim (is_zero buy.remaining_qty) [
    | true ↦ fill_buys r (done ++ buy ∷ []) buys f
    | false ↦ elim (lt (effective_price buy) r.price) [
      | true ↦ some (done ++ buy ∷ buys, f)
      | false ↦ elim (fill_bid (trade_of r) (above_price r) (enough_fuel f) buy f) [
        | none ↦ none
        | some (buy', f') ↦ fill_buys r (done ++ buy' ∷ []) buys f'
      ]
    ]
  ]

  -- `iter().filter(|o| o.side == side && o.order_type != OrderType::Cancel)`
  abbrev pub live_buys : List (Order D) → List (Order D)
  live_buys [] = []
  live_buys (o ∷ os) =
      let later = live_buys os in
      if is_buy o.side && not (is_cancel o.order_type) then o ∷ later else later

  abbrev pub live_sells : List (Order D) → List (Order D)
  live_sells [] = []
  live_sells (o ∷ os) =
      let later = live_sells os in
      if not (is_buy o.side) && not (is_cancel o.order_type) then o ∷ later else later

  abbrev pub with_quantity : List (Order D) → List (Order D)
  with_quantity [] = []
  with_quantity (o ∷ os) =
      let later = with_quantity os in if lt d.zero o.remaining_qty then o ∷ later else later

  abbrev pub trade_bytes : Trade D → List ℕ
  trade_bytes t =
      uuid_bytes t.id
      ++ (d.to_bytes t.price
          ++ (d.to_bytes t.quantity
              ++ (uuid_bytes t.taker_order_id ++ uuid_bytes t.maker_order_id)))

  abbrev pub trades_bytes : List (Trade D) → List ℕ
  trades_bytes [] = []
  trades_bytes (t ∷ ts) = trade_bytes t ++ trades_bytes ts

  unfoldable pub compute_result_hash : (List ℕ → List ℕ) → EpochId → List (Trade D) → List ℕ
  compute_result_hash sha256 batch_id trades = sha256 (
      ascii "openmatch:result:v1:"
      ++ (to_le_bytes 8 batch_id ++ (to_le_bytes 8 (length trades) ++ trades_bytes trades)))

  -- What follows the loops.
  unfoldable pub batch_result :
      (List ℕ → List ℕ) → EpochId → List ℕ → Option D → List (Order D) → Fills D → BatchResult D
  batch_result sha256 batch_id input_hash price buys f = record {
    batch_id = batch_id;
    trades = f.trades;
    result_hash = compute_result_hash sha256 batch_id f.trades;
    input_hash = input_hash;
    remaining_orders = with_quantity (buys ++ (f.passed ++ f.rest));
    clearing_price = price;
  }

  -- `if let Some(clearing_result) = clearing { .. }`, and what follows.
  unfoldable pub run_round :
      (List ℕ → List ℕ)
      → (ℕ → ℕ)
      → NodeId
      → EpochId
      → List ℕ
      → List (Order D)
      → List (Order D)
      → Option (ClearingResult D)
      → Option (BatchResult D)
  run_round sha256 clock node_id batch_id input_hash buys sells none =
      some (batch_result sha256 batch_id input_hash none buys (start_fills sells))
  run_round sha256 clock node_id batch_id input_hash buys sells (some c) =
      elim (fill_buys
        (record {
          batch_id = batch_id;
          price = c.price;
          node_id = node_id;
          sha256 = sha256;
          clock = clock;
        })
        [] buys (start_fills sells)) [
          | none ↦ none
          | some (buys', f) ↦ some (batch_result sha256 batch_id input_hash (some c.price) buys' f)
        ]

  -- From the orders and the hash of a buffer that is sealed.
  unfoldable pub match_orders :
      (List ℕ → List ℕ)
      → (ℕ → ℕ)
      → BatchMatcher
      → EpochId
      → List (Order D)
      → List ℕ
      → Option (BatchResult D)
  match_orders sha256 clock m batch_id orders input_hash =
      let buys = sort_by buy_before (live_buys orders) in
      let sells = sort_by sell_before (live_sells orders) in
      run_round sha256 clock m.node_id batch_id input_hash buys sells
        (compute_clearing_price buys sells)

  -- `none` where the code panics.
  unfoldable pub match_batch :
      (List ℕ → List ℕ)
      → (ℕ → ℕ)
      → PendingBuffer D
      → BatchMatcher
      → Option (Result (OpenmatchError D) (BatchResult D))
  match_batch sha256 clock buffer m = elim (take_orders buffer) [
    | none ↦ none
    | some (err e) ↦ some (err e)
    | some (ok (orders, input_hash)) ↦
        elim (match_orders sha256 clock m buffer.batch_id orders input_hash) [
          | none ↦ none
          | some r ↦ some (ok r)
        ]
  ]
