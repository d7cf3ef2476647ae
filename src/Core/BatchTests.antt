-- ===== src/Core/BatchTests.antt =====
-- A batch of the first version of the exchange on small inputs.
use openmatch.Base.{
  ok, false, Returns, none, err, ℕ, ◌≡◌, ◌+ℤ◌, ◌-ℤ◌, refl, List, [], ◌∷◌, ◌++◌, some, true, arith,
  ℤ, pos, map,
}
use openmatch.Decimal.Whole.{whole_decimal}
use openmatch.Sort.{sort_by}
use openmatch.Types.{
  matching_failed, Reason, Order, OrderSide, OrderType, OrderStatus, Trade, effective_price,
}
use openmatch.Pairing.{fill_bid, turn}
use mathlib.Core.List.{Permᴰ}
use openmatch.Sort.Laws.{IsSorted}
use openmatch.Core.PendingBuffer.{PendingBuffer, seal, take_orders, comes_before, hash_of}
use openmatch.Core.PendingBuffer.Laws.{seal_same}
use openmatch.Core.BatchMatcher.Sealed.{seal-match_batch}
use openmatch.Core.Clearing.{price_set, sum_where, is_better, search, compute_clearing_price}
use openmatch.Core.Clearing.Optimal.{Clears, compute_clearing_price-Clears}
use openmatch.Core.BatchMatcher.{
  BatchMatcher, fill_buys, batch_result, run_round, match_orders, match_batch,
}
use openmatch.Core.BatchMatcher.Results.{IsRight, Succeeds, match_batch-Returns}

-- The order `i` of a user, for a quantity at a limit price; ids are also sequence numbers.
abbrev order : ℕ → ℕ → OrderSide → ℕ → ℕ → Order ℤ
order i user side price quantity = record {
  id = i;
  user_id = user;
  market = record { base = "BTC"; quote = "USDT" };
  side = side;
  order_type = OrderType.limit;
  status = OrderStatus.active;
  price = some (pos price);
  quantity = pos quantity;
  remaining_qty = pos quantity;
  sr_id = 0;
  epoch_id = some 1;
  origin_node = [];
  sequence = i;
  created_at = 0;
  updated_at = 0;
}

abbrev buys : List (Order ℤ)
buys = order 1 10 OrderSide.buy 12 5 ∷ order 2 20 OrderSide.buy 11 4 ∷ []

abbrev sells : List (Order ℤ)
sells = order 3 30 OrderSide.sell 8 6 ∷ order 4 10 OrderSide.sell 10 7 ∷ []

-- At 11 all four orders trade, with 9 demanded and 13 supplied; 10 has the same volume and imbalance and is lower.
price-eleven :
    compute_clearing_price buys sells
    ≡ some (record { price = pos 11; volume = pos 9; demand = pos 9; supply = pos 13 })
unfolding compute_clearing_price search price_set sum_where is_better effective_price ◌+ℤ◌ ◌-ℤ◌
price-eleven = refl

compute_clearing_price-Clears_example : Clears buys sells (compute_clearing_price buys sells)
compute_clearing_price-Clears_example =
    compute_clearing_price-Clears buys sells (omega arith, (omega arith, tt))
      (omega arith, (omega arith, tt))

abbrev same : List ℕ → List ℕ
same bs = []

abbrev noon : ℕ → ℕ
noon n = 0

abbrev matcher : BatchMatcher
matcher = record { node_id = [] }

abbrev buffer : PendingBuffer ℤ
buffer = record {
  orders = buys ++ sells;
  sequence_counter = 4;
  sealed = true;
  batch_hash = some (7 ∷ []);
  batch_id = 1;
}

match_batch-Returns_example :
    Returns
      (Succeeds (λ r. IsRight buffer.orders r × (r.batch_id ≡ 1) × (r.input_hash ≡ 7 ∷ [])))
      (match_batch same noon buffer matcher)
match_batch-Returns_example =
    match_batch-Returns same noon buffer matcher (7 ∷ []) refl refl
      (omega arith, (omega arith, (omega arith, (omega arith, tt))))

-- Taker, maker and quantity of a trade.
abbrev summary : Trade ℤ → ℕ × ℕ × ℤ
summary t = (t.taker_order_id, t.maker_order_id, t.quantity)

-- The first buy is filled by the first sell, the second by what that has left and by the other sell.
match-trades :
    Returns
      (Succeeds (λ r. map summary r.trades ≡ (1, 3, pos 5) ∷ (2, 3, pos 1) ∷ (2, 4, pos 3) ∷ []))
      (match_batch same noon buffer matcher)
unfolding match_batch match_orders take_orders run_round batch_result fill_buys fill_bid turn
    compute_clearing_price search price_set sum_where is_better effective_price sort_by ◌+ℤ◌ ◌-ℤ◌
match-trades = refl

-- The same orders in two orders of arrival.
abbrev collected : PendingBuffer ℤ
collected = record {
  orders = buys ++ sells;
  sequence_counter = 4;
  sealed = false;
  batch_hash = none;
  batch_id = 1;
}

abbrev collected_again : PendingBuffer ℤ
collected_again = record collected {
  orders = order 2 20 OrderSide.buy 11 4 ∷ order 1 10 OrderSide.buy 12 5 ∷ sells;
}

seal_same_example :
    ((seal same collected).0 ≡ (seal same collected_again).0)
    × ((seal same collected).1.orders ≡ (seal same collected_again).1.orders)
    × IsSorted comes_before (seal same collected).1.orders
seal_same_example =
    seal_same same collected collected_again refl refl refl
      (
        (omega arith, (omega arith, (omega arith, tt))),
        ((omega arith, (omega arith, tt)), ((omega arith, tt), (tt, tt))),
      )
      (Permᴰ.swap refl refl)

seal-match_batch_example :
    let sorted = sort_by comes_before collected.orders in
    let hash = hash_of same 1 sorted in
    let (r, s) = seal same collected in
    (match_batch same noon collected matcher
      ≡ some (err (matching_failed (Reason.text "Cannot take orders from unsealed buffer"))))
    × (r ≡ ok hash)
    × Returns
        (Succeeds (λ q. IsRight sorted q × (q.batch_id ≡ 1) × (q.input_hash ≡ hash)))
        (match_batch same noon s matcher)
seal-match_batch_example =
    seal-match_batch same noon matcher collected refl
      (omega arith, (omega arith, (omega arith, (omega arith, tt))))
