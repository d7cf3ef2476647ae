-- ===== src/Exchange/Tests.antt =====
-- A sealed batch, matched and settled.
use openmatch.Base.{
  AllDiffer, ℕ, ◌≡◌, refl, List, [], ◌∷◌, ◌++◌, Option, none, some, All, ℤ, pos, ◌+ℤ◌, ◌-ℤ◌, ◌≤ℤ◌,
  arith, nat_eq, string_eq, pair_eq, inl, ◌+◌, sum_of, map,
}
use openmatch.Decimal.Whole.{whole_decimal}
use openmatch.Decimal.Products.{whole_products}
use openmatch.Map
use openmatch.Sort.{sort_by}
use openmatch.Types.{
  Order, OrderSide, OrderType, OrderStatus, SealedBatch, SpendRight, Asset, Trade, TradeBundle,
  MarketPair, effective_price, deterministic,
}
use openmatch.Types
use openmatch.Accounts
use openmatch.Accounts.{Key, Accounts}
use openmatch.Accounts.Frozen.{frozen}
use openmatch.Pairing.{fill_bid, turn}
use openmatch.MatchCore.PriceLevel.{total_quantity}
use openmatch.MatchCore.OrderBook.{insert_order, push_at, put_level, level_at}
use openmatch.MatchCore.Clearing.{compute_clearing_price, clear_crossed, walk, walk_both, walk_bids}
use openmatch.MatchCore.Matcher.{
  fill_book, fill_bids, match_sealed_batch, match_at, match_book, run_auction, bundle,
}
use openmatch.Settlement.Idempotency.{new_guard}
use openmatch.Settlement.Tier1.{Tier1Settler, run}
use openmatch.Settlement.Tier1.Funded.{AreNew, AllSettle, settlements}
use openmatch.Exchange.Orders.{reserve, IsFundable}
use openmatch.Ingress.Escrow
use openmatch.Ingress.Escrow.{
  EscrowManager, Call, mint_call, release_call, new_escrow, minted, minted_ids,
}
use openmatch.Ingress.Escrow.Redeemed.{IsPaid}
use openmatch.Exchange.Escrowed.{IsEscrowed, right_ids, escrowed_batch-settles}
use openmatch.Exchange.Agreement.{seal-match_sealed_batch_same}
use openmatch.MatchCore.Matcher.Untimed.{untimed_result}
use openmatch.Ingress.BatchSealer.{BatchSealer, seal}
use mathlib.Core.List.{Permᴰ}
use openmatch.Exchange.Settles.{match_sealed_batch-settles}

abbrev pair : MarketPair
pair = record { base = "BTC"; quote = "USDT" }

abbrev order : ℕ → ℕ → OrderSide → ℕ → ℕ → Order ℤ
order i user side price quantity = record {
  id = i;
  user_id = user;
  market = pair;
  side = side;
  order_type = OrderType.limit;
  status = OrderStatus.active;
  price = some (pos price);
  quantity = pos quantity;
  remaining_qty = pos quantity;
  sr_id = i;
  epoch_id = some 1;
  origin_node = [];
  sequence = i;
  created_at = 0;
  updated_at = 0;
}

-- User 10 buys 5 at 12; users 30 and 40 sell 3 and 4 at 8 and 10.
abbrev batch : SealedBatch ℤ
batch = record {
  epoch_id = 1;
  orders =
      order 1 10 OrderSide.buy 12 5
      ∷ order 3 30 OrderSide.sell 8 3
      ∷ order 4 40 OrderSide.sell 10 4
      ∷ [];
  batch_hash = [];
  sealed_at = 0;
  sealer_node = [];
}

-- In place of a hash, the bytes in the other order: the number of the fill stands in front.
abbrev backwards : List ℕ → List ℕ
backwards [] = []
backwards (b ∷ bs) = backwards bs ++ b ∷ []

abbrev noon : ℕ → ℕ
noon n = 0

abbrev settler : Tier1Settler ℤ
settler = record {
  balances =
      ((10, "USDT"), record { available = pos 0; frozen = pos 60 })
      ∷ ((30, "BTC"), record { available = pos 0; frozen = pos 3 })
      ∷ ((40, "BTC"), record { available = pos 1; frozen = pos 4 })
      ∷ [];
  idempotency = new_guard 3;
  supply = record { deposits = []; withdrawals = [] };
}

abbrev nothing : TradeBundle ℤ
nothing = record {
  epoch_id = 1;
  trades = [];
  trade_root = [];
  input_hash = [];
  clearing_price = none;
  remaining_orders = [];
}

abbrev given : Option (TradeBundle ℤ) → TradeBundle ℤ
given none = nothing
given (some r) = r

abbrev matched : TradeBundle ℤ
matched = given (match_sealed_batch backwards noon batch)

batch-matched : match_sealed_batch backwards noon batch ≡ some matched
unfolding match_sealed_batch match_book match_at run_auction bundle fill_bids fill_bid turn
    fill_book insert_order push_at put_level level_at effective_price Map.insert
    compute_clearing_price clear_crossed walk walk_both walk_bids total_quantity sort_by ◌+ℤ◌ ◌-ℤ◌
    deterministic
batch-matched = refl

matched-AreNew : AreNew [] matched.trades
unfolding match_sealed_batch match_book match_at run_auction bundle fill_bids fill_bid turn
    fill_book insert_order push_at put_level level_at effective_price Map.insert
    compute_clearing_price clear_crossed walk walk_both walk_bids total_quantity sort_by ◌+ℤ◌ ◌-ℤ◌
    deterministic
matched-AreNew = (refl, (refl, tt))

-- Buyer, seller and price of a trade.
abbrev summary : Trade ℤ → ℕ × ℕ × ℤ
summary t = (t.taker_user_id, t.maker_user_id, t.quote_amount)

matched-quantities : map summary matched.trades ≡ (10, 30, pos 30) ∷ (10, 40, pos 20) ∷ []
unfolding match_sealed_batch match_book match_at run_auction bundle fill_bids fill_bid turn
    fill_book insert_order push_at put_level level_at effective_price Map.insert
    compute_clearing_price clear_crossed walk walk_both walk_bids total_quantity sort_by ◌+ℤ◌ ◌-ℤ◌
    deterministic
matched-quantities = refl

batch-IsFundable : All (IsFundable pair settler.balances) batch.orders
unfolding effective_price
batch-IsFundable = (
  record {
    of_market = refl;
    left_nonneg = omega arith;
    price_nonneg = omega arith;
    account = refl;
  },
  (
    record {
      of_market = refl;
      left_nonneg = omega arith;
      price_nonneg = omega arith;
      account = refl;
    },
    (
      record {
        of_market = refl;
        left_nonneg = omega arith;
        price_nonneg = omega arith;
        account = refl;
      },
      tt,
    ),
  ),
)

batch_covered : (j : Key) → sum_of (reserve j) batch.orders ≤ℤ frozen j settler.balances
unfolding effective_price ◌+ℤ◌
batch_covered j = ground arith

match_sealed_batch-settles_example :
    AllSettle matched.trades settler
    × ((j : Key)
        → frozen j settler.balances
          ≤ℤ frozen j (run (settlements matched.trades) settler).balances
            +ℤ sum_of (reserve j) batch.orders)
match_sealed_batch-settles_example =
    match_sealed_batch-settles backwards noon batch settler pair matched whole_products refl
      batch-IsFundable batch_covered batch-matched matched-AreNew

-- What the users own before the epoch, and the calls that escrow it: one right is given back.
abbrev owned : Accounts ℤ
owned =
    ((10, "USDT"), record { available = pos 60; frozen = pos 0 })
    ∷ ((30, "BTC"), record { available = pos 3; frozen = pos 0 })
    ∷ ((40, "BTC"), record { available = pos 5; frozen = pos 0 })
    ∷ []

abbrev escrow_calls : List (Call ℤ)
escrow_calls =
    mint_call 1 0 1 10 "USDT" (pos 60) 1
    ∷ mint_call 3 0 3 30 "BTC" (pos 3) 1
    ∷ mint_call 8 0 8 40 "BTC" (pos 5) 1
    ∷ release_call 8
    ∷ mint_call 4 0 4 40 "BTC" (pos 4) 1
    ∷ []

abbrev escrow : EscrowManager ℤ
escrow = new_escrow [] owned 0

owned_unfrozen : (k : Key) → (Accounts.balance k owned).frozen ≡ pos 0
unfolding Accounts.balance
owned_unfrozen k = ground arith

escrow_calls_differ : AllDiffer (minted_ids escrow_calls)
escrow_calls_differ = (
  ((λ h. omega (arith, h)), ((λ h. omega (arith, h)), ((λ h. omega (arith, h)), tt))),
  (
    ((λ h. omega (arith, h)), ((λ h. omega (arith, h)), tt)),
    (((λ h. omega (arith, h)), tt), (tt, tt)),
  ),
)

escrow_calls-IsPaid : All IsPaid escrow_calls
escrow_calls-IsPaid = (omega arith, (omega arith, (omega arith, (tt, (omega arith, tt)))))

abbrev right_of : ℕ → ℕ → Asset → ℤ → ℕ → SpendRight ℤ
right_of i user asset amount nonce =
    minted i 0 i user asset amount 1 (record escrow { nonce_counter = nonce })

batch-AreEscrowed : All (IsEscrowed (Escrow.run escrow_calls escrow).spend_rights) batch.orders
unfolding Escrow.run Escrow.apply Escrow.mint Escrow.release Types.mark_released Map.insert
    Accounts.freeze Accounts.unfreeze effective_price ◌+ℤ◌ ◌-ℤ◌
batch-AreEscrowed = (
  record {
    right = right_of 1 10 "USDT" (pos 60) 0;
    found = refl;
    unreleased = refl;
    of_account = refl;
    enough = omega arith;
  },
  (
    record {
      right = right_of 3 30 "BTC" (pos 3) 1;
      found = refl;
      unreleased = refl;
      of_account = refl;
      enough = omega arith;
    },
    (
      record {
        right = right_of 4 40 "BTC" (pos 4) 3;
        found = refl;
        unreleased = refl;
        of_account = refl;
        enough = omega arith;
      },
      tt,
    ),
  ),
)

rights_differ : AllDiffer (right_ids batch.orders)
rights_differ = (
  ((λ h. omega (arith, h)), ((λ h. omega (arith, h)), tt)),
  (((λ h. omega (arith, h)), tt), (tt, tt)),
)

escrow-mirrored :
    (j : Key)
    → (Accounts.balance j (Escrow.run escrow_calls escrow).accounts).frozen
      ≤ℤ frozen j settler.balances
unfolding Escrow.run Escrow.apply Escrow.mint Escrow.release Types.mark_released Map.insert
    Accounts.freeze Accounts.unfreeze Accounts.balance ◌+ℤ◌ ◌-ℤ◌
escrow-mirrored j = ground arith

escrowed_batch-settles_example : AllSettle matched.trades settler
escrowed_batch-settles_example =
    escrowed_batch-settles [] 0 owned escrow_calls backwards noon batch settler pair matched
      owned_unfrozen escrow_calls_differ escrow_calls-IsPaid batch-AreEscrowed rights_differ
      escrow-mirrored whole_products refl batch-IsFundable batch-matched matched-AreNew

-- The second node gets the two orders the other way round, a second later.
abbrev bid : Order ℤ
bid = order 1 10 OrderSide.buy 12 5

abbrev ask : Order ℤ
ask = order 3 30 OrderSide.sell 8 3

abbrev first_node : BatchSealer
first_node = record { node_id = 1 ∷ [] }

abbrev second_node : BatchSealer
second_node = record { node_id = 2 ∷ [] }

abbrev late : ℕ → ℕ
late n = 1000 + n

seal-match_sealed_batch_same_example :
    untimed_result
      (match_sealed_batch backwards noon (seal backwards 0 1 (bid ∷ ask ∷ []) first_node))
    ≡ untimed_result
        (match_sealed_batch backwards late (seal backwards 1000 1 (ask ∷ bid ∷ []) second_node))
seal-match_sealed_batch_same_example =
    seal-match_sealed_batch_same backwards 1 0 1000 first_node second_node noon late
      (Permᴰ.swap refl refl) ((inl refl, tt), (tt, tt))
