-- ===== src/Settlement/Tests.antt =====
-- The settlement on small inputs: two users trade 10 of BTC for 500 of USDT.
use openmatch.Base.{
  ◌≡◌, refl, arith, List, [], ◌∷◌, false, ok, err, ℤ, pos, ◌+ℤ◌, ◌-ℤ◌, nat_eq, string_eq, pair_eq,
}
use openmatch.Decimal.Whole.{whole_decimal}
use openmatch.Map.{insert}
use openmatch.Types.{Trade, OrderSide, taker_is_buyer, insufficient_frozen, trade_already_settled}
use openmatch.Accounts.{consume_entry, credit_entry, credit, consume_frozen}
use openmatch.Accounts
use openmatch.Settlement.SupplyConservation.{record_deposit}
use openmatch.Settlement.WithdrawLock.{new_lock, check_withdraw}
use openmatch.Settlement.WithdrawLock.Cycle.{advance, check_withdraw_cycle}
use openmatch.Settlement.Idempotency.{new_guard, mark_settled, is_settled, make_room}
use openmatch.Settlement.Idempotency.Valid.{IsValid, new_guard-IsValid, mark_settled-IsValid}
use openmatch.Settlement.Idempotency.Window.{mark_all, no_double_settlement}
use openmatch.Settlement.Tier1.{
  Tier1Settler, new_settler, settle_trade, verify_supply, balance, Call, deposit_call, freeze_call,
  settle_call, run, apply, freeze, deposit, settle_legs, buyer, seller, transfer,
}
use openmatch.Settlement.Tier1.Runs.{verify_supply-run, run-IsValid, settle_at_most_once}
use openmatch.Settlement.Tier1.Legs.Moves.{IsCovered, settle_trade-moves, settle_trade_half, at}

-- User 1 buys from user 2.
abbrev trade : Trade ℤ
trade = record {
  id = 77;
  epoch_id = 1;
  market = record { base = "BTC"; quote = "USDT" };
  taker_order_id = 11;
  taker_user_id = 1;
  maker_order_id = 12;
  maker_user_id = 2;
  price = pos 50;
  quantity = pos 10;
  quote_amount = pos 500;
  taker_side = OrderSide.buy;
  matcher_node = [];
  executed_at = 0;
}

abbrev funded : List (Call ℤ)
funded =
    deposit_call 1 "USDT" (pos 600)
    ∷ deposit_call 2 "BTC" (pos 10)
    ∷ freeze_call 1 "USDT" (pos 500)
    ∷ freeze_call 2 "BTC" (pos 10)
    ∷ []

abbrev covered : Tier1Settler ℤ
covered = record {
  balances =
      ((1, "USDT"), record { available = pos 100; frozen = pos 500 })
      ∷ ((2, "BTC"), record { available = pos 0; frozen = pos 10 })
      ∷ [];
  idempotency = new_guard 3;
  supply = record { deposits = ("USDT", pos 600) ∷ ("BTC", pos 10) ∷ []; withdrawals = [] };
}

run-funded : run funded (new_settler 3) ≡ covered
unfolding run apply freeze Accounts.freeze deposit credit record_deposit insert ◌+ℤ◌ ◌-ℤ◌
run-funded = refl

settle-covered :
    let (r, s) = settle_trade trade covered in
    (r ≡ ok tt)
    × (balance 1 "BTC" s ≡ record { available = pos 10; frozen = pos 0 })
    × (balance 2 "USDT" s ≡ record { available = pos 500; frozen = pos 0 })
unfolding settle_trade settle_legs transfer consume_frozen credit insert balance Accounts.balance
    mark_settled make_room is_settled taker_is_buyer ◌+ℤ◌ ◌-ℤ◌
settle-covered = (refl, refl, refl)

verify_supply-run_example :
    verify_supply "BTC" (run (settle_call trade ∷ funded) (new_settler 3)) ≡ ok tt
verify_supply-run_example = verify_supply-run (settle_call trade ∷ funded) 3 "BTC"

used_settler-IsValid : IsValid (run (settle_call trade ∷ []) (new_settler {D = ℤ} 3)).idempotency
used_settler-IsValid = run-IsValid (settle_call trade ∷ []) 3 (omega arith)

marked_once : IsValid (mark_settled {D = ℤ} 77 (new_guard 2)).1
marked_once = mark_settled-IsValid ℤ 77 (new_guard 2) (new_guard-IsValid 2 (omega arith))

no_double_settlement_example :
    let g = mark_all ℤ (5 ∷ 5 ∷ []) (mark_settled {D = ℤ} 77 (new_guard 3)).1 in
    mark_settled {D = ℤ} 77 g ≡ (err (trade_already_settled 77), g)
no_double_settlement_example =
    no_double_settlement ℤ 77 (5 ∷ 5 ∷ []) (new_guard 3) (new_guard-IsValid 3 (omega arith)) refl
      (omega arith)

-- After `max_size` other trades the guard has forgotten the first.
forgotten :
    is_settled 77 (mark_all ℤ (1 ∷ 2 ∷ []) (mark_settled {D = ℤ} 77 (new_guard 2)).1) ≡ false
unfolding mark_settled make_room is_settled
forgotten = refl

settle_at_most_once_example :
    let later = run (settle_call trade ∷ []) (settle_trade trade covered).1 in
    settle_trade trade later ≡ (err (trade_already_settled 77), later)
settle_at_most_once_example =
    settle_at_most_once trade trade (settle_call trade ∷ []) covered
      (new_guard-IsValid 3 (omega arith)) refl (omega arith) refl

trade-IsCovered :
    IsCovered trade covered
      (record { available = pos 0; frozen = pos 10 })
      (record { available = pos 100; frozen = pos 500 })
unfolding taker_is_buyer
trade-IsCovered = record {
  unseen = refl;
  two_users = omega arith;
  two_assets = refl;
  seller_base = refl;
  buyer_quote = refl;
  base_frozen = refl;
}

-- The trade at a price that the frozen funds do not cover.
abbrev dear : Trade ℤ
dear = record trade { price = pos 51; quote_amount = pos 510 }

dear-IsCovered :
    IsCovered dear covered
      (record { available = pos 0; frozen = pos 10 })
      (record { available = pos 100; frozen = pos 500 })
unfolding taker_is_buyer
dear-IsCovered = record {
  unseen = refl;
  two_users = omega arith;
  two_assets = refl;
  seller_base = refl;
  buyer_quote = refl;
  base_frozen = refl;
}

settle_trade-moves_example :
    let s' = (settle_trade trade covered).1 in
    ((settle_trade trade covered).0 ≡ ok tt)
    × (at (seller trade) "BTC" s'.balances
        ≡ consume_entry (pos 10) (at (seller trade) "BTC" covered.balances))
    × (at (buyer trade) "BTC" s'.balances
        ≡ credit_entry (pos 10) (at (buyer trade) "BTC" covered.balances))
    × (at (buyer trade) "USDT" s'.balances
        ≡ consume_entry (pos 500) (at (buyer trade) "USDT" covered.balances))
    × (at (seller trade) "USDT" s'.balances
        ≡ credit_entry (pos 500) (at (seller trade) "USDT" covered.balances))
settle_trade-moves_example = settle_trade-moves trade covered trade-IsCovered refl

settle_trade_half_example :
    let s' = (settle_trade dear covered).1 in
    ((settle_trade dear covered).0 ≡ err insufficient_frozen)
    × (at (seller dear) "BTC" s'.balances
        ≡ consume_entry (pos 10) (at (seller dear) "BTC" covered.balances))
    × (at (buyer dear) "BTC" s'.balances
        ≡ credit_entry (pos 10) (at (buyer dear) "BTC" covered.balances))
    × (at (buyer dear) "USDT" s'.balances ≡ at (buyer dear) "USDT" covered.balances)
    × (settle_trade dear s' ≡ (err (trade_already_settled 77), s'))
settle_trade_half_example = settle_trade_half dear covered dear-IsCovered refl

-- The sixth phase is a seal, the seventh a match.
check_withdraw_cycle_example : check_withdraw {D = ℤ} (advance 5 new_lock) ≡ ok tt
check_withdraw_cycle_example = check_withdraw_cycle ℤ 5
