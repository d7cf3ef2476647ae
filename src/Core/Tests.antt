-- ===== src/Core/Tests.antt =====
-- The ledger and its guards on small inputs: two users trade 10 of BTC for 500 of USDT.
use openmatch.Base.{
  ◌≡◌, refl, arith, List, [], ◌∷◌, true, ok, err, ℤ, pos, ◌+ℤ◌, ◌-ℤ◌, nat_eq, string_eq, pair_eq,
  String, ◌≤◌, ℕ, ◌+◌, length, Returns, some, ◌≢◌, ◌↔◌,
}
use openmatch.Decimal.{eq}
use openmatch.Decimal.Whole.{whole_decimal}
use openmatch.Map.{insert}
use openmatch.Types.{
  Trade, OrderSide, MarketPair, nonce_replay, insufficient_frozen, withdraw_locked_during_settle,
}
use openmatch.Settlement.Idempotency.{new_guard, make_room, is_settled}
use openmatch.Settlement.Idempotency
use openmatch.Accounts.{Accounts, Key, credit}
use openmatch.Accounts.Supply.{supply, in_asset}
use openmatch.Core.BalanceManager
use openmatch.Core.BalanceManager.Solvency.{IsSolvent, run-IsSolvent}
use openmatch.Core.BalanceManager.Half.{settle_trade_short}
use openmatch.Base.{sum_of}
use openmatch.Core.BalanceManager.Settled.{AllSettle, settlements, owed, settle_trade_each}
use openmatch.Accounts.Frozen.{frozen}
use openmatch.Core.Security.NonceTracker
use openmatch.Core.Security.NonceTracker.{NonceTracker, new_tracker}
use openmatch.Core.Security.NonceTracker.Replay.{no_replay}
use openmatch.Core.Security.RateLimiter
use openmatch.Core.Security.RateLimiter.{
  Submission, new_limiter, accepted_times, submit_all, epoch_count,
}
use openmatch.Core.Security.RateLimiter.Window.{window_limit}
use openmatch.Core.Security.RateLimiter.Step.{count_between}
use openmatch.Core.Security.RateLimiter.Cap.{epoch_limit}
use openmatch.Core.Security.PriceSanity.{PriceSanityChecker, check_price}
use openmatch.Core.Security.SupplyAudit.{expected_total, verify, verify_assets}
use openmatch.Core.Security.WithdrawLock.{new_lock, check_withdraw_allowed, settle}
use openmatch.Core.Security.Secured
use openmatch.Core.Security.Secured.{
  SecuredBalanceManager, new_secured, Call, deposit_call, freeze_call, withdraw_call, settle_call,
  phase_call, run, apply, verify_supply_conservation, deposit, freeze, withdraw, settle_trade,
}
use openmatch.Core.Security.Secured.Conservation.{IsConserved, run-IsConserved, audit_of_nothing}

abbrev market : MarketPair
market = record { base = "BTC"; quote = "USDT" }

-- User 1 buys from user 2.
abbrev trade : Trade ℤ
trade = record {
  id = 77;
  epoch_id = 1;
  market = market;
  taker_order_id = 11;
  taker_user_id = 1;
  maker_order_id = 12;
  maker_user_id = 2;
  price = pos 50;
  quantity = pos 10;
  quote_amount = pos 500;
  taker_side = OrderSide.buy;
  matcher_node = [];
  executed_at = 0;
}

abbrev calls : List (BalanceManager.Call ℤ)
calls =
    BalanceManager.deposit_call (1, "USDT") (pos 600)
    ∷ BalanceManager.freeze_call (1, "USDT") (pos 500)
    ∷ BalanceManager.deposit_call (2, "BTC") (pos 10)
    ∷ BalanceManager.settle_call trade market
    ∷ BalanceManager.withdraw_call (1, "USDT") (pos 100)
    ∷ []

run-IsSolvent_example : IsSolvent (BalanceManager.run calls [])
run-IsSolvent_example =
    run-IsSolvent calls [] (tt, (tt, (tt, ((omega arith, omega arith), (tt, tt)))))
      λ k. (omega arith, omega arith)

-- The seller has not frozen the base asset.
abbrev unfrozen : Accounts ℤ
unfrozen =
    ((1, "USDT"), record { available = pos 100; frozen = pos 500 })
    ∷ ((2, "BTC"), record { available = pos 10; frozen = pos 0 })
    ∷ []

settle_trade_short_example :
    let (r, n) = BalanceManager.settle_trade trade market unfrozen in
    (r ≡ err insufficient_frozen)
    × (supply "BTC" n +ℤ in_asset "BTC" (1, "USDT") (pos 500)
        ≡ supply "BTC" unfrozen +ℤ in_asset "BTC" (1, "BTC") (pos 10))
settle_trade_short_example = settle_trade_short "BTC" trade market unfrozen refl refl refl

abbrev hex : List ℕ → String
hex node = "node"

no_replay_example :
    let t2 =
      NonceTracker.run hex
        (NonceTracker.clear_node_call (2 ∷ []) ∷ NonceTracker.check_call (1 ∷ []) 5 ∷ [])
        (NonceTracker.check_and_record {D = ℤ} hex (1 ∷ []) 7 (new_tracker 3)).1 in
    (NonceTracker.check_and_record {D = ℤ} hex (1 ∷ []) 7 t2).0 ≡ err (nonce_replay "node" 7)
unfolding NonceTracker.check_and_record
no_replay_example =
    no_replay hex (1 ∷ []) 7
      (NonceTracker.clear_node_call (2 ∷ []) ∷ NonceTracker.check_call (1 ∷ []) 5 ∷ [])
      (new_tracker 3) refl (refl, (tt, tt))

-- Two orders in any 100 milliseconds, five in an epoch.
abbrev submissions : List Submission
submissions = (1, 10) ∷ (1, 20) ∷ (2, 20) ∷ (1, 30) ∷ (1, 120) ∷ []

accepted : accepted_times 1 submissions (new_limiter 100 2 5) ≡ 10 ∷ 20 ∷ 120 ∷ []
unfolding accepted_times RateLimiter.check_and_record epoch_count insert
accepted = refl

window_limit_example : count_between 20 120 (accepted_times 1 submissions (new_limiter 100 2 5)) ≤ 2
window_limit_example =
    window_limit 1 submissions (new_limiter 100 2 5) 20 refl
      (omega arith, (omega arith, (omega arith, (omega arith, (omega arith, tt)))))

epoch_limit_example :
    (epoch_count 1 (submit_all submissions (new_limiter 100 2 5))
      ≡ epoch_count 1 (new_limiter 100 2 5)
        + length (accepted_times 1 submissions (new_limiter 100 2 5)))
    × (epoch_count 1 (submit_all submissions (new_limiter 100 2 5)) ≤ 5)
unfolding epoch_count
epoch_limit_example = epoch_limit 1 submissions (new_limiter 100 2 5) (omega arith)

abbrev checker : PriceSanityChecker ℤ
checker = record { reference_prices = (market, pos 50) ∷ []; max_deviation = pos 10 }

-- A price of 400 is within ten times 50, and 501 is not.
prices_checked :
    (check_price market (pos 400) checker ≡ some (ok tt))
    × Returns (λ r. r ≢ ok tt) (check_price market (pos 501) checker)
unfolding check_price
prices_checked = (refl, λ h. cc)

abbrev secured_calls : List (Call ℤ)
secured_calls =
    deposit_call 1 "USDT" (pos 600)
    ∷ freeze_call 1 "USDT" (pos 500)
    ∷ deposit_call 2 "BTC" (pos 10)
    ∷ freeze_call 2 "BTC" (pos 10)
    ∷ settle_call trade market
    ∷ withdraw_call 2 "USDT" (pos 200)
    ∷ []

abbrev before_settlement : SecuredBalanceManager ℤ
before_settlement = record {
  inner =
      ((1, "USDT"), record { available = pos 100; frozen = pos 500 })
      ∷ ((2, "BTC"), record { available = pos 0; frozen = pos 10 })
      ∷ [];
  settlement_guard = new_guard 3;
  withdraw_lock = new_lock;
  supply_tracker = record {
    total_deposits = ("USDT", pos 600) ∷ ("BTC", pos 10) ∷ [];
    total_withdrawals = [];
  };
  ops_count = 4;
}

-- The settlement is accepted, and a withdrawal is refused once the phase is over.
settled_then_locked :
    let r = settle_trade trade market before_settlement in
    (r.0 ≡ ok tt)
    × ((withdraw 2 "USDT" (pos 200) (apply (phase_call settle) r.1)).0
        ≡ err withdraw_locked_during_settle)
unfolding settle_trade withdraw apply BalanceManager.settle_trade BalanceManager.debit_frozen
    Secured.mark_settled Idempotency.mark_settled make_room is_settled credit insert
    check_withdraw_allowed ◌+ℤ◌ ◌-ℤ◌
settled_then_locked = (refl, refl)

run-IsConserved_example : IsConserved (run secured_calls (new_secured {D = ℤ} 3))
unfolding run apply settle_trade deposit freeze withdraw BalanceManager.settle_trade
    BalanceManager.debit_frozen BalanceManager.deposit BalanceManager.freeze Secured.mark_settled
    Idempotency.mark_settled make_room is_settled credit insert expected_total ◌+ℤ◌ ◌-ℤ◌
run-IsConserved_example =
    run-IsConserved secured_calls (new_secured 3) (tt, (tt, (tt, (tt, ((λ h. cc), (tt, tt))))))
      λ asset. refl

audit_of_nothing_example :
    (verify_supply_conservation before_settlement ≡ ok tt)
    ↔ ((asset : String) → eq (expected_total asset before_settlement.supply_tracker) (pos 0) ≡ true)
audit_of_nothing_example = audit_of_nothing before_settlement

-- The ledger has what was deposited, and yet the audit reports a violation.
audit_refused : verify_supply_conservation before_settlement ≢ ok tt
unfolding verify_supply_conservation verify verify_assets expected_total ◌-ℤ◌
audit_refused = λ h. cc

settle_trade_each_example :
    AllSettle market (trade ∷ []) before_settlement.inner
    × ((j : Key)
        → frozen j (BalanceManager.run (settlements market (trade ∷ [])) before_settlement.inner)
            +ℤ sum_of (owed market j) (trade ∷ [])
          ≡ frozen j before_settlement.inner)
unfolding ◌+ℤ◌
settle_trade_each_example =
    settle_trade_each market (trade ∷ []) before_settlement.inner refl
      ((omega arith, omega arith), tt) λ j. ground arith
