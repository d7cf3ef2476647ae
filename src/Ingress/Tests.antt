-- ===== src/Ingress/Tests.antt =====
-- The security envelope on small inputs.
use openmatch.Base.{
  AllDiffer, ℕ, ◌+◌, ◌≤◌, ◌<◌, ◌≡◌, refl, arith, List, [], ◌∷◌, true, false, none, some, ok, ◌⊎◌,
  inr, ℤ, pos, nat_eq, string_eq, pair_eq, length, ◌+ℤ◌, ◌-ℤ◌,
}
use mathlib.Core.List.{Permᴰ}
use openmatch.Decimal.{lt, is_zero, is_sign_negative}
use openmatch.Decimal.Whole.{whole_decimal}
use openmatch.Map.{lookup, insert}
use openmatch.Types.{
  Order, OrderSide, OrderType, OrderStatus, is_cancel, is_limit, symbol, SpendRight, spent,
  insufficient_balance,
}
use openmatch.Types
use openmatch.Accounts
use openmatch.Accounts.{Accounts, Key}
use openmatch.Ingress.Escrow.{
  EscrowManager, mint, minted, release, mint_call, release_call, spend_call, run, active_count,
  new_escrow, minted_ids,
}
use openmatch.Ingress.Escrow
use openmatch.Ingress.Escrow.Reserved.{IsReserved, run-IsReserved}
use openmatch.Ingress.Escrow.Redeemed.{release-run}
use openmatch.Ingress.Escrow.RoundTrip.{mint-release}
use openmatch.Ingress.Escrow.Monotone.{closed_for_good}
use openmatch.Ingress.RiskKernel.{
  RiskKernel, user_order_count, check_price, check_price_deviation, count_order, validate,
}
use openmatch.Ingress.RiskKernel.Laws.{
  validate-ok, validate-counts, validate_all, flood_limit, counted,
}
use openmatch.Ingress.PendingBuffer.{PendingBuffer, push, drain, with_capacity}
use openmatch.Ingress.PendingBuffer
use openmatch.Ingress.PendingBuffer.Laws.{
  push_all, push_all-drain, push_all-sealed, push_all-IsBounded,
}
use openmatch.Ingress.BatchSealer.{BatchSealer, compute_batch_hash}
use openmatch.Ingress.BatchSealer
use openmatch.Ingress.BatchSealer.Laws.{seal_unique, batch_hash_ambiguous}

abbrev bid : ℕ → ℕ → Order ℤ
bid i n = record {
  id = i;
  user_id = 1;
  market = record { base = "BTC"; quote = "USDT" };
  side = OrderSide.buy;
  order_type = OrderType.limit;
  status = OrderStatus.active;
  price = some (pos 1);
  quantity = pos 23;
  remaining_qty = pos 23;
  sr_id = 9;
  epoch_id = none;
  origin_node = [];
  sequence = n;
  created_at = 0;
  updated_at = 0;
}

-- A user with 100 of USDT, 30 of them frozen for an active right.
abbrev held : SpendRight ℤ
held = record {
  id = 5;
  order_id = 11;
  user_id = 1;
  asset = "USDT";
  amount = pos 30;
  issuer_node = [];
  state = Types.active;
  signature = [];
  nonce = 0;
  epoch_id = 1;
  created_at = 0;
  expires_at = 3_600_000;
}

abbrev accounts : Accounts ℤ
accounts = ((1, "USDT"), record { available = pos 100; frozen = pos 0 }) ∷ []

abbrev empty : EscrowManager ℤ
empty = new_escrow [] accounts 0

-- Two mints, of which one is spent, and a mint that finds too little left.
abbrev escrow_calls : List (Escrow.Call ℤ)
escrow_calls =
    mint_call 5 0 11 1 "USDT" (pos 30) 1
    ∷ mint_call 6 0 12 1 "USDT" (pos 50) 1
    ∷ spend_call 5
    ∷ mint_call 7 0 13 1 "USDT" (pos 40) 1
    ∷ []

draws_differ : AllDiffer (minted_ids escrow_calls)
draws_differ = (
  ((λ h. omega (arith, h)), ((λ h. omega (arith, h)), tt)),
  (((λ h. omega (arith, h)), tt), (tt, tt)),
)

empty-IsReserved : IsReserved empty
unfolding Accounts.balance
empty-IsReserved k = ground arith

run-IsReserved_example : IsReserved (run escrow_calls empty)
run-IsReserved_example =
    run-IsReserved escrow_calls empty draws_differ (refl, (refl, (refl, tt))) empty-IsReserved

accounts_unfrozen : (k : Key) → (Accounts.balance k accounts).frozen ≡ pos 0
unfolding Accounts.balance
accounts_unfrozen k = ground arith

abbrev right_six : SpendRight ℤ
right_six = minted 6 0 12 1 "USDT" (pos 50) 1 (record empty { nonce_counter = 1 })

second_right : lookup 6 (run escrow_calls empty).spend_rights ≡ some right_six
unfolding run Escrow.apply mint Escrow.mark_spent Types.mark_spent insert Accounts.freeze ◌+ℤ◌ ◌-ℤ◌
second_right = refl

release-run_example : (release 6 (run escrow_calls empty)).0 ≡ ok tt
release-run_example =
    release-run [] 0 accounts escrow_calls accounts_unfrozen draws_differ
      (omega arith, (omega arith, (tt, (omega arith, tt)))) 6 right_six second_right refl

mint_freezes :
    let (r, s) = mint 5 0 11 1 "USDT" (pos 30) 1 empty in
    (r ≡ ok 5)
    × (active_count s ≡ 1)
    × (Accounts.balance (1, "USDT") s.accounts ≡ record { available = pos 70; frozen = pos 30 })
unfolding mint Accounts.freeze insert active_count Accounts.balance ◌+ℤ◌ ◌-ℤ◌
mint_freezes = (refl, refl, refl)

mint-release_example :
    let s' = (mint 5 0 11 1 "USDT" (pos 30) 1 empty).1 in
    let s'' = (release 5 s').1 in
    ((mint 5 0 11 1 "USDT" (pos 30) 1 empty).0 ≡ ok 5)
    × ((release 5 s').0 ≡ ok tt)
    × (lookup 5 s''.spend_rights
        ≡ some (record (minted 5 0 11 1 "USDT" (pos 30) 1 empty) { state = Types.released }))
    × ((Accounts.balance (1, "USDT") s''.accounts).available ≡ pos 100)
    × ((Accounts.balance (1, "USDT") s''.accounts).frozen ≡ pos 0)
mint-release_example =
    mint-release 5 0 11 1 "USDT" (pos 30) 1 empty (record { available = pos 100; frozen = pos 0 })
      refl refl (omega arith)

abbrev spent_right : SpendRight ℤ
spent_right = record held { state = spent }

closed_for_good_example :
    lookup 5
      (run
        (release_call 5 ∷ mint_call 6 0 12 1 "USDT" (pos 10) 1 ∷ [])
        (record empty { spend_rights = (5, spent_right) ∷ [] })).spend_rights
    ≡ some spent_right
closed_for_good_example =
    closed_for_good 5 spent_right refl (release_call 5 ∷ mint_call 6 0 12 1 "USDT" (pos 10) 1 ∷ [])
      (record empty { spend_rights = (5, spent_right) ∷ [] }) refl (omega arith, tt)

abbrev kernel : RiskKernel ℤ
kernel = record {
  max_orders_per_user_per_epoch = 1;
  max_order_size = pos 100;
  max_price_deviation = pos 10;
  epoch_order_counts = [];
  current_epoch = 0;
  last_prices = ("BTC/USDT", pos 2) ∷ [];
}

bid-ok : (validate (bid 1 1) kernel).0 ≡ ok tt
unfolding validate check_price check_price_deviation count_order symbol
bid-ok = refl

bid-checked : check_price (bid 1 1) kernel ≡ ok tt
unfolding check_price check_price_deviation symbol
bid-checked = refl

accepted_order :
    (is_zero (pos 23) ≡ false)
    × (is_sign_negative (pos 23) ≡ false)
    × ((is_cancel OrderType.limit ≡ true)
        ⊎ ((lt (pos 100) (pos 23) ≡ false)
            × (check_price (bid 1 1) kernel ≡ ok tt)
            × (user_order_count 1 kernel < 1)))
accepted_order = validate-ok (bid 1 1) kernel bid-ok

counted_once :
    user_order_count 1 (validate (bid 1 1) kernel).1
    ≡ user_order_count 1 kernel + counted (validate (bid 1 1) kernel).0
counted_once = validate-counts (bid 1 1) 1 kernel

none_yet : user_order_count 1 kernel ≤ 1
unfolding user_order_count
none_yet = omega arith

flood_limit_example : user_order_count 1 (validate_all (bid 1 1 ∷ bid 2 2 ∷ []) kernel) ≤ 1
flood_limit_example = flood_limit (bid 1 1 ∷ bid 2 2 ∷ []) 1 kernel none_yet

push_all-drain_example :
    drain (PendingBuffer.seal (push_all (bid 1 2 ∷ bid 2 1 ∷ []) (with_capacity 2))).1
    ≡ (ok (bid 1 2 ∷ bid 2 1 ∷ []), record { orders = []; sealed = true; max_orders = 2 })
push_all-drain_example = push_all-drain (bid 1 2 ∷ bid 2 1 ∷ []) 2 (omega arith)

abbrev sealed : PendingBuffer ℤ
sealed = record { orders = bid 1 1 ∷ []; sealed = true; max_orders = 5 }

pushed_when_sealed : push_all (bid 2 2 ∷ []) sealed ≡ sealed
pushed_when_sealed = push_all-sealed (bid 2 2 ∷ []) sealed refl

pushed_past_the_end :
    length (push_all (bid 1 1 ∷ bid 2 2 ∷ []) (with_capacity 1)).orders
    ≤ (push_all (bid 1 1 ∷ bid 2 2 ∷ []) (with_capacity 1)).max_orders
pushed_past_the_end = push_all-IsBounded (bid 1 1 ∷ bid 2 2 ∷ []) (with_capacity 1) (omega arith)

-- a hash function that loses nothing
abbrev same : List ℕ → List ℕ
same bs = bs

abbrev sealer : BatchSealer
sealer = record { node_id = 7 ∷ [] }

sealed_alike :
    BatchSealer.seal same 0 1 (bid 1 2 ∷ bid 2 1 ∷ []) sealer
    ≡ BatchSealer.seal same 0 1 (bid 2 1 ∷ bid 1 2 ∷ []) sealer
sealed_alike = seal_unique same 0 1 sealer (Permᴰ.swap refl refl) ((inr refl, tt), (tt, tt))

-- price 1 and quantity 23 against price 12 and quantity 3
batch_hash_ambiguous_example :
    compute_batch_hash same 1 ((record (bid 1 1) { price = some (pos 1); quantity = pos 23 }) ∷ [])
    ≡ compute_batch_hash same 1
        ((record (bid 1 1) { price = some (pos 12); quantity = pos 3 }) ∷ [])
batch_hash_ambiguous_example =
    batch_hash_ambiguous same 1 [] [] (bid 1 1) (pos 1) (pos 23) (pos 12) (pos 3) refl
