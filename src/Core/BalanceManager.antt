-- ===== src/Core/BalanceManager.antt =====
-- crates/openmatch-core/src/balance_manager.rs: the ledger, whose calls refuse amounts that are not
-- positive. `get_mut` creates the entry that it looks for, so a refused call may leave a new entry.
pub mod Solvency
pub mod Supply
pub mod Half
pub mod Settled
use openmatch.Base.{
  ℕ, List, [], ◌∷◌, Eq, nat_eq, string_eq, pair_eq, ◌=?◌, Result, ok, err, bind, length,
  if◌then◌else◌,
}
use openmatch.Decimal.{Decimal, lt, le}
use openmatch.Map.{Map, lookup_or, insert}
use openmatch.Types.{
  UserId, Asset, BalanceEntry, empty_entry, Trade, MarketPair, OrderSide, OpenmatchError, Reason,
  invalid_order, insufficient_balance, insufficient_frozen,
}
use openmatch.Accounts.{
  Key, Accounts, credit, credit_entry, freeze_entry, unfreeze_entry, consume_entry,
}

abbrev pub Outcome : Type 0 → Type 0
Outcome D = Result (OpenmatchError D) (Unit {0}) × Accounts D

-- `match trade.taker_side`: the buyer and the seller
abbrev pub parties : {D : Type 0} → OrderSide → Trade D → UserId × UserId
parties OrderSide.buy t = (t.taker_user_id, t.maker_user_id)
parties OrderSide.sell t = (t.maker_user_id, t.taker_user_id)

module _ {D : Type 0} ⦃d : Decimal D⦄ where
  -- `get`, and the entry behind `get_mut`
  abbrev pub get : Key → Accounts D → BalanceEntry D
  get k m = lookup_or empty_entry k m

  unfoldable pub deposit : Key → D → Accounts D → Outcome D
  deposit k amount m =
      if le amount d.zero
      then (err (invalid_order (Reason.text "Deposit amount must be positive")), m)
      else (ok tt, insert k (credit_entry amount (get k m)) m)

  abbrev pub withdraw_entry : D → BalanceEntry D → BalanceEntry D
  withdraw_entry amount e = record e { available = d.sub e.available amount }

  unfoldable pub withdraw : Key → D → Accounts D → Outcome D
  withdraw k amount m =
      if le amount d.zero
      then (err (invalid_order (Reason.text "Withdraw amount must be positive")), m)
      else let e = get k m in
        if lt e.available amount
        then (err (insufficient_balance amount e.available), insert k e m)
        else (ok tt, insert k (withdraw_entry amount e) m)

  unfoldable pub freeze : Key → D → Accounts D → Outcome D
  freeze k amount m =
      if le amount d.zero
      then (err (invalid_order (Reason.text "Freeze amount must be positive")), m)
      else let e = get k m in
        if lt e.available amount
        then (err (insufficient_balance amount e.available), insert k e m)
        else (ok tt, insert k (freeze_entry amount e) m)

  unfoldable pub unfreeze : Key → D → Accounts D → Outcome D
  unfreeze k amount m =
      if le amount d.zero
      then (err (invalid_order (Reason.text "Unfreeze amount must be positive")), m)
      else let e = get k m in
        if lt e.frozen amount
        then (err insufficient_frozen, insert k e m)
        else (ok tt, insert k (unfreeze_entry amount e) m)

  -- `if entry.frozen < amount { return Err(..) } entry.frozen -= amount`
  unfoldable pub debit_frozen : Key → D → Accounts D → Outcome D
  debit_frozen k amount m =
      let e = get k m in
      if lt e.frozen amount
      then (err insufficient_frozen, insert k e m)
      else (ok tt, insert k (consume_entry amount e) m)

  -- The buyer is credited, and the seller pays and is credited.
  abbrev pub settle_seller : UserId → UserId → Trade D → MarketPair → Accounts D → Outcome D
  settle_seller buyer seller t market m =
      bind
        (debit_frozen (seller, market.base) t.quantity (credit (buyer, market.base) t.quantity m))
        λ u n. (ok tt, credit (seller, market.quote) t.quote_amount n)

  unfoldable pub settle_trade : Trade D → MarketPair → Accounts D → Outcome D
  settle_trade t market m =
      let (buyer, seller) = parties t.taker_side t in
      bind (debit_frozen (buyer, market.quote) t.quote_amount m)
        λ u n. settle_seller buyer seller t market n

  unfoldable user_balances : UserId → Accounts D → Map Asset (BalanceEntry D)
  user_balances user [] = []
  user_balances user ((k, e) ∷ m) =
      let later = user_balances user m in if k.0 =? user then (k.1, e) ∷ later else later

  abbrev entry_count : Accounts D → ℕ
  entry_count m = length m

-- A call that changes the ledger.
pub data Call (D : Type 0) : Type 0 where
  deposit_call : Key → D → Call D
  withdraw_call : Key → D → Call D
  freeze_call : Key → D → Call D
  unfreeze_call : Key → D → Call D
  settle_call : Trade D → MarketPair → Call D

module _ {D : Type 0} ⦃d : Decimal D⦄ where
  -- The ledger that a call leaves, whatever it returns.
  unfoldable pub apply : Call D → Accounts D → Accounts D
  apply (deposit_call k amount) m = (deposit k amount m).1
  apply (withdraw_call k amount) m = (withdraw k amount m).1
  apply (freeze_call k amount) m = (freeze k amount m).1
  apply (unfreeze_call k amount) m = (unfreeze k amount m).1
  apply (settle_call t market) m = (settle_trade t market m).1

  unfoldable pub run : List (Call D) → Accounts D → Accounts D
  run [] m = m
  run (c ∷ cs) m = run cs (apply c m)
