-- ===== src/Core/Security/Secured.antt =====
-- `SecuredBalanceManager` of crates/openmatch-core/src/security.rs: the ledger behind the guards. Its
-- `SettlementIdempotencyGuard` has the code of the guard of crates/openmatch-settlement, but for
-- `new`, which takes any size.
pub mod Conservation
use openmatch.Base.{ℕ, ◌+◌, ◌%◌, ◌^◌, Bool, List, [], ◌∷◌, Result, ok, err, bind, string_eq}
use openmatch.Decimal.{Decimal}
use openmatch.Map.{Map}
use openmatch.Types.{UserId, Asset, TradeId, BalanceEntry, Trade, MarketPair, OpenmatchError}
use openmatch.Accounts.{Accounts}
use openmatch.Settlement.Idempotency
use openmatch.Settlement.Idempotency.{IdempotencyGuard, new_guard}
use openmatch.Core.BalanceManager
use openmatch.Core.Security.SupplyAudit.{
  SupplyConservation, record_deposit, record_withdrawal, verify,
}
use openmatch.Core.Security.WithdrawLock
use openmatch.Core.Security.WithdrawLock.{
  WithdrawLock, EpochPhase, new_lock, check_withdraw_allowed,
}

abbrev SettlementIdempotencyGuard : Type 0
SettlementIdempotencyGuard = IdempotencyGuard

unfoldable pub mark_settled :
    {D : Type 0}
    → TradeId
    → SettlementIdempotencyGuard
    → Result (OpenmatchError D) (Unit {0}) × SettlementIdempotencyGuard
mark_settled {D} id g = Idempotency.mark_settled {D = D} id g

pub record SecuredBalanceManager (D : Type 0) : Type 0 where
  pub inner : Accounts D
  pub settlement_guard : SettlementIdempotencyGuard
  pub withdraw_lock : WithdrawLock
  pub supply_tracker : SupplyConservation D
  pub ops_count : ℕ

abbrev pub Outcome : Type 0 → Type 0
Outcome D = Result (OpenmatchError D) (Unit {0}) × SecuredBalanceManager D

abbrev pub new_secured : {D : Type 0} → ℕ → SecuredBalanceManager D
new_secured size = record {
  inner = [];
  settlement_guard = new_guard size;
  withdraw_lock = new_lock;
  supply_tracker = record { total_deposits = []; total_withdrawals = [] };
  ops_count = 0;
}

-- `self.ops_count += 1; Ok(())`, on a `u64`
abbrev pub count_op : {D : Type 0} → SecuredBalanceManager D → Outcome D
count_op s = (ok tt, record s { ops_count = (s.ops_count + 1) % 2 ^ 64 })

-- `self.inner.<call>(..)?`
abbrev pub on_inner : {D : Type 0} → BalanceManager.Outcome D → SecuredBalanceManager D → Outcome D
on_inner (r, m) s = (r, record s { inner = m })

module _ {D : Type 0} ⦃d : Decimal D⦄ where
  unfoldable pub deposit : UserId → Asset → D → SecuredBalanceManager D → Outcome D
  deposit user asset amount s =
      bind (on_inner (BalanceManager.deposit (user, asset) amount s.inner) s)
        λ u n. count_op (record n { supply_tracker = record_deposit asset amount n.supply_tracker })

  unfoldable pub withdraw : UserId → Asset → D → SecuredBalanceManager D → Outcome D
  withdraw user asset amount s =
      bind (check_withdraw_allowed s.withdraw_lock, s)
        λ u _. bind (on_inner (BalanceManager.withdraw (user, asset) amount s.inner) s) λ v n.
          count_op (record n { supply_tracker = record_withdrawal asset amount n.supply_tracker })

  unfoldable pub freeze : UserId → Asset → D → SecuredBalanceManager D → Outcome D
  freeze user asset amount s =
      bind (on_inner (BalanceManager.freeze (user, asset) amount s.inner) s) λ u n. count_op n

  unfoldable pub unfreeze : UserId → Asset → D → SecuredBalanceManager D → Outcome D
  unfreeze user asset amount s =
      bind (on_inner (BalanceManager.unfreeze (user, asset) amount s.inner) s) λ u n. count_op n

  unfoldable pub settle_trade : Trade D → MarketPair → SecuredBalanceManager D → Outcome D
  settle_trade t market s =
      let (r, guard) = mark_settled {D = D} t.id s.settlement_guard in
      bind (r, record s { settlement_guard = guard })
        λ u n. bind (on_inner (BalanceManager.settle_trade t market n.inner) n) λ v k. count_op k

  abbrev pub set_phase : EpochPhase → SecuredBalanceManager D → SecuredBalanceManager D
  set_phase phase s = record s { withdraw_lock = WithdrawLock.set_phase phase s.withdraw_lock }

  abbrev pub set_emergency_lock : Bool → SecuredBalanceManager D → SecuredBalanceManager D
  set_emergency_lock locked s = record s {
    withdraw_lock = WithdrawLock.set_emergency_lock locked s.withdraw_lock;
  }

  -- the map that the source creates and returns without an entry
  abbrev compute_actual_totals : SecuredBalanceManager D → Map Asset D
  compute_actual_totals s = []

  unfoldable pub verify_supply_conservation :
      SecuredBalanceManager D → Result (OpenmatchError D) (Unit {0})
  verify_supply_conservation s = verify (compute_actual_totals s) s.supply_tracker

-- A call that changes the state.
pub data Call (D : Type 0) : Type 0 where
  deposit_call : UserId → Asset → D → Call D
  withdraw_call : UserId → Asset → D → Call D
  freeze_call : UserId → Asset → D → Call D
  unfreeze_call : UserId → Asset → D → Call D
  settle_call : Trade D → MarketPair → Call D
  phase_call : EpochPhase → Call D
  emergency_call : Bool → Call D

module _ {D : Type 0} ⦃d : Decimal D⦄ where
  unfoldable pub apply : Call D → SecuredBalanceManager D → SecuredBalanceManager D
  apply (deposit_call user asset amount) s = (deposit user asset amount s).1
  apply (withdraw_call user asset amount) s = (withdraw user asset amount s).1
  apply (freeze_call user asset amount) s = (freeze user asset amount s).1
  apply (unfreeze_call user asset amount) s = (unfreeze user asset amount s).1
  apply (settle_call t market) s = (settle_trade t market s).1
  apply (phase_call phase) s = set_phase phase s
  apply (emergency_call locked) s = set_emergency_lock locked s

  unfoldable pub run : List (Call D) → SecuredBalanceManager D → SecuredBalanceManager D
  run [] s = s
  run (c ∷ cs) s = run cs (apply c s)
