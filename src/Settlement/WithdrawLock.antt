-- ===== src/Settlement/WithdrawLock.antt =====
-- crates/openmatch-settlement/src/withdraw_lock.rs: withdrawals are locked while trades settle.
pub mod Cycle
use openmatch.Base.{Bool, true, false, Result, ok, err, if◌then◌else◌}
use openmatch.Types.{EpochPhase, collect, seal, OpenmatchError, withdraw_locked_during_settle}

pub record WithdrawLock : Type 0 where
  pub current_phase : EpochPhase

abbrev pub new_lock : WithdrawLock
new_lock = record { current_phase = collect }

unfoldable pub set_phase : EpochPhase → WithdrawLock → WithdrawLock
set_phase p l = record l { current_phase = p }

abbrev pub allowed_in : EpochPhase → Bool
allowed_in collect = true
allowed_in seal = true
allowed_in _ = false

unfoldable pub withdrawals_allowed : WithdrawLock → Bool
withdrawals_allowed l = allowed_in l.current_phase

unfoldable pub check_withdraw : {D : Type 0} → WithdrawLock → Result (OpenmatchError D) (Unit {0})
unfolding withdrawals_allowed
check_withdraw l = if withdrawals_allowed l then ok tt else err withdraw_locked_during_settle
