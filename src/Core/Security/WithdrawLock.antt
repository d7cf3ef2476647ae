-- ===== src/Core/Security/WithdrawLock.antt =====
-- `WithdrawLock` of crates/openmatch-core/src/security.rs, with the phases that its exhaustive
-- `match` names: crates/openmatch-types has four phases since.
use openmatch.Base.{Bool, false, Result, ok, err, if◌then◌else◌}
use openmatch.Types.{OpenmatchError, withdraw_locked_during_settle}

pub data EpochPhase : Type 0 where
  collect : EpochPhase
  match : EpochPhase
  settle : EpochPhase

pub record WithdrawLock : Type 0 where
  pub current_phase : EpochPhase
  pub emergency_lock : Bool

abbrev pub new_lock : WithdrawLock
new_lock = record { current_phase = collect; emergency_lock = false }

abbrev pub set_phase : EpochPhase → WithdrawLock → WithdrawLock
set_phase phase l = record l { current_phase = phase }

abbrev pub set_emergency_lock : Bool → WithdrawLock → WithdrawLock
set_emergency_lock locked l = record l { emergency_lock = locked }

-- `match self.current_phase { .. }`
abbrev pub allowed_in : {D : Type 0} → EpochPhase → Result (OpenmatchError D) (Unit {0})
allowed_in collect = ok tt
allowed_in match = err withdraw_locked_during_settle
allowed_in settle = err withdraw_locked_during_settle

unfoldable pub check_withdraw_allowed :
    {D : Type 0} → WithdrawLock → Result (OpenmatchError D) (Unit {0})
check_withdraw_allowed l =
    if l.emergency_lock then err withdraw_locked_during_settle else allowed_in l.current_phase
