-- ===== src/Types/States.antt =====
-- The two enums of crates/openmatch-types that errors name: the life cycle of a spend right
-- (src/spend_right.rs) and the phases of an epoch (src/epoch.rs).

pub data SpendRightState : Type 0 where
  active : SpendRightState
  spent : SpendRightState
  released : SpendRightState

pub data EpochPhase : Type 0 where
  collect : EpochPhase
  seal : EpochPhase
  match : EpochPhase
  finalize : EpochPhase
