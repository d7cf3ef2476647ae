-- ===== src/Types/Errors.antt =====
-- crates/openmatch-types/src/error.rs. A `reason` is a text in the source; a fixed text is `text`
-- here, and one that is formatted is a constructor over the values that it shows.
use openmatch.Base.{ℕ, String}
use openmatch.Types.Ids.{OrderId, NodeId, SpendRightId, TradeId}
use openmatch.Types.States.{SpendRightState, EpochPhase}

pub data Reason (D : Type 0) : Type 0 where
  text : String → Reason D
  spend_right_not_found : SpendRightId → Reason D
  spend_right_not_active : SpendRightId → SpendRightState → Reason D
  cannot_spend : SpendRightId → SpendRightState → Reason D
  cannot_release : SpendRightId → SpendRightState → Reason D
  order_too_large : D → D → Reason D
  price_deviates : D → D → D → D → Reason D
  supply_differs : String → D → D → D → D → Reason D
  nonce_quota_exceeded : String → ℕ → Reason D
  window_full : ℕ → ℕ → ℕ → Reason D
  price_out_of_range : D → D → D → D → D → Reason D
  asset_differs : String → D → D → D → D → D → Reason D

pub data OpenmatchError (D : Type 0) : Type 0 where
  order_not_found : OrderId → OpenmatchError D
  invalid_order : Reason D → OpenmatchError D
  duplicate_order : OrderId → OpenmatchError D
  order_not_cancellable : OpenmatchError D
  order_limit_exceeded : OpenmatchError D
  insufficient_balance : D → D → OpenmatchError D
  insufficient_frozen : OpenmatchError D
  balance_underflow : OpenmatchError D
  invalid_spend_right : Reason D → OpenmatchError D
  spend_right_expired : OpenmatchError D
  spend_right_signature_invalid : OpenmatchError D
  spend_right_nonce_reused : OpenmatchError D
  wrong_epoch_phase : EpochPhase → EpochPhase → OpenmatchError D
  epoch_timeout : EpochPhase → OpenmatchError D
  buffer_already_sealed : OpenmatchError D
  buffer_full : OpenmatchError D
  matching_failed : Reason D → OpenmatchError D
  determinism_violation : String → String → OpenmatchError D
  self_trade_blocked : OpenmatchError D
  settlement_failed : Reason D → OpenmatchError D
  on_chain_rejected : Reason D → OpenmatchError D
  trade_already_settled : TradeId → OpenmatchError D
  withdraw_locked_during_settle : OpenmatchError D
  rate_limit_exceeded : Reason D → OpenmatchError D
  supply_invariant_violation : Reason D → OpenmatchError D
  nonce_replay : String → ℕ → OpenmatchError D
  order_flood_detected : ℕ → ℕ → OpenmatchError D
  suspicious_price : Reason D → OpenmatchError D
  node_not_found : NodeId → OpenmatchError D
  gossip_error : Reason D → OpenmatchError D
  peer_connection_failed : Reason D → OpenmatchError D
  internal : String → OpenmatchError D
  serialization : String → OpenmatchError D
  configuration : String → OpenmatchError D
  io : String → OpenmatchError D
