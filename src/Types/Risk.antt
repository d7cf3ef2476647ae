-- ===== src/Types/Risk.antt =====
-- crates/openmatch-types/src/risk.rs: the limits of a trading agent and the verdicts on its actions. No
-- code of the workspace decides by them yet. A text is the list of its bytes.
use openmatch.Base.{ℕ, suc, List, ◌++◌, String, Bool, false}
use openmatch.Decimal.{Decimal}
use openmatch.Decimal.Whole.{digits}
use openmatch.Types.Ids.{UserId, ascii}
use openmatch.Types.Balances.{Asset}

abbrev AgentId : Type 0
AgentId = ℕ

pub record RiskLimits (D : Type 0) : Type 0 where
  pub max_total_exposure : D
  pub max_asset_exposure : D
  pub max_open_orders : ℕ
  pub max_order_size : D
  pub max_epoch_loss : D
  pub max_daily_loss : D
  pub min_available_reserve : D
  pub max_orders_per_second : ℕ
  pub allow_market_orders : Bool
  pub max_markets : ℕ

abbrev default_risk_limits : {D : Type 0} ⦃d : Decimal D⦄ → RiskLimits D
default_risk_limits ⦃d⦄ = record {
  max_total_exposure = d.whole 10_000;
  max_asset_exposure = d.whole 5_000;
  max_open_orders = 50;
  max_order_size = d.whole 1;
  max_epoch_loss = d.whole 500;
  max_daily_loss = d.whole 2_000;
  min_available_reserve = d.whole 1_000;
  max_orders_per_second = 10;
  allow_market_orders = false;
  max_markets = 3;
}

pub data RiskRejectionReason (D : Type 0) : Type 0 where
  exposure_ceiling_breached : (current requested limit : D) → RiskRejectionReason D
  asset_exposure_breached : Asset → (current requested limit : D) → RiskRejectionReason D
  order_count_exceeded : (current limit : ℕ) → RiskRejectionReason D
  order_too_large : (size limit : D) → RiskRejectionReason D
  epoch_loss_breached : (current_loss limit : D) → RiskRejectionReason D
  daily_loss_breached : (current_loss limit : D) → RiskRejectionReason D
  reserve_violation : (available_after min_reserve : D) → RiskRejectionReason D
  rate_limit_exceeded : (orders_this_second limit : ℕ) → RiskRejectionReason D
  market_orders_disabled : RiskRejectionReason D
  agent_not_active : RiskRejectionReason D
  too_many_markets : (current limit : ℕ) → RiskRejectionReason D

pub data RiskDecision (D : Type 0) : Type 0 where
  approved : RiskDecision D
  rejected : RiskRejectionReason D → RiskDecision D
  agent_paused : String → RiskDecision D
  agent_disabled : String → RiskDecision D

-- `{n}` of an unsigned number
abbrev number_text : ℕ → List ℕ
number_text n = digits (suc n) n

module _ {D : Type 0} ⦃d : Decimal D⦄ where
  -- `Display for RiskRejectionReason`
  unfoldable reason_text : RiskRejectionReason D → List ℕ
  reason_text (exposure_ceiling_breached current requested limit) =
      ascii "Total exposure "
      ++ (d.to_bytes current
          ++ (ascii " + "
              ++ (d.to_bytes requested ++ (ascii " would exceed limit " ++ d.to_bytes limit))))
  reason_text (asset_exposure_breached asset current requested limit) =
      ascii "Asset "
      ++ (ascii asset
          ++ (ascii " exposure "
              ++ (d.to_bytes current
                  ++ (ascii " + "
                      ++ (d.to_bytes requested
                          ++ (ascii " would exceed limit " ++ d.to_bytes limit))))))
  reason_text (order_count_exceeded current limit) =
      ascii "Open order count "
      ++ (number_text current ++ (ascii " at limit " ++ number_text limit))
  reason_text (order_too_large size limit) =
      ascii "Order size " ++ (d.to_bytes size ++ (ascii " exceeds limit " ++ d.to_bytes limit))
  reason_text (epoch_loss_breached current_loss limit) =
      ascii "Epoch loss "
      ++ (d.to_bytes current_loss ++ (ascii " exceeds limit " ++ d.to_bytes limit))
  reason_text (daily_loss_breached current_loss limit) =
      ascii "Daily loss "
      ++ (d.to_bytes current_loss ++ (ascii " exceeds limit " ++ d.to_bytes limit))
  reason_text (reserve_violation available_after min_reserve) =
      ascii "Available balance "
      ++ (d.to_bytes available_after ++ (ascii " would breach reserve " ++ d.to_bytes min_reserve))
  reason_text (rate_limit_exceeded orders_this_second limit) =
      ascii "Rate limit: "
      ++ (number_text orders_this_second ++ (ascii " orders/s exceeds " ++ number_text limit))
  reason_text market_orders_disabled = ascii "Market orders disabled for this agent"
  reason_text agent_not_active = ascii "Agent is paused or disabled"
  reason_text (too_many_markets current limit) =
      ascii "Trading "
      ++ (number_text current ++ (ascii " markets, limit is " ++ number_text limit))

pub record AgentBinding (D : Type 0) : Type 0 where
  pub agent_id : AgentId
  pub user_id : UserId
  pub limits : RiskLimits D
  pub active : Bool
  pub name : String
