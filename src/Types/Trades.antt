-- ===== src/Types/Trades.antt =====
-- crates/openmatch-types/src/trade.rs.
use openmatch.Base.{ℕ, Bool, true, false}
use openmatch.Types.Ids.{OrderId, UserId, NodeId, TradeId, EpochId, MarketPair}
use openmatch.Types.Orders.{OrderSide}

pub record Trade (D : Type 0) : Type 0 where
  pub id : TradeId
  pub epoch_id : EpochId
  pub market : MarketPair
  pub taker_order_id : OrderId
  pub taker_user_id : UserId
  pub maker_order_id : OrderId
  pub maker_user_id : UserId
  pub price : D
  pub quantity : D
  pub quote_amount : D
  pub taker_side : OrderSide
  pub matcher_node : NodeId
  pub executed_at : ℕ

abbrev pub is_buy : OrderSide → Bool
is_buy OrderSide.buy = true
is_buy OrderSide.sell = false

unfoldable pub taker_is_buyer : {D : Type 0} → Trade D → Bool
taker_is_buyer t = is_buy t.taker_side

unfoldable notional : {D : Type 0} → Trade D → D
notional t = t.quote_amount
