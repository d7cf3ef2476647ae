-- ===== src/Types/Orders.antt =====
-- crates/openmatch-types/src/order.rs. Times are numbers of milliseconds.
use openmatch.Base.{String, ℕ, Bool, true, false, ◌||◌, Option, none, some, if◌then◌else◌}
use openmatch.Decimal.{Decimal, le, is_zero}
use openmatch.Types.Ids.{OrderId, UserId, NodeId, SpendRightId, EpochId, MarketPair}

pub data OrderSide : Type 0 where
  buy : OrderSide
  sell : OrderSide

pub data OrderType : Type 0 where
  limit : OrderType
  market : OrderType
  cancel : OrderType

pub data OrderStatus : Type 0 where
  pending_escrow : OrderStatus
  active : OrderStatus
  partially_filled : OrderStatus
  filled : OrderStatus
  cancelled : OrderStatus
  rejected : OrderStatus
  expired : OrderStatus

-- `Display for OrderSide`, and for the two types above
unfoldable side_text : OrderSide → String
side_text OrderSide.buy = "BUY"
side_text OrderSide.sell = "SELL"

unfoldable type_text : OrderType → String
type_text OrderType.limit = "LIMIT"
type_text OrderType.market = "MARKET"
type_text OrderType.cancel = "CANCEL"

unfoldable status_text : OrderStatus → String
status_text pending_escrow = "PENDING_ESCROW"
status_text active = "ACTIVE"
status_text partially_filled = "PARTIALLY_FILLED"
status_text filled = "FILLED"
status_text cancelled = "CANCELLED"
status_text rejected = "REJECTED"
status_text expired = "EXPIRED"

pub record Order (D : Type 0) : Type 0 where
  pub id : OrderId
  pub user_id : UserId
  pub market : MarketPair
  pub side : OrderSide
  pub order_type : OrderType
  pub status : OrderStatus
  pub price : Option D
  pub quantity : D
  pub remaining_qty : D
  pub sr_id : SpendRightId
  pub epoch_id : Option EpochId
  pub origin_node : NodeId
  pub sequence : ℕ
  pub created_at : ℕ
  pub updated_at : ℕ

abbrev is_market : OrderType → Bool
is_market OrderType.market = true
is_market _ = false

abbrev pub is_cancel : OrderType → Bool
is_cancel OrderType.cancel = true
is_cancel _ = false

abbrev pub is_limit : OrderType → Bool
is_limit OrderType.limit = true
is_limit _ = false

module _ {D : Type 0} ⦃d : Decimal D⦄ where
  abbrev price_of : OrderType → OrderSide → Option D → D
  price_of OrderType.limit s none = d.zero
  price_of OrderType.limit s (some p) = p
  price_of OrderType.market OrderSide.buy p = d.max
  price_of OrderType.market OrderSide.sell p = d.zero
  price_of OrderType.cancel s p = d.zero

  unfoldable pub effective_price : Order D → D
  effective_price o = price_of o.order_type o.side o.price

  unfoldable is_matchable_at : Order D → D → Bool
  unfolding effective_price
  is_matchable_at o price = elim o.side [
    | OrderSide.buy ↦ le price (effective_price o)
    | OrderSide.sell ↦ le (effective_price o) price || is_market o.order_type
  ]

  unfoldable is_filled : Order D → Bool
  is_filled o = is_zero o.remaining_qty

  unfoldable filled_qty : Order D → D
  filled_qty o = d.sub o.quantity o.remaining_qty

  unfoldable fill_ratio : Order D → D
  unfolding filled_qty
  fill_ratio o = if is_zero o.quantity then d.zero else d.div (filled_qty o) o.quantity
