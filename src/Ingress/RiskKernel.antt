-- ===== src/Ingress/RiskKernel.antt =====
-- crates/openmatch-ingress/src/risk_kernel.rs: the checks that an order passes before the buffer.
pub mod Laws
use openmatch.Base.{
  ℕ, ◌+◌, List, [], ◌∷◌, none, some, Bool, ◌&&◌, ◌||◌, not, String, Eq, nat_eq, string_eq, Result,
  ok, err, and_then, leb, if◌then◌else◌,
}
use openmatch.Decimal.{Decimal, lt, is_zero, is_sign_negative}
use openmatch.Map.{Map, lookup, lookup_or, insert}
use openmatch.Types.{
  UserId, EpochId, Order, MarketPair, symbol, is_cancel, is_limit, OpenmatchError, Reason,
  invalid_order, suspicious_price, order_flood_detected,
}

pub record RiskKernel (D : Type 0) : Type 0 where
  pub max_orders_per_user_per_epoch : ℕ
  pub max_order_size : D
  pub max_price_deviation : D
  pub epoch_order_counts : Map UserId ℕ
  pub current_epoch : EpochId
  pub last_prices : Map String D

module _ {D : Type 0} ⦃d : Decimal D⦄ where
  unfoldable with_limits : ℕ → D → D → RiskKernel D
  with_limits n size deviation = record {
    max_orders_per_user_per_epoch = n;
    max_order_size = size;
    max_price_deviation = deviation;
    epoch_order_counts = [];
    current_epoch = 0;
    last_prices = [];
  }

  -- `RiskKernel::new`
  abbrev default_kernel : RiskKernel D
  default_kernel = with_limits 50 (d.whole 100) (d.whole 10)

  unfoldable advance_epoch : EpochId → RiskKernel D → RiskKernel D
  advance_epoch e k = record k { current_epoch = e; epoch_order_counts = [] }

  unfoldable set_last_price : String → D → RiskKernel D → RiskKernel D
  set_last_price market price k = record k { last_prices = insert market price k.last_prices }

  unfoldable pub user_order_count : UserId → RiskKernel D → ℕ
  user_order_count u k = lookup_or 0 u k.epoch_order_counts

  -- `last_price` to `price` or the other way round, whichever is larger
  abbrev pub deviation_ratio : D → D → D
  deviation_ratio price last = if lt last price then d.div price last else d.div last price

  abbrev compare_with_last : D → D → RiskKernel D → Result (OpenmatchError D) (Unit {0})
  compare_with_last price last k =
      if is_zero last
      then ok tt
      else if lt k.max_price_deviation (deviation_ratio price last)
      then err (
          suspicious_price
            (Reason.price_deviates price (deviation_ratio price last) last k.max_price_deviation))
      else ok tt

  unfoldable pub check_price_deviation :
      String → D → RiskKernel D → Result (OpenmatchError D) (Unit {0})
  check_price_deviation market price k = elim (lookup market k.last_prices) [
    | none ↦ ok tt
    | some last ↦ compare_with_last price last k
  ]

  abbrev check_limit_price : MarketPair → D → RiskKernel D → Result (OpenmatchError D) (Unit {0})
  check_limit_price market price k =
      if is_zero price || is_sign_negative price
      then err (suspicious_price (Reason.text "Price must be positive"))
      else check_price_deviation (symbol market) price k

  -- step 4 of `validate`
  unfoldable pub check_price : Order D → RiskKernel D → Result (OpenmatchError D) (Unit {0})
  check_price o k =
      if is_limit o.order_type
      then elim o.price [ none ↦ ok tt | some price ↦ check_limit_price o.market price k ]
      else ok tt

  -- step 5 of `validate`: `entry(..).or_insert(0)` writes the zero also where the order is refused
  unfoldable pub count_order :
      UserId → RiskKernel D → Result (OpenmatchError D) (Unit {0}) × RiskKernel D
  count_order u k =
      let count = lookup_or 0 u k.epoch_order_counts in
      if leb k.max_orders_per_user_per_epoch count
      then (
        err (order_flood_detected count 0),
        record k { epoch_order_counts = insert u count k.epoch_order_counts },
      )
      else (ok tt, record k { epoch_order_counts = insert u (count + 1) k.epoch_order_counts })

  abbrev after_price :
      Result (OpenmatchError D) (Unit {0})
      → UserId
      → RiskKernel D
      → Result (OpenmatchError D) (Unit {0}) × RiskKernel D
  after_price (ok u) user k = count_order user k
  after_price (err x) user k = (err x, k)

  unfoldable pub validate :
      Order D → RiskKernel D → Result (OpenmatchError D) (Unit {0}) × RiskKernel D
  validate o k =
      if is_zero o.quantity || is_sign_negative o.quantity
      then (err (invalid_order (Reason.text "Quantity must be positive")), k)
      else if is_cancel o.order_type
      then (ok tt, k)
      else if lt k.max_order_size o.quantity
      then (err (invalid_order (Reason.order_too_large o.quantity k.max_order_size)), k)
      else after_price (check_price o k) o.user_id k
