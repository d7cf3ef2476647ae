-- ===== src/Ingress/RiskKernel/Laws.antt =====
-- The checks and the counts of crates/openmatch-ingress/src/risk_kernel.rs.
use openmatch.Base.{
  ℕ, ◌+◌, ◌≤◌, ◌<◌, ◌≡◌, true, false, ◌⊎◌, inl, inr, nat_eq, string_eq, Result, ok, err, leb, ◌==◌,
  if◌then◌else◌, arith, Bool-cases, List, [], ◌∷◌,
}
use openmatch.Decimal.{Decimal, lt, is_zero, is_sign_negative}
use openmatch.Map.{lookup_or, lookup-insert}
use openmatch.Types.{UserId, Order, is_cancel}
use openmatch.Ingress.RiskKernel.{RiskKernel, user_order_count, check_price, count_order, validate}

-- One order more for `u`, where `accepted`.
abbrev pub counted : {E : Type 0} → Result E (Unit {0}) → ℕ
counted (ok u) = 1
counted (err x) = 0

module _ {D : Type 0} ⦃d : Decimal D⦄ where
  -- The count of a user rises by one for an accepted order of that user, and nothing else moves it;
  -- it does not pass the limit.
  count_order-counts :
      (u v : UserId) (k : RiskKernel D)
      → let (r, k') = count_order u k in
        user_order_count v k' ≡ user_order_count v k + (if u == v then counted r else 0)
  unfolding count_order user_order_count
  count_order-counts u v k = ground (
    arith,
    lookup-insert v u (lookup_or 0 u k.epoch_order_counts) k.epoch_order_counts,
    lookup-insert v u (lookup_or 0 u k.epoch_order_counts + 1) k.epoch_order_counts,
  )

  -- An order that `validate` accepts has a positive quantity; unless it is a cancellation, its size is
  -- within the limit, its price has passed the checks, and its user was below the limit of orders.
  pub validate-ok :
      (o : Order D) (k : RiskKernel D)
      → (validate o k).0 ≡ ok tt
      → (is_zero o.quantity ≡ false)
        × (is_sign_negative o.quantity ≡ false)
        × ((is_cancel o.order_type ≡ true)
            ⊎ ((lt k.max_order_size o.quantity ≡ false)
                × (check_price o k ≡ ok tt)
                × (user_order_count o.user_id k < k.max_orders_per_user_per_epoch)))
  unfolding validate count_order user_order_count
  validate-ok o k h = ground arith

  -- After `validate`, each user's count has risen by one if this was an accepted order of that user
  -- other than a cancellation, and is as before otherwise: also for a refused order.
  pub validate-counts :
      (o : Order D) (v : UserId) (k : RiskKernel D)
      → let (r, k') = validate o k in
        user_order_count v k'
        ≡ user_order_count v k
          + (if o.user_id == v then if is_cancel o.order_type then 0 else counted r else 0)
  unfolding validate
  validate-counts o v k = ground (arith, count_order-counts o.user_id v k)

  -- The kernel after a sequence of orders, accepted or not.
  abbrev pub validate_all : List (Order D) → RiskKernel D → RiskKernel D
  validate_all [] k = k
  validate_all (o ∷ os) k = validate_all os (validate o k).1

  validate-limit :
      (o : Order D) (k : RiskKernel D)
      → (validate o k).1.max_orders_per_user_per_epoch ≡ k.max_orders_per_user_per_epoch
  unfolding validate count_order
  validate-limit o k = ground arith

  validate-below :
      (o : Order D) (v : UserId) (k : RiskKernel D)
      → user_order_count v k ≤ k.max_orders_per_user_per_epoch
      → user_order_count v (validate o k).1 ≤ k.max_orders_per_user_per_epoch
  validate-below o v k h =
      elim (Bool-cases (leb k.max_orders_per_user_per_epoch (user_order_count v k))) [
        | inl full ↦ ground (arith, validate-counts o v k, full_refused o v k)
        | inr room ↦ ground (arith, validate-counts o v k)
      ]
    where
      full_refused :
          (o : Order D) (v : UserId) (k : RiskKernel D)
          → ((validate o k).0 ≡ ok tt)
          → (o.user_id == v) ≡ true
          → (is_cancel o.order_type ≡ true)
            ⊎ (user_order_count v k < k.max_orders_per_user_per_epoch)
      full_refused o v k a same = ground (arith, validate-ok o k a)

  -- A user whose count is within the limit stays within it, after any sequence of orders, accepted
  -- or not.
  pub flood_limit :
      (os : List (Order D)) (v : UserId) (k : RiskKernel D)
      → user_order_count v k ≤ k.max_orders_per_user_per_epoch
      → user_order_count v (validate_all os k) ≤ k.max_orders_per_user_per_epoch
  flood_limit [] v k h = h
  flood_limit (o ∷ os) v k h =
      let below : user_order_count v (validate o k).1
          ≤ (validate o k).1.max_orders_per_user_per_epoch =
        omega (arith, validate-limit o k, validate-below o v k h) in
      omega (arith, flood_limit os v (validate o k).1 below, validate-limit o k)
