-- ===== src/Ingress/PendingBuffer.antt =====
-- crates/openmatch-ingress/src/pending_buffer.rs: the orders of the epoch, until they are sealed.
pub mod Laws
use openmatch.Base.{
  ℕ, List, [], ◌∷◌, ◌++◌, Bool, true, false, not, Result, ok, err, leb, length, if◌then◌else◌,
}
use openmatch.Types.{
  Order, OpenmatchError, Reason, buffer_already_sealed, buffer_full, invalid_order,
  max_orders_per_batch,
}

pub record PendingBuffer (D : Type 0) : Type 0 where
  pub orders : List (Order D)
  pub sealed : Bool
  pub max_orders : ℕ

module _ {D : Type 0} where
  abbrev pub with_capacity : ℕ → PendingBuffer D
  with_capacity n = record { orders = []; sealed = false; max_orders = n }

  -- `PendingBuffer::new`
  abbrev pub new_buffer : PendingBuffer D
  new_buffer = with_capacity max_orders_per_batch

  unfoldable pub push :
      Order D → PendingBuffer D → Result (OpenmatchError D) (Unit {0}) × PendingBuffer D
  push o b =
      if b.sealed
      then (err buffer_already_sealed, b)
      else if leb b.max_orders (length b.orders)
      then (err buffer_full, b)
      else (ok tt, record b { orders = b.orders ++ o ∷ [] })

  unfoldable pub seal : PendingBuffer D → Result (OpenmatchError D) (Unit {0}) × PendingBuffer D
  seal b = if b.sealed then (err buffer_already_sealed, b) else (ok tt, record b { sealed = true })

  unfoldable pub drain :
      PendingBuffer D → Result (OpenmatchError D) (List (Order D)) × PendingBuffer D
  drain b =
      if not b.sealed
      then (err (invalid_order (Reason.text "Cannot drain unsealed buffer")), b)
      else (ok b.orders, record b { orders = [] })

  unfoldable reset : PendingBuffer D → PendingBuffer D
  reset b = record b { orders = []; sealed = false }
