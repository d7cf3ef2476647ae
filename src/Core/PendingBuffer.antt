-- ===== src/Core/PendingBuffer.antt =====
-- crates/openmatch-core/src/pending_buffer.rs: the orders of a batch, until they are sorted and hashed.
-- The hash function of the crate `sha2` is the parameter `sha256`.
pub mod Laws
use openmatch.Base.{
  ℕ, ◌+◌, ◌%◌, ◌^◌, List, [], ◌∷◌, ◌++◌, Option, none, some, Bool, true, false, not, ◌||◌, ◌&&◌,
  ltb, leb, length, Result, ok, err, if◌then◌else◌,
}
use openmatch.Decimal.{Decimal, lt, eq}
use openmatch.Sort.{sort_by}
use openmatch.Types.{
  Order, OrderSide, EpochId, effective_price, OpenmatchError, Reason, buffer_already_sealed,
  buffer_full, matching_failed, max_orders_per_batch, uuid_bytes, to_le_bytes, ascii,
}

pub record PendingBuffer (D : Type 0) : Type 0 where
  pub orders : List (Order D)
  pub sequence_counter : ℕ
  pub sealed : Bool
  pub batch_hash : Option (List ℕ)
  pub batch_id : EpochId

abbrev pub side_byte : OrderSide → ℕ
side_byte OrderSide.buy = 0
side_byte OrderSide.sell = 1

module _ {D : Type 0} ⦃d : Decimal D⦄ where
  abbrev pub new_buffer : EpochId → PendingBuffer D
  new_buffer batch_id = record {
    orders = [];
    sequence_counter = 0;
    sealed = false;
    batch_hash = none;
    batch_id = batch_id;
  }

  unfoldable pub push : Order D → PendingBuffer D → Result (OpenmatchError D) ℕ × PendingBuffer D
  push o b =
      if b.sealed
      then (err buffer_already_sealed, b)
      else if leb max_orders_per_batch (length b.orders)
      then (err buffer_full, b)
      else let seq = b.sequence_counter in
        (
          ok seq,
          record b {
            orders = b.orders ++ record o { sequence = seq; epoch_id = some b.batch_id } ∷ [];
            sequence_counter = (seq + 1) % 2 ^ 64;
          },
        )

  -- `cmp` of two prices, then of two sequences, is `Less`
  abbrev price_then_time : D → D → Order D → Order D → Bool
  price_then_time p q a b = lt p q || (eq p q && ltb a.sequence b.sequence)

  -- Of two orders on one side: the higher price first on the buy side, the lower on the sell side.
  abbrev pub buy_before : Order D → Order D → Bool
  buy_before a b = price_then_time (effective_price b) (effective_price a) a b

  abbrev pub sell_before : Order D → Order D → Bool
  sell_before a b = price_then_time (effective_price a) (effective_price b) a b

  abbrev pub on_sides : OrderSide → OrderSide → Order D → Order D → Bool
  on_sides OrderSide.buy OrderSide.buy a b = buy_before a b
  on_sides OrderSide.buy OrderSide.sell a b = true
  on_sides OrderSide.sell OrderSide.buy a b = false
  on_sides OrderSide.sell OrderSide.sell a b = sell_before a b

  -- The order of `seal`.
  abbrev pub comes_before : Order D → Order D → Bool
  comes_before a b = on_sides a.side b.side a b

  abbrev pub order_bytes : Order D → List ℕ
  order_bytes o =
      uuid_bytes o.id
      ++ (to_le_bytes 8 o.sequence
          ++ (d.to_bytes (effective_price o)
              ++ (d.to_bytes o.remaining_qty ++ side_byte o.side ∷ [])))

  abbrev pub orders_bytes : List (Order D) → List ℕ
  orders_bytes [] = []
  orders_bytes (o ∷ os) = order_bytes o ++ orders_bytes os

  unfoldable pub hash_of : (List ℕ → List ℕ) → EpochId → List (Order D) → List ℕ
  hash_of sha256 batch_id orders = sha256 (
      ascii "openmatch:batch:v1:"
      ++ (to_le_bytes 8 batch_id ++ (to_le_bytes 8 (length orders) ++ orders_bytes orders)))

  unfoldable pub seal :
      (List ℕ → List ℕ) → PendingBuffer D → Result (OpenmatchError D) (List ℕ) × PendingBuffer D
  seal sha256 b =
      if b.sealed
      then (err buffer_already_sealed, b)
      else let sorted = sort_by comes_before b.orders in
        let hash = hash_of sha256 b.batch_id sorted in
        (ok hash, record b { orders = sorted; sealed = true; batch_hash = some hash })

  -- Nothing where `unwrap` panics.
  unfoldable pub take_orders :
      PendingBuffer D → Option (Result (OpenmatchError D) (List (Order D) × List ℕ))
  take_orders b =
      if not b.sealed
      then some (err (matching_failed (Reason.text "Cannot take orders from unsealed buffer")))
      else elim b.batch_hash [ none ↦ none | some hash ↦ some (ok (b.orders, hash)) ]
