-- ===== src/MatchCore/OrderBook/Index.antt =====
-- The index of the order ids in crates/openmatch-matchcore/src/orderbook.rs.
use openmatch.Base.{
  ◌≡◌, refl, Option, none, some, true, Bool-cases, inl, inr, arith, nat_eq, err, beq_refl,
}
use openmatch.Decimal.{Decimal}
use openmatch.Map
use openmatch.Map.{lookup, contains_key, lookup-insert_self, lookup-remove}
use openmatch.Types.{Order, OrderId, OrderSide, effective_price, duplicate_order, order_not_found}
use openmatch.MatchCore.OrderBook.{OrderBook, place, insert_order, cancel_order}

module _ {D : Type 0} ⦃d : Decimal D⦄ where
  pub place-index : (s : OrderSide) (o : Order D) (b : OrderBook D) → (place s o b).index ≡ b.index
  place-index OrderSide.buy o b = refl
  place-index OrderSide.sell o b = refl

  indexed : (o : Order D) (b : OrderBook D) → contains_key o.id (insert_order o b).1.index ≡ true
  unfolding insert_order
  indexed o b = elim (Bool-cases (contains_key o.id b.index)) [
    | inl old ↦ rw (old, old) refl
    | inr new ↦
        rw
          (
            new,
            place-index o.side o
                (record b { index = Map.insert o.id (o.side, effective_price o) b.index }),
            contains_key,
            lookup-insert_self o.id (o.side, effective_price o) b.index,
          )
          refl
  ]

  pub refused :
      (o : Order D) (b : OrderBook D)
      → contains_key o.id b.index ≡ true
      → insert_order o b ≡ (err (duplicate_order o.id), b)
  unfolding insert_order
  refused o b h = rw h

  -- After an order has been offered to the book, accepted or not, any order of the same id is refused
  -- with `duplicate_order`, and the book is unchanged.
  pub insert_order_once :
      (o o' : Order D) (b : OrderBook D)
      → o'.id ≡ o.id
      → let b' = (insert_order o b).1 in insert_order o' b' ≡ (err (duplicate_order o'.id), b')
  insert_order_once o o' b same = refused o' (insert_order o b).1 (rw same (indexed o b))

  unknown :
      (i : OrderId) (b : OrderBook D)
      → lookup i b.index ≡ none
      → cancel_order i b ≡ (err (order_not_found i), b)
  unfolding cancel_order
  unknown i b h = rw (h, cancel_order)

  removed : (i : OrderId) (b : OrderBook D) → lookup i (Map.remove i b.index) ≡ none
  removed i b = ground (arith, lookup-remove i i b.index, beq_refl i)

  not_indexed :
      (i : OrderId) (b : OrderBook D) (x : Option (OrderSide × D))
      → lookup i b.index ≡ x
      → lookup i (cancel_order i b).1.index ≡ none
  unfolding cancel_order
  not_indexed i b none h = rw (unknown i b h) h
  not_indexed i b (some (OrderSide.buy, p)) h = rw (h, cancel_order) (removed i b)
  not_indexed i b (some (OrderSide.sell, p)) h = rw (h, cancel_order) (removed i b)

  -- After an order has been cancelled, or a cancellation of it has failed, a second cancellation of
  -- the same id fails with `order_not_found`, and the book is unchanged.
  pub cancel_order_once :
      (i : OrderId) (b : OrderBook D)
      → let b' = (cancel_order i b).1 in cancel_order i b' ≡ (err (order_not_found i), b')
  cancel_order_once i b = unknown i (cancel_order i b).1 (not_indexed i b (lookup i b.index) refl)
