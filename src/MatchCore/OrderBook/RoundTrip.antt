-- ===== src/MatchCore/OrderBook/RoundTrip.antt =====
-- An insertion and its cancellation in crates/openmatch-matchcore/src/orderbook.rs.
use openmatch.Base.{
  ◌≡◌, refl, ap, List, [], ◌∷◌, ◌++◌, Option, none, some, Bool, false, ok, arith, Bool-cases, inl,
  inr, nat_eq, ◌==◌,
}
use openmatch.Decimal.{Decimal, lt}
use openmatch.Map
use openmatch.Map.{Map, lookup, contains_key, lookup-insert, lookup-insert_self}
use openmatch.Types.{Order, OrderId, OrderSide, effective_price}
use openmatch.MatchCore.PriceLevel.{PriceLevel, new_level, push_back, take_order, remove_order}
use openmatch.MatchCore.OrderBook.Fresh.{IsFresh, HasNo, level_at-HasNo, push_at-HasNo}
use openmatch.MatchCore.OrderBook.Index.{place-index, refused}
use openmatch.MatchCore.OrderBook.{
  OrderBook, Levels, level_at, put_level, drop_level, push_at, cancel_at, bid_before, ask_before,
  place, insert_order, cancel_order,
}

remove-insert :
    {V : Type 0} (i : OrderId) (v : V) (m : Map OrderId V)
    → lookup i m ≡ none
    → Map.remove i (Map.insert i v m) ≡ m
unfolding Map.remove Map.insert
remove-insert i v [] h = ground arith
remove-insert i v ((j, w) ∷ m) h = ground (arith, remove-insert i v m)

module _ {D : Type 0} where
  take_order-last :
      (o : Order D) (os : List (Order D))
      → IsFresh o.id os
      → take_order o.id (os ++ o ∷ []) ≡ some (o, os)
  unfolding take_order
  take_order-last o [] h = ground arith
  take_order-last o (x ∷ os) h = ground (arith, take_order-last o os)

  remove_order-last :
      (o : Order D) (l : PriceLevel D)
      → IsFresh o.id l.orders
      → remove_order o.id (push_back o l) ≡ (some o, l)
  unfolding remove_order
  remove_order-last o l h = rw (remove_order, take_order-last o l.orders h)

module _ {D : Type 0} (before : D → D → Bool) (irrefl : (p : D) → before p p ≡ false) where
  level_at-put_level :
      (p : D) (l : PriceLevel D) (m : Levels D)
      → level_at before p (put_level before p l m) ≡ some l
  unfolding level_at put_level
  level_at-put_level p l [] = rw (irrefl p)
  level_at-put_level p l ((q, k) ∷ m) = ground (arith, irrefl p, level_at-put_level p l m)

  drop_level-put_level :
      (p : D) (l : PriceLevel D) (m : Levels D)
      → level_at before p m ≡ none
      → drop_level before p (put_level before p l m) ≡ m
  unfolding level_at put_level drop_level
  drop_level-put_level p l [] h = rw (irrefl p)
  drop_level-put_level p l ((q, k) ∷ m) h = ground (arith, irrefl p, drop_level-put_level p l m)

  put_level-put_level :
      (p : D) (l k : PriceLevel D) (m : Levels D)
      → level_at before p m ≡ some l
      → put_level before p l (put_level before p k m) ≡ m
  unfolding level_at put_level
  put_level-put_level p l k [] h = cc
  put_level-put_level p l k ((q, j) ∷ m) h = ground (arith, irrefl p, put_level-put_level p l k m)

  -- The first order of a level, and the last: cancelling undoes the push.
  cancel_at-push_at :
      (p : D) (o : Order D) (m : Levels D)
      → HasNo o.id m
      → cancel_at before o.id p (push_at before p o m) ≡ (ok o, m)
  unfolding cancel_at push_at
  cancel_at-push_at p o m h = go (level_at before p m) refl
    where
      go :
          (found : Option (PriceLevel D))
          → level_at before p m ≡ found
          → cancel_at before o.id p (elim found [
            | none ↦ put_level before p (push_back o (new_level p)) m
            | some l ↦ put_level before p (push_back o l) m
          ])
            ≡ (ok o, m)
      go none e =
          rw
            (
              cancel_at,
              level_at-put_level p (push_back o (new_level p)) m,
              remove_order-last o (new_level p) tt,
            )
            (rw (remove_order-last o (new_level p) tt)
              (ap (λ n. (ok o, n)) (drop_level-put_level p (push_back o (new_level p)) m e)))
      go (some l) e =
          let (fresh, kept) = level_at-HasNo before o.id p l m h e in
          rw (cancel_at, level_at-put_level p (push_back o l) m, remove_order-last o l fresh)
            (rw (remove_order-last o l fresh, kept)
              (ap (λ n. (ok o, n)) (put_level-put_level p l (push_back o l) m e)))

module _ {D : Type 0} ⦃d : Decimal D⦄ where
  lt_irrefl : (p : D) → lt p p ≡ false
  lt_irrefl p = ground arith

  inserted :
      (o : Order D) (b : OrderBook D)
      → contains_key o.id b.index ≡ false
      → (insert_order o b).1
        ≡ place o.side o (record b { index = Map.insert o.id (o.side, effective_price o) b.index })
  unfolding insert_order
  inserted o b new = rw (insert_order, new)

  cancel_placed :
      (s : OrderSide) (o : Order D) (b : OrderBook D)
      → lookup o.id b.index ≡ none
      → HasNo o.id b.bids
      → HasNo o.id b.asks
      → cancel_order o.id
          (place s o (record b { index = Map.insert o.id (s, effective_price o) b.index }))
        ≡ (ok o, b)
  unfolding cancel_order
  cancel_placed OrderSide.buy o b new hb ha = rw (
    cancel_order,
    lookup-insert_self o.id (OrderSide.buy, effective_price o) b.index,
    cancel_at-push_at bid_before lt_irrefl (effective_price o) o b.bids hb,
    remove-insert o.id (OrderSide.buy, effective_price o) b.index new,
  )
  cancel_placed OrderSide.sell o b new hb ha = rw (
    cancel_order,
    lookup-insert_self o.id (OrderSide.sell, effective_price o) b.index,
    cancel_at-push_at ask_before lt_irrefl (effective_price o) o b.asks ha,
    remove-insert o.id (OrderSide.sell, effective_price o) b.index new,
  )

  -- An id that the index does not have is in no level, and no level is empty.
  abbrev IsIndexed : OrderBook D → Type 0
  IsIndexed b = (i : OrderId) → lookup i b.index ≡ none → HasNo i b.bids × HasNo i b.asks

  -- Cancelling an order that was just inserted, under an id that the index did not have, returns that
  -- order and gives back the very book, if an id that is not in the index is in no level and no level
  -- is empty.
  pub insert-cancel_order :
      (o : Order D) (b : OrderBook D)
      → IsIndexed b
      → contains_key o.id b.index ≡ false
      → cancel_order o.id (insert_order o b).1 ≡ (ok o, b)
  insert-cancel_order o b indexed new =
      let absent : lookup o.id b.index ≡ none = ground arith in
      let (hb, ha) = indexed o.id absent in
      rw (inserted o b new) (cancel_placed o.side o b absent hb ha)

  place-HasNo :
      (s : OrderSide) (i : OrderId) (o : Order D) (b : OrderBook D)
      → (o.id == i) ≡ false
      → HasNo i b.bids × HasNo i b.asks
      → HasNo i (place s o b).bids × HasNo i (place s o b).asks
  place-HasNo OrderSide.buy i o b other (hb, ha) =
      (push_at-HasNo bid_before i (effective_price o) o b.bids other hb, ha)
  place-HasNo OrderSide.sell i o b other (hb, ha) =
      (hb, push_at-HasNo ask_before i (effective_price o) o b.asks other ha)

  -- Insertions keep the index in step with the levels.
  pub insert_order-IsIndexed :
      (o : Order D) (b : OrderBook D) → IsIndexed b → IsIndexed (insert_order o b).1
  insert_order-IsIndexed o b indexed = elim (Bool-cases (contains_key o.id b.index)) [
    | inl old ↦ rw (refused o b old) indexed
    | inr new ↦ rw (inserted o b new) λ i absent.
        let index = Map.insert o.id (o.side, effective_price o) b.index in
        let gone : lookup i index ≡ none =
          rw (place-index o.side o (record b { index = index })) at absent in
        place-HasNo o.side i o (record b { index = index })
          (ground (arith, lookup-insert i o.id (o.side, effective_price o) b.index))
          (indexed i (ground (arith, lookup-insert i o.id (o.side, effective_price o) b.index)))
  ]
