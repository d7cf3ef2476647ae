-- ===== src/MatchCore/OrderBook/Best.antt =====
-- The order of the levels in crates/openmatch-matchcore/src/orderbook.rs.
use openmatch.Base.{
  ◌≡◌, [], ◌∷◌, Option, none, some, Bool, true, Bool-cases, inl, inr, arith, nat_eq,
}
use openmatch.Decimal.{Decimal, lt}
use openmatch.Map
use openmatch.Map.{contains_key}
use openmatch.Types.{Order, OrderSide, effective_price}
use openmatch.MatchCore.PriceLevel.{PriceLevel, push_back, new_level}
use openmatch.MatchCore.OrderBook.{
  OrderBook, Levels, level_at, put_level, push_at, bid_before, ask_before, place, insert_order,
}

module _ {D : Type 0} where
  abbrev pub AllKeys : (D → Type 0) → Levels D → Type 0
  AllKeys P [] = Unit
  AllKeys P ((p, l) ∷ m) = P p × AllKeys P m

  pub AllKeys-imp :
      (P Q : D → Type 0) → ((p : D) → P p → Q p) → (m : Levels D) → AllKeys P m → AllKeys Q m
  AllKeys-imp P Q f [] h = tt
  AllKeys-imp P Q f ((p, l) ∷ m) (here, later) = (f p here, AllKeys-imp P Q f m later)

module _ {D : Type 0} (before : D → D → Bool) where
  -- Each key comes before all later ones.
  abbrev pub IsOrdered : Levels D → Type 0
  IsOrdered [] = Unit
  IsOrdered ((p, l) ∷ m) = AllKeys (λ q. before p q ≡ true) m × IsOrdered m

  put_level-AllKeys :
      (P : D → Type 0) (p : D) (l : PriceLevel D) (m : Levels D)
      → AllKeys P m
      → P p
      → AllKeys P (put_level before p l m)
  unfolding put_level
  put_level-AllKeys P p l [] h k = (k, tt)
  put_level-AllKeys P p l ((q, w) ∷ m) (here, later) k = elim (Bool-cases (before q p)) [
    | inl on ↦ rw on (here, put_level-AllKeys P p l m later k)
    | inr not_after ↦ elim (Bool-cases (before p q)) [
      | inl first ↦ rw (not_after, first) (k, (here, later))
      | inr tied ↦ rw (not_after, tied) (here, later)
    ]
  ]

  push_at-AllKeys :
      (P : D → Type 0) (p : D) (o : Order D) (m : Levels D)
      → AllKeys P m
      → P p
      → AllKeys P (push_at before p o m)
  unfolding push_at
  push_at-AllKeys P p o m h k = at_found (level_at before p m)
    where
      at_found :
          (found : Option (PriceLevel D))
          → AllKeys P (elim found [
            | none ↦ put_level before p (push_back o (new_level p)) m
            | some l ↦ put_level before p (push_back o l) m
          ])
      at_found none = put_level-AllKeys P p (push_back o (new_level p)) m h k
      at_found (some l) = put_level-AllKeys P p (push_back o l) m h k

  module _ (trans : (p q r : D) → before p q ≡ true → before q r ≡ true → before p r ≡ true) where
    put_level-IsOrdered :
        (p : D) (l : PriceLevel D) (m : Levels D) → IsOrdered m → IsOrdered (put_level before p l m)
    unfolding put_level
    put_level-IsOrdered p l [] h = (tt, tt)
    put_level-IsOrdered p l ((q, w) ∷ m) (here, later) = elim (Bool-cases (before q p)) [
      | inl on ↦ rw on (
        put_level-AllKeys (λ r. before q r ≡ true) p l m here on,
        put_level-IsOrdered p l m later,
      )
      | inr not_after ↦ elim (Bool-cases (before p q)) [
        | inl first ↦
            rw (not_after, first)
              (
                (
                  first,
                  AllKeys-imp (λ r. before q r ≡ true) (λ r. before p r ≡ true)
                      (λ r. trans p q r first) m here,
                ),
                (here, later),
              )
        | inr tied ↦ rw (not_after, tied) (here, later)
      ]
    ]

    push_at-IsOrdered :
        (p : D) (o : Order D) (m : Levels D) → IsOrdered m → IsOrdered (push_at before p o m)
    unfolding push_at
    push_at-IsOrdered p o m h = at_found (level_at before p m)
      where
        at_found :
            (found : Option (PriceLevel D))
            → IsOrdered (elim found [
              | none ↦ put_level before p (push_back o (new_level p)) m
              | some l ↦ put_level before p (push_back o l) m
            ])
        at_found none = put_level-IsOrdered p (push_back o (new_level p)) m h
        at_found (some l) = put_level-IsOrdered p (push_back o l) m h

module _ {D : Type 0} ⦃d : Decimal D⦄ where
  lt_trans : (p q r : D) → lt p q ≡ true → lt q r ≡ true → lt p r ≡ true
  lt_trans p q r h k = ground arith

  -- Both sides of a book are ordered.
  abbrev pub AreOrdered : OrderBook D → Type 0
  AreOrdered b = IsOrdered bid_before b.bids × IsOrdered ask_before b.asks

  place-AreOrdered :
      (s : OrderSide) (o : Order D) (b : OrderBook D) → AreOrdered b → AreOrdered (place s o b)
  place-AreOrdered OrderSide.buy o b (hb, ha) = (
    push_at-IsOrdered bid_before (λ p q r h k. lt_trans r q p k h) (effective_price o) o b.bids hb,
    ha,
  )
  place-AreOrdered OrderSide.sell o b (hb, ha) =
      (hb, push_at-IsOrdered ask_before lt_trans (effective_price o) o b.asks ha)

  -- Inserting an order keeps the bids in falling and the asks in rising order of price, whether the
  -- order is accepted or refused.
  pub insert_order-AreOrdered :
      (o : Order D) (b : OrderBook D) → AreOrdered b → AreOrdered (insert_order o b).1
  unfolding insert_order
  insert_order-AreOrdered o b h = elim (Bool-cases (contains_key o.id b.index)) [
    | inl old ↦ rw old h
    | inr new ↦ rw new (
        place-AreOrdered o.side o
          (record b { index = Map.insert o.id (o.side, effective_price o) b.index }) h)
  ]

  -- The price of every level of both sides.
  abbrev pub ArePriced : (D → Type 0) → OrderBook D → Type 0
  ArePriced P b = AllKeys P b.bids × AllKeys P b.asks

  place-ArePriced :
      (P : D → Type 0) (s : OrderSide) (o : Order D) (b : OrderBook D)
      → P (effective_price o)
      → ArePriced P b
      → ArePriced P (place s o b)
  place-ArePriced P OrderSide.buy o b k (hb, ha) =
      (push_at-AllKeys bid_before P (effective_price o) o b.bids hb k, ha)
  place-ArePriced P OrderSide.sell o b k (hb, ha) =
      (hb, push_at-AllKeys ask_before P (effective_price o) o b.asks ha k)

  pub insert_order-ArePriced :
      (P : D → Type 0) (o : Order D) (b : OrderBook D)
      → P (effective_price o)
      → ArePriced P b
      → ArePriced P (insert_order o b).1
  unfolding insert_order
  insert_order-ArePriced P o b k h = elim (Bool-cases (contains_key o.id b.index)) [
    | inl old ↦ rw old h
    | inr new ↦ rw new (
        place-ArePriced P o.side o
          (record b { index = Map.insert o.id (o.side, effective_price o) b.index }) k h)
  ]
