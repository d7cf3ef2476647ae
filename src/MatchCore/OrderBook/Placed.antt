-- ===== src/MatchCore/OrderBook/Placed.antt =====
-- Where crates/openmatch-matchcore/src/orderbook.rs puts an order: its side and its level.
use openmatch.Base.{
  ◌≡◌, refl, sym, [], ◌∷◌, Option, none, some, Bool, false, All, All-append, All-imp, Bool-cases,
  subst, inl, inr, arith, eq_of_parts, nat_eq,
}
use openmatch.Decimal.{Decimal, lt}
use openmatch.Map
use openmatch.Map.{contains_key}
use openmatch.Types.{Order, OrderSide, effective_price}
use openmatch.MatchCore.PriceLevel.{PriceLevel, push_back, new_level}
use openmatch.MatchCore.OrderBook.{
  OrderBook, Levels, level_orders, level_at, put_level, push_at, bid_before, ask_before, place,
  insert_order,
}

module _ {D : Type 0} ⦃d : Decimal D⦄ (G : Order D → Type 0) where
  -- A level under its price, whose orders have that effective price and satisfy `G`.
  abbrev InLevel : D → PriceLevel D → Type 0
  InLevel p l =
      (d.units l.price ≡ d.units p)
      × All (λ o. (d.units (effective_price o) ≡ d.units p) × G o) l.orders

  abbrev pub AreInLevel : Levels D → Type 0
  AreInLevel [] = Unit
  AreInLevel ((p, l) ∷ m) = InLevel p l × AreInLevel m

  moved_key : (p q : D) (l : PriceLevel D) → d.units p ≡ d.units q → InLevel p l → InLevel q l
  moved_key p q l h k =
      subst
        (λ u.
          (d.units l.price ≡ u)
          × All (λ (o : Order D). (d.units (effective_price o) ≡ u) × G o) l.orders)
        h k

  module _ (before : D → D → Bool)
      (tie : (p q : D) → before q p ≡ false → before p q ≡ false → d.units q ≡ d.units p) where
    level_at-InLevel :
        (p : D) (m : Levels D) (l : PriceLevel D)
        → AreInLevel m
        → level_at before p m ≡ some l
        → InLevel p l
    unfolding level_at
    level_at-InLevel p [] l h e = absurd (ground arith)
    level_at-InLevel p ((q, k) ∷ m) l (here, later) e = elim (Bool-cases (before q p)) [
      | inl on ↦ level_at-InLevel p m l later (rw on at e)
      | inr not_after ↦ elim (Bool-cases (before p q)) [
        | inl gone ↦ absurd (ground arith)
        | inr not_before ↦
            let same : some k ≡ some l = rw (not_after, not_before) at e in
            let kl : k ≡ l = cc same in
            moved_key q p l (tie p q not_after not_before) (subst (λ x. InLevel q x) kl here)
      ]
    ]

    put_level-AreInLevel :
        (p : D) (l : PriceLevel D) (m : Levels D)
        → AreInLevel m
        → InLevel p l
        → AreInLevel (put_level before p l m)
    unfolding put_level
    put_level-AreInLevel p l [] h k = (k, tt)
    put_level-AreInLevel p l ((q, w) ∷ m) (here, later) k = elim (Bool-cases (before q p)) [
      | inl on ↦ rw on (here, put_level-AreInLevel p l m later k)
      | inr not_after ↦ elim (Bool-cases (before p q)) [
        | inl first ↦ rw (not_after, first) (k, (here, later))
        | inr not_before ↦
            rw (not_after, not_before)
              (moved_key p q l (sym (tie p q not_after not_before)) k, later)
      ]
    ]

    pushed :
        (p : D) (o : Order D) (m : Levels D) (found : Option (PriceLevel D))
        → d.units (effective_price o) ≡ d.units p
        → G o
        → AreInLevel m
        → ((l : PriceLevel D) → found ≡ some l → InLevel p l)
        → AreInLevel (elim found [
          | none ↦ put_level before p (push_back o (new_level p)) m
          | some l ↦ put_level before p (push_back o l) m
        ])
    pushed p o m none e g h old =
        put_level-AreInLevel p (push_back o (new_level p)) m h (refl, ((e, g), tt))
    pushed p o m (some l) e g h old =
        let (k, os) = old l refl in
        put_level-AreInLevel p (push_back o l) m h (
          k,
          All-append (λ (x : Order D). (d.units (effective_price x) ≡ d.units p) × G x) l.orders
              (o ∷ []) os ((e, g), tt),
        )

    push_at-AreInLevel :
        (p : D) (o : Order D) (m : Levels D)
        → d.units (effective_price o) ≡ d.units p
        → G o
        → AreInLevel m
        → AreInLevel (push_at before p o m)
    unfolding push_at
    push_at-AreInLevel p o m e g h =
        pushed p o m (level_at before p m) e g h (λ l found. level_at-InLevel p m l h found)

module _ {D : Type 0} ⦃d : Decimal D⦄ where
  tie : (p q : D) → lt q p ≡ false → lt p q ≡ false → d.units q ≡ d.units p
  tie p q a b = eq_of_parts (d.units q) (d.units p) (ground arith)

  -- Both sides of a book whose orders all satisfy `G`.
  abbrev pub ArePlaced : (Order D → Type 0) → OrderBook D → Type 0
  ArePlaced G b =
      AreInLevel (λ o. (o.side ≡ OrderSide.buy) × G o) b.bids
      × AreInLevel (λ o. (o.side ≡ OrderSide.sell) × G o) b.asks

  pub AreInLevel-All :
      (G : Order D → Type 0) (m : Levels D) → AreInLevel G m → All G (level_orders m)
  AreInLevel-All G [] h = tt
  AreInLevel-All G ((p, l) ∷ m) ((k, os), later) =
      All-append G l.orders (level_orders m) (All-imp (λ (o : Order D) h. h.1) l.orders os)
        (AreInLevel-All G m later)

  place-ArePlaced :
      (G : Order D → Type 0) (s : OrderSide) (o : Order D) (b : OrderBook D)
      → o.side ≡ s
      → G o
      → ArePlaced G b
      → ArePlaced G (place s o b)
  place-ArePlaced G OrderSide.buy o b same g (hb, ha) = (
    push_at-AreInLevel (λ o. (o.side ≡ OrderSide.buy) × G o) bid_before (λ p q h k. tie p q k h)
        (effective_price o) o b.bids refl (same, g) hb,
    ha,
  )
  place-ArePlaced G OrderSide.sell o b same g (hb, ha) = (
    hb,
    push_at-AreInLevel (λ o. (o.side ≡ OrderSide.sell) × G o) ask_before tie (effective_price o) o
        b.asks refl (same, g) ha,
  )

  pub insert_order-ArePlaced :
      (G : Order D → Type 0) (o : Order D) (b : OrderBook D)
      → G o
      → ArePlaced G b
      → ArePlaced G (insert_order o b).1
  unfolding insert_order
  insert_order-ArePlaced G o b g h = elim (Bool-cases (contains_key o.id b.index)) [
    | inl old ↦ rw old h
    | inr new ↦ rw new (
        place-ArePlaced G o.side o
          (record b { index = Map.insert o.id (o.side, effective_price o) b.index }) refl g h)
  ]
