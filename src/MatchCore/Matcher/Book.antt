-- ===== src/MatchCore/Matcher/Book.antt =====
-- The book that crates/openmatch-matchcore/src/matcher.rs builds from a batch.
use openmatch.Base.{
  ◌≡◌, refl, subst, List, [], ◌∷◌, some, Bool, true, false, All, All-append, All-imp, if◌then◌else◌,
  arith,
}
use openmatch.Decimal.{Decimal, lt, le}
use openmatch.Types.{Order, MarketPair, effective_price, is_cancel}
use openmatch.MatchCore.OrderBook.{
  OrderBook, Levels, new_book, insert_order, best, best_bid, best_ask, level_orders, bid_before,
  ask_before,
}
use openmatch.MatchCore.OrderBook.Placed.{AreInLevel, ArePlaced, insert_order-ArePlaced}
use openmatch.MatchCore.OrderBook.Best.{
  AllKeys, AllKeys-imp, IsOrdered, AreOrdered, insert_order-AreOrdered, ArePriced,
  insert_order-ArePriced,
}
use openmatch.MatchCore.Matcher.{fill_book}

module _ {D : Type 0} ⦃d : Decimal D⦄ (P : OrderBook D → Type 0) where
  -- A cancellation is skipped.
  either : (c : Bool) (b b' : OrderBook D) → P b → P b' → P (if c then b else b')
  either true b b' h h' = h
  either false b b' h h' = h'

  -- What insertions keep, for orders that satisfy `G`, holds of the book at the end.
  fill_book_keeps :
      (G : Order D → Type 0)
      → ((o : Order D) (b : OrderBook D) → G o → P b → P (insert_order o b).1)
      → (os : List (Order D)) (b : OrderBook D) → All G os
      → P b
      → P (fill_book os b)
  unfolding fill_book
  fill_book_keeps G step [] b gs h = h
  fill_book_keeps G step (o ∷ os) b (g, gs) h =
      fill_book_keeps G step os (if is_cancel o.order_type then b else (insert_order o b).1) gs
        (either (is_cancel o.order_type) b (insert_order o b).1 h (step o b g h))

module _ {D : Type 0} ⦃d : Decimal D⦄ where
  pub fill_book-ArePlaced :
      (G : Order D → Type 0) (os : List (Order D)) (b : OrderBook D)
      → All G os
      → ArePlaced G b
      → ArePlaced G (fill_book os b)
  fill_book-ArePlaced G os b gs h =
      fill_book_keeps (ArePlaced G) G (λ o b g k. insert_order-ArePlaced G o b g k) os b gs h

  pub fill_book-ArePriced :
      (P : D → Type 0) (os : List (Order D)) (b : OrderBook D)
      → All (λ o. P (effective_price o)) os
      → ArePriced P b
      → ArePriced P (fill_book os b)
  fill_book-ArePriced P os b gs h =
      fill_book_keeps (ArePriced P) (λ (o : Order D). P (effective_price o))
        (λ o b g k. insert_order-ArePriced P o b g k) os b gs h

  abbrev Any : Order D → Type 0
  Any o = Unit

  All-Any : (os : List (Order D)) → All Any os
  All-Any [] = tt
  All-Any (o ∷ os) = (tt, All-Any os)

  fill_book-AreOrdered :
      (os : List (Order D)) (b : OrderBook D) → AreOrdered b → AreOrdered (fill_book os b)
  fill_book-AreOrdered os b h =
      fill_book_keeps AreOrdered Any (λ o b g k. insert_order-AreOrdered o b k) os b (All-Any os) h

  -- What holds of every key holds of the effective price of every order, if it goes by the units.
  level_orders-All :
      (P Q : D → Type 0)
      → ((p q : D) → d.units p ≡ d.units q → P q → Q p)
      → (G : Order D → Type 0) (m : Levels D) → AllKeys P m
      → AreInLevel G m
      → All (λ o. Q (effective_price o)) (level_orders m)
  level_orders-All P Q same G [] keys h = tt
  level_orders-All P Q same G ((p, l) ∷ m) (here, keys) ((k, os), later) =
      All-append (λ (o : Order D). Q (effective_price o)) l.orders (level_orders m)
        (All-imp (λ (o : Order D) e. same (effective_price o) p e.0 here) l.orders os)
        (level_orders-All P Q same G m keys later)

  best_key :
      (before : D → D → Bool) (p : D) (m : Levels D)
      → IsOrdered before m
      → best m ≡ some p
      → ((q : D) → before q q ≡ false)
      → ((q r : D) → before q r ≡ true → before r q ≡ false)
      → AllKeys (λ q. before q p ≡ false) m
  best_key before p [] h e irrefl asym = tt
  best_key before p ((q, l) ∷ m) (here, later) e irrefl asym =
      let same : q ≡ p = ground arith in
      subst (λ r. (before q r ≡ false) × AllKeys (λ s. before s r ≡ false) m) same
        (irrefl q, AllKeys-imp (λ s. before q s ≡ true) (λ s. before s q ≡ false) (asym q) m here)

  lt_irrefl : (p : D) → lt p p ≡ false
  lt_irrefl p = ground arith

  lt_asym : (p q : D) → lt p q ≡ true → lt q p ≡ false
  lt_asym p q h = ground arith

  -- In the book that the matcher builds from any orders, no bid has an effective price above the best
  -- bid, and no ask has one below the best ask.
  pub fill_book_best :
      (os : List (Order D)) (market : MarketPair)
      → let b = fill_book os (new_book market) in
        ((bid : D)
          → best_bid b ≡ some bid
          → All (λ o. le (effective_price o) bid ≡ true) (level_orders b.bids))
        × ((ask : D)
            → best_ask b ≡ some ask
            → All (λ o. le ask (effective_price o) ≡ true) (level_orders b.asks))
  fill_book_best os market =
      let b = fill_book os (new_book market) in
      let ordered : AreOrdered b = fill_book-AreOrdered os (new_book market) (tt, tt) in
      let placed : ArePlaced Any b =
        fill_book-ArePlaced Any os (new_book market) (All-Any os) (tt, tt) in
      (
        λ bid e.
            level_orders-All (λ q. lt bid q ≡ false) (λ q. le q bid ≡ true)
              (λ q r s h. rw (s, h) refl) _ b.bids
              (best_key bid_before bid b.bids ordered.0 e lt_irrefl (λ q r h. lt_asym r q h))
              placed.0,
        λ ask e.
            level_orders-All (λ q. lt q ask ≡ false) (λ q. le ask q ≡ true)
              (λ q r s h. rw (s, h) refl) _ b.asks
              (best_key ask_before ask b.asks ordered.1 e lt_irrefl lt_asym) placed.1,
      )
