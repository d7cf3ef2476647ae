-- ===== src/MatchCore/Matcher/Totals.antt =====
-- Sums over the orders of the book that crates/openmatch-matchcore/src/matcher.rs builds from a batch.
use openmatch.Base.{
  ◌≡◌, refl, List, [], ◌∷◌, ◌++◌, Option, none, some, Bool, true, false, ℤ, pos, ◌+ℤ◌, ◌≤ℤ◌,
  int_laws, parts, if◌then◌else◌, Bool-cases, inl, inr, All, All-split, sum_of, sum_of-append,
  sum_of-nonneg, nat_eq, arith,
}
use openmatch.Decimal.{Decimal}
use openmatch.Sort.{insert_sorted, sort_by}
use openmatch.Types.{Order, OrderSide, effective_price, is_cancel}
use openmatch.Map
use openmatch.Map.{contains_key}
use openmatch.MatchCore.PriceLevel.{PriceLevel, new_level, push_back}
use openmatch.MatchCore.OrderBook.{
  OrderBook, Levels, level_at, put_level, push_at, level_orders, place, insert_order, bid_before,
  ask_before,
}
use openmatch.MatchCore.Matcher.{fill_book, orders_where}

-- Sorting keeps the sum.
module _ {A : Type 0} (before : A → A → Bool) (g : A → ℤ) where
  sum_of-insert_sorted :
      (x : A) (xs : List A) → sum_of g (insert_sorted before x xs) ≡ g x +ℤ sum_of g xs
  sum_of-insert_sorted x [] = refl
  sum_of-insert_sorted x (y ∷ ys) = elim (Bool-cases (before y x)) [
    | inl on ↦ rw on (omega (int_laws, parts (sum_of-insert_sorted x ys)))
    | inr here ↦ rw here refl
  ]

  pub sum_of-sort_by : (xs : List A) → sum_of g (sort_by before xs) ≡ sum_of g xs
  unfolding sort_by
  sum_of-sort_by [] = refl
  sum_of-sort_by (x ∷ xs) =
      omega
        (int_laws, parts (sum_of-insert_sorted x (sort_by before xs)), parts (sum_of-sort_by xs))

module _ {D : Type 0} (g : Order D → ℤ) where
  -- What the orders of a level add to the sum.
  abbrev level_sum : Option (PriceLevel D) → ℤ
  level_sum none = pos 0
  level_sum (some l) = sum_of g l.orders

  module _ (before : D → D → Bool) where
    sum_of-put_level :
        (p : D) (l : PriceLevel D) (m : Levels D)
        → sum_of g (level_orders (put_level before p l m)) +ℤ level_sum (level_at before p m)
          ≡ sum_of g l.orders +ℤ sum_of g (level_orders m)
    unfolding put_level level_at
    sum_of-put_level p l [] = omega (int_laws, parts (sum_of-append g l.orders []))
    sum_of-put_level p l ((q, k) ∷ m) = elim (Bool-cases (before q p)) [
      | inl on ↦ rw on (
          omega (
            int_laws,
            parts (sum_of-append g k.orders (level_orders (put_level before p l m))),
            parts (sum_of-append g k.orders (level_orders m)),
            parts (sum_of-put_level p l m),
          ))
      | inr not_after ↦ elim (Bool-cases (before p q)) [
        | inl first ↦
            rw (not_after, first)
              (omega (int_laws, parts (sum_of-append g l.orders (k.orders ++ level_orders m))))
        | inr not_before ↦
            rw (not_after, not_before)
              (omega (
                int_laws,
                parts (sum_of-append g l.orders (level_orders m)),
                parts (sum_of-append g k.orders (level_orders m)),
              ))
      ]
    ]

    pushed :
        (p : D) (o : Order D) (m : Levels D) (found : Option (PriceLevel D))
        → level_at before p m ≡ found
        → sum_of g (
            level_orders (elim found [
              | none ↦ put_level before p (push_back o (new_level p)) m
              | some l ↦ put_level before p (push_back o l) m
            ]))
          ≡ g o +ℤ sum_of g (level_orders m)
    pushed p o m none e =
        omega (int_laws, parts (rw e at (sum_of-put_level p (push_back o (new_level p)) m)))
    pushed p o m (some l) e = omega (
      int_laws,
      parts (rw e at (sum_of-put_level p (push_back o l) m)),
      parts (sum_of-append g l.orders (o ∷ [])),
    )

    sum_of-push_at :
        (p : D) (o : Order D) (m : Levels D)
        → sum_of g (level_orders (push_at before p o m)) ≡ g o +ℤ sum_of g (level_orders m)
    unfolding push_at
    sum_of-push_at p o m = pushed p o m (level_at before p m) refl

module _ {D : Type 0} ⦃d : Decimal D⦄ (g : Order D → ℤ) where
  pub sum_of-orders_where :
      (crosses : D → Bool) (m : Levels D)
      → All (λ o. pos 0 ≤ℤ g o) (level_orders m)
      → sum_of g (orders_where crosses m) ≤ℤ sum_of g (level_orders m)
  sum_of-orders_where crosses [] h = omega arith
  sum_of-orders_where crosses ((p, l) ∷ m) h =
      let (here, later) = All-split (λ (o : Order D). pos 0 ≤ℤ g o) l.orders (level_orders m) h in
      elim (Bool-cases (crosses l.price)) [
        | inl on ↦ rw on (
            omega (
              int_laws,
              parts (sum_of-append g l.orders (orders_where crosses m)),
              parts (sum_of-append g l.orders (level_orders m)),
              sum_of-orders_where crosses m later,
            ))
        | inr off ↦ rw off (
            omega (
              int_laws,
              parts (sum_of-append g l.orders (level_orders m)),
              sum_of-nonneg g l.orders here,
              sum_of-orders_where crosses m later,
            ))
      ]

-- `g` of the bids and `h` of the asks.
module _ {D : Type 0} ⦃d : Decimal D⦄ (g h : Order D → ℤ) where
  abbrev pub by_side : OrderSide → Order D → ℤ
  by_side OrderSide.buy o = g o
  by_side OrderSide.sell o = h o

  abbrev pub book_sum : OrderBook D → ℤ
  book_sum b = sum_of g (level_orders b.bids) +ℤ sum_of h (level_orders b.asks)

  pub place_sum :
      (s : OrderSide) (o : Order D) (b : OrderBook D)
      → book_sum (place s o b) ≡ by_side s o +ℤ book_sum b
  place_sum OrderSide.buy o b =
      omega (int_laws, parts (sum_of-push_at g bid_before (effective_price o) o b.bids))
  place_sum OrderSide.sell o b =
      omega (int_laws, parts (sum_of-push_at h ask_before (effective_price o) o b.asks))

  insert_order_sum :
      (o : Order D) (b : OrderBook D)
      → pos 0 ≤ℤ by_side o.side o
      → book_sum (insert_order o b).1 ≤ℤ by_side o.side o +ℤ book_sum b
  unfolding insert_order
  insert_order_sum o b k = elim (Bool-cases (contains_key o.id b.index)) [
    | inl old ↦ rw old (omega int_laws)
    | inr new ↦ rw new (
        omega (
          int_laws,
          parts (
              place_sum o.side o
                (record b { index = Map.insert o.id (o.side, effective_price o) b.index })),
        ))
  ]

  unless_skipped :
      (skip : Bool) (o : Order D) (b : OrderBook D)
      → pos 0 ≤ℤ by_side o.side o
      → book_sum (if skip then b else (insert_order o b).1) ≤ℤ by_side o.side o +ℤ book_sum b
  unless_skipped true o b k = omega int_laws
  unless_skipped false o b k = insert_order_sum o b k

  -- The book holds no more than the orders of the batch.
  pub fill_book_sum :
      (os : List (Order D)) (b : OrderBook D)
      → All (λ o. pos 0 ≤ℤ by_side o.side o) os
      → book_sum (fill_book os b) ≤ℤ sum_of (λ o. by_side o.side o) os +ℤ book_sum b
  unfolding fill_book
  fill_book_sum [] b k = omega int_laws
  fill_book_sum (o ∷ os) b (here, later) = omega (
    int_laws,
    fill_book_sum os (if is_cancel o.order_type then b else (insert_order o b).1) later,
    unless_skipped (is_cancel o.order_type) o b here,
  )
