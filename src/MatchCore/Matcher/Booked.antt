-- ===== src/MatchCore/Matcher/Booked.antt =====
-- Which orders of a batch get into the book of crates/openmatch-matchcore/src/matcher.rs.
use openmatch.Base.{
  ◌≡◌, refl, List, [], ◌∷◌, ◌++◌, Bool, true, false, any, ◌||◌, ◌==◌, ℤ, pos, ◌+ℤ◌, ◌≤ℤ◌, ◌<ℤ◌,
  int_laws, parts, All, All-any, subst, sum_of, sum_of-append, sum_of-nonneg, if◌then◌else◌,
  Bool-cases, inl, inr, arith, nat_eq, beq_refl,
}
use openmatch.Decimal.{Decimal}
use openmatch.Types.{Order, OrderId, OrderSide, is_cancel, effective_price}
use openmatch.Map
use openmatch.Map.{contains_key, lookup-insert}
use openmatch.MatchCore.OrderBook.{OrderBook, insert_order, level_orders, drain_all, place}
use openmatch.MatchCore.Matcher.{fill_book}
use openmatch.MatchCore.Matcher.Totals.{by_side, book_sum, place_sum}

module _ {D : Type 0} ⦃d : Decimal D⦄ where
  abbrev pub has_id : OrderId → Order D → Bool
  has_id i o = o.id == i

  -- 1 for an order of the id.
  abbrev one_of : OrderId → Order D → ℤ
  one_of i o = if o.id == i then pos 1 else pos 0

  abbrev count_in : OrderId → OrderBook D → ℤ
  count_in i b = book_sum (one_of i) (one_of i) b

  any_of_count :
      (i : OrderId) (os : List (Order D)) → pos 0 <ℤ sum_of (one_of i) os → any (has_id i) os ≡ true
  any_of_count i [] h = absurd (omega arith)
  any_of_count i (o ∷ os) h = elim (Bool-cases (o.id == i)) [
    | inl same ↦ rw same refl
    | inr other ↦
        let later : pos 0 <ℤ pos 0 +ℤ sum_of (one_of i) os = rw other at h in
        rw other (any_of_count i os (omega (int_laws, later)))
  ]

  -- Every id of the index is in the book.
  abbrev pub IsCovered : OrderBook D → Type 0
  IsCovered b = (i : OrderId) → contains_key i b.index ≡ true → pos 0 <ℤ count_in i b

  by_side_same :
      (i : OrderId) (s : OrderSide) (o : Order D) → by_side (one_of i) (one_of i) s o ≡ one_of i o
  by_side_same i OrderSide.buy o = refl
  by_side_same i OrderSide.sell o = refl

  place-index : (s : OrderSide) (o : Order D) (b : OrderBook D) → (place s o b).index ≡ b.index
  place-index OrderSide.buy o b = refl
  place-index OrderSide.sell o b = refl

  one_of-nonneg : (i : OrderId) (o : Order D) → pos 0 ≤ℤ one_of i o
  one_of-nonneg i o = ground arith

  -- The insertion of an order under a new id.
  abbrev inserted : Order D → OrderBook D → OrderBook D
  inserted o b =
      place o.side o (record b { index = Map.insert o.id (o.side, effective_price o) b.index })

  count_in-inserted :
      (i : OrderId) (o : Order D) (b : OrderBook D)
      → count_in i (inserted o b) ≡ one_of i o +ℤ count_in i b
  count_in-inserted i o b = omega (
    int_laws,
    parts (
        place_sum (one_of i) (one_of i) o.side o
          (record b { index = Map.insert o.id (o.side, effective_price o) b.index })),
    parts (by_side_same i o.side o),
  )

  count_in-nonneg : (i : OrderId) (b : OrderBook D) → pos 0 ≤ℤ count_in i b
  count_in-nonneg i b =
      let each = λ (os : List (Order D)).
        sum_of-nonneg (one_of i) os (All-any (λ o. pos 0 ≤ℤ one_of i o) (one_of-nonneg i) os) in
      omega (int_laws, each (level_orders b.bids), each (level_orders b.asks))

  count_in-grows :
      (i : OrderId) (o : Order D) (b : OrderBook D) → count_in i b ≤ℤ count_in i (inserted o b)
  count_in-grows i o b = omega (int_laws, parts (count_in-inserted i o b), one_of-nonneg i o)

  count_in-new : (o : Order D) (b : OrderBook D) → pos 0 <ℤ count_in o.id (inserted o b)
  count_in-new o b =
      let own : one_of o.id o ≡ pos 1 = rw (beq_refl o.id) refl in
      omega (int_laws, parts (count_in-inserted o.id o b), parts own, count_in-nonneg o.id b)

  inserted-IsCovered : (o : Order D) (b : OrderBook D) → IsCovered b → IsCovered (inserted o b)
  inserted-IsCovered o b h i k = elim (Bool-cases (o.id == i)) [
    | inl same ↦
        subst (λ j. pos 0 <ℤ count_in j (inserted o b)) ((nat_eq.beq_iff o.id i).0 same)
          (count_in-new o b)
    | inr other ↦
        let entry : OrderSide × D = (o.side, effective_price o) in
        let index = place-index o.side o (record b { index = Map.insert o.id entry b.index }) in
        let old : contains_key i b.index ≡ true =
          ground (arith, lookup-insert i o.id entry b.index, rw index at k) in
        omega (int_laws, h i old, count_in-grows i o b)
  ]

  insert_order_counts :
      (o : Order D) (b : OrderBook D)
      → IsCovered b
      → let b' = (insert_order o b).1 in
        IsCovered b' × (pos 0 <ℤ count_in o.id b') × ((i : OrderId) → count_in i b ≤ℤ count_in i b')
  unfolding insert_order
  insert_order_counts o b h = elim (Bool-cases (contains_key o.id b.index)) [
    | inl old ↦ rw old (h, h o.id old, λ i. omega arith)
    | inr new ↦ rw new (inserted-IsCovered o b h, count_in-new o b, λ i. count_in-grows i o b)
  ]

  -- An order is a cancellation, or its id is in the book.
  abbrev pub is_booked : OrderBook D → Order D → Bool
  is_booked b o = is_cancel o.order_type || any (has_id o.id) (drain_all b).0

  count_in-booked :
      (b : OrderBook D) (o : Order D) → pos 0 <ℤ count_in o.id b → is_booked b o ≡ true
  unfolding drain_all
  count_in-booked b o h =
      let there = any_of_count o.id (level_orders b.bids ++ level_orders b.asks) (
        omega (
          int_laws,
          parts (sum_of-append (one_of o.id) (level_orders b.bids) (level_orders b.asks)),
        )) in
      ground arith

  -- The orders go into a book that loses no id.
  abbrev TakesIn : List (Order D) → OrderBook D → OrderBook D → Type 0
  TakesIn os b filled =
      ((i : OrderId) → count_in i b ≤ℤ count_in i filled) × All (λ o. is_booked filled o ≡ true) os

  -- One order before the others.
  fill_one :
      (o : Order D) (os : List (Order D)) (b : OrderBook D) (c : Bool)
      → IsCovered b
      → ((b' : OrderBook D) → IsCovered b' → TakesIn os b' (fill_book os b'))
      → is_cancel o.order_type ≡ c
      → TakesIn (o ∷ os) b (fill_book os (if c then b else (insert_order o b).1))
  fill_one o os b true h again e = let (grows, all) = again b h in (grows, ((rw e refl), all))
  fill_one o os b false h again e =
      let (covered, there, more) = insert_order_counts o b h in
      let (grows, all) = again (insert_order o b).1 covered in
      (
        λ i. omega (arith, grows i, more i),
        (
          count_in-booked (fill_book os (insert_order o b).1) o (omega (arith, there, grows o.id)),
          all,
        ),
      )

  pub fill_book-TakesIn :
      (os : List (Order D)) (b : OrderBook D) → IsCovered b → TakesIn os b (fill_book os b)
  unfolding fill_book
  fill_book-TakesIn [] b h = (λ i. omega arith, tt)
  fill_book-TakesIn (o ∷ os) b h =
      fill_one o os b (is_cancel o.order_type) h (λ b' k. fill_book-TakesIn os b' k) refl
