-- ===== src/MatchCore/Matcher/Accounted.antt =====
-- What crates/openmatch-matchcore/src/matcher.rs does with every order of a batch.
use openmatch.Base.{
  Option, none, Returns, Allows-Returns, pos, ◌≤ℤ◌, some, subst, ℕ, ◌≡◌, ◌∙◌, refl, sym, ap, List,
  [], ◌∷◌, ◌++◌, Bool, true, any, ◌||◌, ◌==◌, All, All-imp, Bool-cases, inl, inr, arith, nat_eq,
}
use openmatch.Decimal.{Decimal}
use openmatch.Types.{
  Order, OrderId, MarketPair, Trade, TradeBundle, SealedBatch, is_cancel, effective_price,
}
use openmatch.MatchCore.OrderBook.{OrderBook, new_book, drain_all}
use openmatch.MatchCore.Matcher.{
  fill_book, match_sealed_batch, bundle, with_quantity, add_unmatched, is_traded,
}
use openmatch.MatchCore.Matcher.Booked.{has_id, is_booked, fill_book-TakesIn}
use openmatch.MatchCore.Matcher.Bundles.{HoldsFrom, match_book-bundle}
use openmatch.MatchCore.Matcher.Kept.{add_one, crossing_left, kept, fills_kept}
use openmatch.MatchCore.Matcher.Overfill.{HasLeft}
use openmatch.MatchCore.Matcher.Returned.{IsModest, match_sealed_batch-Returns}
use openmatch.MatchCore.Matcher.Book.{fill_book-ArePlaced}
use openmatch.MatchCore.OrderBook.Placed.{ArePlaced}

any-append :
    {A : Type 0} (p : A → Bool) (xs ys : List A) → any p (xs ++ ys) ≡ (any p xs || any p ys)
any-append p [] ys = refl
any-append p (x ∷ xs) ys = ground (arith, any-append p xs ys)

module _ {D : Type 0} ⦃d : Decimal D⦄ where
  abbrev names : OrderId → Trade D → Bool
  names i t = t.taker_order_id == i || t.maker_order_id == i

  -- An order of the id remains, or a trade names it.
  abbrev pub is_accounted : List (Trade D) → List (Order D) → OrderId → Bool
  is_accounted trades remaining i = any (has_id i) remaining || any (names i) trades

  add_one-keeps :
      (i : OrderId) (trades : List (Trade D)) (remaining : List (Order D)) (o : Order D)
      → any (has_id i) remaining ≡ true
      → any (has_id i) (add_one trades remaining o) ≡ true
  add_one-keeps i trades remaining o h = ground (arith, any-append (has_id i) remaining (o ∷ []))

  add_one-accounts :
      (trades : List (Trade D)) (remaining : List (Order D)) (o : Order D)
      → is_accounted trades (add_one trades remaining o) o.id ≡ true
  add_one-accounts trades remaining o = elim (Bool-cases (any (has_id o.id) remaining)) [
    | inl there ↦ rw (add_one-keeps o.id trades remaining o there) refl
    | inr missing ↦ elim (Bool-cases (is_traded o trades)) [
      | inl traded ↦ ground arith
      | inr untraded ↦ ground (arith, any-append (has_id o.id) remaining (o ∷ []))
    ]
  ]

  add_unmatched-keeps :
      (i : OrderId) (trades : List (Trade D)) (remaining os : List (Order D))
      → any (has_id i) remaining ≡ true
      → any (has_id i) (add_unmatched trades remaining os) ≡ true
  unfolding add_unmatched
  add_unmatched-keeps i trades remaining [] h = h
  add_unmatched-keeps i trades remaining (o ∷ os) h =
      add_unmatched-keeps i trades (add_one trades remaining o) os
        (add_one-keeps i trades remaining o h)

  accounted-keeps :
      (i : OrderId) (trades : List (Trade D)) (remaining os : List (Order D))
      → is_accounted trades remaining i ≡ true
      → is_accounted trades (add_unmatched trades remaining os) i ≡ true
  accounted-keeps i trades remaining os h = elim (Bool-cases (any (has_id i) remaining)) [
    | inl there ↦ rw (add_unmatched-keeps i trades remaining os there) refl
    | inr missing ↦ ground arith
  ]

  -- Every id of the book is accounted for.
  add_unmatched-accounts :
      (i : OrderId) (trades : List (Trade D)) (remaining os : List (Order D))
      → any (has_id i) os ≡ true
      → is_accounted trades (add_unmatched trades remaining os) i ≡ true
  unfolding add_unmatched
  add_unmatched-accounts i trades remaining [] h = cc
  add_unmatched-accounts i trades remaining (o ∷ os) h = elim (Bool-cases (o.id == i)) [
    | inl same ↦ accounted-keeps i trades (add_one trades remaining o) os (
        ap (is_accounted trades (add_one trades remaining o)) (sym ((nat_eq.beq_iff o.id i).0 same))
        ∙ add_one-accounts trades remaining o)
    | inr other ↦ add_unmatched-accounts i trades (add_one trades remaining o) os (ground arith)
  ]

  booked_accounts :
      (trades : List (Trade D)) (remaining : List (Order D)) (b : OrderBook D) (o : Order D)
      → is_booked b o ≡ true
      → (is_cancel o.order_type
          || is_accounted trades (add_unmatched trades remaining (drain_all b).0) o.id)
        ≡ true
  booked_accounts trades remaining b o h = elim (Bool-cases (is_cancel o.order_type)) [
    | inl skipped ↦ rw skipped refl
    | inr placed ↦
        rw placed (add_unmatched-accounts o.id trades remaining (drain_all b).0 (rw placed at h))
  ]

  -- Each order of the list is accounted for, and the quantities that cross in the book are kept.
  abbrev pub AccountsFor : List (Order D) → OrderBook D → TradeBundle D → Type 0
  AccountsFor orders book r =
      All (λ o. (is_cancel o.order_type || is_accounted r.trades r.remaining_orders o.id) ≡ true)
        orders
      × ((i : OrderId) (price : D)
          → r.clearing_price ≡ some price
          → crossing_left i price book ≤ℤ kept i r)

  fills-AccountsFor :
      (sha256 : List ℕ → List ℕ) (batch : SealedBatch D) (market : MarketPair)
      → All HasLeft batch.orders
      → let book = fill_book batch.orders (new_book market) in
        HoldsFrom sha256 batch (AccountsFor batch.orders book) book
  unfolding bundle
  fills-AccountsFor sha256 batch market h a bids f same k =
      let book = fill_book batch.orders (new_book market) in
      let placed : ArePlaced HasLeft book =
        fill_book-ArePlaced HasLeft batch.orders (new_book market) h (tt, tt) in
      (
        All-imp
            (λ (o : Order D) booked.
              booked_accounts f.trades (with_quantity (bids ++ (f.passed ++ f.rest))) book o booked)
            batch.orders
            (fill_book-TakesIn batch.orders (new_book market) (λ i k. absurd (ground arith))).1,
        λ i price at_price.
            let same_price : a.price ≡ price =
              ap (λ (o : Option D). elim o [ none ↦ a.price | some p ↦ p ]) at_price in
            subst (λ (p : D). crossing_left i p book ≤ℤ kept i (bundle a batch book bids f))
              same_price (fills_kept a batch book bids f i placed k),
      )

  -- Other overflows than that of the sum of two prices aside, if no order of a sealed batch, here
  -- one of at least one order, has a negative quantity left, nor an effective price that is negative
  -- or above half the greatest decimal, the matcher returns a bundle. In it, the id of each order of
  -- the batch that is not a cancellation is that of an order that remains, or a trade names it; and
  -- if it has a clearing price, for every order id, what the orders of that id that cross at this
  -- price in the book of the batch have left to trade is at most what the orders of that id that
  -- remain have left and what its trades are for, together.
  pub match_sealed_batch-accounts :
      (sha256 : List ℕ → List ℕ) (clock : ℕ → ℕ) (batch : SealedBatch D) (first : Order D)
      (others : List (Order D))
      → All (λ o. pos 0 ≤ℤ d.units o.remaining_qty) (first ∷ others)
      → All (λ o. IsModest (effective_price o)) (first ∷ others)
      → Returns
          (AccountsFor (first ∷ others) (fill_book (first ∷ others) (new_book first.market)))
          (match_sealed_batch sha256 clock (record batch { orders = first ∷ others }))
  unfolding match_sealed_batch
  match_sealed_batch-accounts sha256 clock batch first others h modest =
      let orders = first ∷ others in
      let given : SealedBatch D = record batch { orders = orders } in
      let book = fill_book orders (new_book first.market) in
      Allows-Returns (AccountsFor orders book) (match_sealed_batch sha256 clock given)
        (match_book-bundle sha256 given (AccountsFor orders book) clock book
          (
            All-imp (λ (o : Order D) k. ground arith) orders
                (fill_book-TakesIn orders (new_book first.market) (λ i k. absurd (ground arith))).1,
            λ i price none_found. absurd cc,
          )
          (fills-AccountsFor sha256 given first.market h))
        (match_sealed_batch-Returns sha256 clock given modest)
