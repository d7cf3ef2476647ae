-- ===== src/Core/BatchMatcher/Legal.antt =====
-- The trades of a sealed buffer (crates/openmatch-core/src/batch_matcher.rs): users, price, limits and
-- quantities.
use openmatch.Base.{
  ◌≡◌, ◌≢◌, refl, sym, subst, List, [], ◌∷◌, Option, some, Bool, true, false, not, ◌&&◌, All,
  Exists, Exists-imp, Bool-cases, inl, inr, arith, if◌then◌else◌, ℤ, ◌+ℤ◌, int_laws, parts,
}
use openmatch.Decimal.{Decimal, lt}
use openmatch.Sort.{insert_sorted, sort_by}
use openmatch.Types.{Order, OrderId, EpochId, Trade, effective_price, is_buy, is_cancel}
use openmatch.Pairing.Sound.{Makes}
use openmatch.Base.{sum_of}
use openmatch.Core.BatchMatcher.{Round, trade_of, or_max, live_buys, live_sells}
use openmatch.Core.BatchMatcher.Steps.{May}

module _ {D : Type 0} ⦃d : Decimal D⦄ (orders : List (Order D)) where
  -- An order of the given side with the id and the effective price of an order of the batch that is
  -- no cancellation.
  abbrev pub IsFrom : Bool → Order D → Type 0
  IsFrom buys o =
      Exists
        (λ x.
          (x.id ≡ o.id)
          × (is_buy x.side ≡ buys)
          × (is_cancel x.order_type ≡ false)
          × (effective_price x ≡ effective_price o))
        orders

  -- The id of such an order whose limit allows the price.
  abbrev pub Buys : D → OrderId → Type 0
  Buys price i =
      Exists
        (λ x.
          (x.id ≡ i)
          × (is_buy x.side ≡ true)
          × (is_cancel x.order_type ≡ false)
          × (lt (effective_price x) price ≡ false))
        orders

  abbrev pub Sells : D → OrderId → Type 0
  Sells price i =
      Exists
        (λ x.
          (x.id ≡ i)
          × (is_buy x.side ≡ false)
          × (is_cancel x.order_type ≡ false)
          × (lt price (effective_price x) ≡ false))
        orders

  -- What a trade of a batch is.
  pub record IsLegal (batch_id : EpochId) (price : Option D) (t : Trade D) : Type 0 where
    pub at_clearing : price ≡ some t.price
    pub of_batch : t.epoch_id ≡ batch_id
    pub quoted : t.quote_amount ≡ or_max (d.checked_mul t.price t.quantity)
    pub two_users : t.taker_user_id ≢ t.maker_user_id
    pub buyer : Buys t.price t.taker_order_id
    pub seller : Sells t.price t.maker_order_id

  pub trade_of-Makes :
      (r : Round D)
      → Makes (trade_of r) (May r) (IsFrom true) (IsFrom false) (IsLegal r.batch_id (some r.price))
  unfolding effective_price
  trade_of-Makes r = record {
    bid_kept = λ o x h. h;
    ask_kept = λ o x h. h;
    made = λ n bid ask may p q. record {
      at_clearing = refl;
      of_batch = refl;
      quoted = refl;
      two_users = may.0;
      buyer = Exists-imp (λ (x : Order D) e. (e.0, e.1, e.2, rw e.3 may.1)) orders p;
      seller = Exists-imp (λ (x : Order D) e. (e.0, e.1, e.2, rw e.3 may.2)) orders q;
    };
  }

  -- The two lists that the orders are parted into.
  pub live-IsFrom :
      (os : List (Order D))
      → All (λ o. Exists (λ x. x ≡ o) orders) os
      → All (IsFrom true) (live_buys os) × All (IsFrom false) (live_sells os)
  live-IsFrom [] h = (tt, tt)
  live-IsFrom (o ∷ os) (here, later) =
      let (bs, ss) = live-IsFrom os later in
      elim (Bool-cases (is_cancel o.order_type)) [
        | inl cancelled ↦ rw cancelled (part (is_buy o.side) bs ss)
        | inr live ↦ elim (Bool-cases (is_buy o.side)) [
          | inl buys ↦ rw (live, buys) ((from true buys live, bs), ss)
          | inr sells ↦ rw (live, sells) (bs, (from false sells live, ss))
        ]
      ]
    where
      part :
          (b : Bool)
          → All (IsFrom true) (live_buys os)
          → All (IsFrom false) (live_sells os)
          → All (IsFrom true) (if b && false then o ∷ live_buys os else live_buys os)
            × All (IsFrom false) (if not b && false then o ∷ live_sells os else live_sells os)
      part true bs ss = (bs, ss)
      part false bs ss = (bs, ss)

      from : (b : Bool) → is_buy o.side ≡ b → is_cancel o.order_type ≡ false → IsFrom b o
      from b side live =
          Exists-imp
            (λ (x : Order D) e.
              subst
                (λ (y : Order D).
                  (y.id ≡ o.id)
                  × (is_buy y.side ≡ b)
                  × (is_cancel y.order_type ≡ false)
                  × (effective_price y ≡ effective_price o))
                (sym e) (refl, side, live, refl))
            orders here

-- Sorting and parting the orders keeps their quantities.
module _ {D : Type 0} ⦃d : Decimal D⦄ where
  sum_of-insert_sorted :
      (f : Order D → ℤ) (before : Order D → Order D → Bool) (o : Order D) (os : List (Order D))
      → sum_of f (insert_sorted before o os) ≡ f o +ℤ sum_of f os
  sum_of-insert_sorted f before o [] = refl
  sum_of-insert_sorted f before o (x ∷ os) = elim (Bool-cases (before x o)) [
    | inl up ↦ rw up (omega (int_laws, parts (sum_of-insert_sorted f before o os)))
    | inr stay ↦ rw stay
  ]

  pub sum_of-sort_by :
      (f : Order D → ℤ) (before : Order D → Order D → Bool) (os : List (Order D))
      → sum_of f (sort_by before os) ≡ sum_of f os
  unfolding sort_by
  sum_of-sort_by f before [] = refl
  sum_of-sort_by f before (o ∷ os) = omega (
    int_laws,
    parts (sum_of-insert_sorted f before o (sort_by before os)),
    parts (sum_of-sort_by f before os),
  )

  pub live-All :
      (P : Order D → Type 0) (os : List (Order D))
      → All P os
      → All P (live_buys os) × All P (live_sells os)
  live-All P [] h = (tt, tt)
  live-All P (o ∷ os) (here, later) = ground (arith, live-All P os)
