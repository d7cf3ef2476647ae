-- ===== src/Core/Clearing/Optimal.antt =====
-- The clearing price of crates/openmatch-core/src/clearing.rs against all other prices.
use openmatch.Base.{
  ◌≡◌, refl, List, [], ◌∷◌, ◌++◌, Option, none, some, true, All, All-split, All-imp, Exists,
  Bool-cases, inl, inr, ◌⊎◌, pos, ◌≤ℤ◌, ◌<ℤ◌, arith,
}
use openmatch.Decimal.{Decimal, lt, le, eq, is_zero, zero_parts}
use openmatch.Types.{Order, effective_price}
use openmatch.Core.Clearing.{
  ClearingResult, insert_price, price_set, candidate, search, sum_where, compute_clearing_price,
}
use openmatch.Core.Clearing.Search.{Beats, search-Beats, search-IsCandidate, search-none}
use openmatch.Core.Clearing.Sums.{NoneNegative, sum_where_nonneg, volume_at_sell}

module _ {D : Type 0} ⦃d : Decimal D⦄ (P : D → Type 0) where
  insert_price-All : (p : D) (qs : List D) → P p → All P qs → All P (insert_price p qs)
  insert_price-All p [] h hs = (h, tt)
  insert_price-All p (q ∷ qs) h (here, later) = elim (Bool-cases (lt p q)) [
    | inl before ↦ rw before (h, (here, later))
    | inr on ↦ elim (Bool-cases (eq p q)) [
      | inl same ↦ rw (on, same) (here, later)
      | inr other ↦ rw (on, other) (here, insert_price-All p qs h later)
    ]
  ]

  -- What holds of the prices of all orders holds of the set.
  price_set-All :
      (os : List (Order D)) (prices : List D)
      → All (λ o. P (effective_price o)) os
      → All P prices
      → All P (price_set os prices)
  unfolding price_set
  price_set-All [] prices hs h = h
  price_set-All (o ∷ os) prices (here, later) h = elim (Bool-cases (eq (effective_price o) d.max)) [
    | inl skip ↦ rw skip (price_set-All os prices later h)
    | inr real ↦ rw real (
        price_set-All os (insert_price (effective_price o) prices) later
          (insert_price-All (effective_price o) prices here h))
  ]

-- `P` holds of a price that is not the greatest decimal.
abbrev OrGreatest : {D : Type 0} ⦃d : Decimal D⦄ → (D → Type 0) → D → Type 0
OrGreatest ⦃d⦄ P p = (eq p d.max ≡ true) ⊎ P p

-- `P` goes by the value of a price.
module _ {D : Type 0} ⦃d : Decimal D⦄ (P : D → Type 0)
    (same : (p q : D) → d.units p ≡ d.units q → P p → P q) where
  All-insert_price : (p : D) (qs : List D) → All P (insert_price p qs) → P p × All P qs
  All-insert_price p [] h = h
  All-insert_price p (q ∷ qs) h = elim (Bool-cases (lt p q)) [
    | inl before ↦ rw before at h
    | inr on ↦ elim (Bool-cases (eq p q)) [
      | inl tie ↦
          let all : All P (q ∷ qs) = rw (on, tie) at h in (same q p (ground arith) all.0, all)
      | inr other ↦
          let all : All P (q ∷ insert_price p qs) = rw (on, other) at h in
          let (here, later) = All-insert_price p qs all.1 in (here, (all.0, later))
    ]
  ]

  -- What holds of the whole set holds of the price of every order, but the greatest decimal.
  All-price_set :
      (os : List (Order D)) (prices : List D)
      → All P (price_set os prices)
      → All (λ o. OrGreatest P (effective_price o)) os × All P prices
  unfolding price_set
  All-price_set [] prices h = (tt, h)
  All-price_set (o ∷ os) prices h = elim (Bool-cases (eq (effective_price o) d.max)) [
    | inl skip ↦
        let (later, old) = All-price_set os prices (rw skip at h) in ((inl skip, later), old)
    | inr real ↦
        let (later, all) =
          All-price_set os (insert_price (effective_price o) prices) (rw real at h) in
        let (here, old) = All-insert_price (effective_price o) prices all in
        ((inr here, later), old)
  ]

module _ {D : Type 0} ⦃d : Decimal D⦄ (buys sells : List (Order D)) where
  -- What the clearing price is.
  pub record IsOptimal (r : ClearingResult D) : Type 0 where
    pub at_price : r ≡ candidate buys sells r.price
    pub some_volume : pos 0 <ℤ d.units r.volume
    pub of_order : Exists (λ o. effective_price o ≡ r.price) (buys ++ sells)
    -- no order's price has more volume, or as much with less imbalance, or as much of both and is higher
    pub beats_orders :
        All (λ o. OrGreatest (Beats buys sells r) (effective_price o)) (buys ++ sells)
    -- no price at all has more volume
    pub most_volume :
        (p : D) → lt p d.max ≡ true → d.units (candidate buys sells p).volume ≤ℤ d.units r.volume

  abbrev pub Clears : Option (ClearingResult D) → Type 0
  Clears none = (p : D) → lt p d.max ≡ true → d.units (candidate buys sells p).volume ≤ℤ pos 0
  Clears (some r) = IsOptimal r

  -- At prices of one value the candidates have one volume and one imbalance.
  Beats-same :
      (r : ClearingResult D) (p q : D)
      → d.units p ≡ d.units q
      → Beats buys sells r p
      → Beats buys sells r q
  Beats-same r p q e h = rw e at h

  no_volume-same :
      (p q : D)
      → d.units p ≡ d.units q
      → is_zero (candidate buys sells p).volume ≡ true
      → is_zero (candidate buys sells q).volume ≡ true
  no_volume-same p q e h = rw e at h

  abbrev orders : List (Order D)
  orders = buys ++ sells

  candidate-nonneg :
      (p : D)
      → NoneNegative buys
      → NoneNegative sells
      → pos 0 ≤ℤ d.units (candidate buys sells p).volume
  candidate-nonneg p nb ns = ground (
    arith,
    sum_where_nonneg (λ (b : Order D). le p (effective_price b)) buys nb,
    sum_where_nonneg (λ (s : Order D). le (effective_price s) p) sells ns,
  )

  beaten_volume :
      (r : ClearingResult D) (p q : D)
      → lt p d.max ≡ true
      → le q p ≡ true
      → pos 0 ≤ℤ d.units r.volume
      → OrGreatest (Beats buys sells r) q
      → d.units (candidate buys sells q).volume ≤ℤ d.units r.volume
  beaten_volume r p q real below positive (inl greatest) = absurd (ground arith)
  beaten_volume r p q real below positive (inr (inl nothing)) = ground arith
  beaten_volume r p q real below positive (inr (inr beaten)) = ground arith

  found-IsOptimal :
      (r : ClearingResult D)
      → NoneNegative buys
      → NoneNegative sells
      → search buys sells (price_set orders []) none ≡ some r
      → IsOptimal r
  found-IsOptimal r nb ns found =
      let prices = price_set orders [] in
      let (beats, u) = search-Beats buys sells prices none r found in
      let (beats_orders, v) = All-price_set (Beats buys sells r) (Beats-same r) orders [] beats in
      let Given : D → Type 0 = λ p. Exists (λ (o : Order D). effective_price o ≡ p) orders in
      let (given, at_price, volume) = rw found at (
        search-IsCandidate buys sells Given prices none
          (price_set-All Given orders [] (all_given orders) tt) tt) in
      let positive : pos 0 ≤ℤ d.units r.volume = rw at_price (candidate-nonneg r.price nb ns) in
      record {
        at_price = at_price;
        some_volume = ground arith;
        of_order = given;
        beats_orders = beats_orders;
        most_volume = λ p real.
            elim (volume_at_sell (OrGreatest (Beats buys sells r)) p buys sells
              (All-split (λ (o : Order D). OrGreatest (Beats buys sells r) (effective_price o)) buys
                sells beats_orders).1
              nb) [
                | inl nothing ↦ omega (arith, nothing, positive)
                | inr (q, (is_q, below, more)) ↦
                    omega (arith, more, beaten_volume r p q real below positive is_q)
              ];
      }
    where
      all_given :
          (os : List (Order D))
          → All (λ o. Exists (λ x. effective_price x ≡ effective_price o) os) os
      all_given [] = tt
      all_given (o ∷ os) = (inl refl, All-imp (λ (x : Order D) h. inr h) os (all_given os))

  nothing-Clears :
      NoneNegative buys
      → search buys sells (price_set orders []) none ≡ none
      → (p : D) → lt p d.max ≡ true
      → d.units (candidate buys sells p).volume ≤ℤ pos 0
  nothing-Clears nb found p real =
      let empty : D → Type 0 = λ q. is_zero (candidate buys sells q).volume ≡ true in
      let (of_orders, v) =
        All-price_set empty no_volume-same orders []
          (search-none buys sells (price_set orders []) found) in
      elim (volume_at_sell (OrGreatest empty) p buys sells
        (All-split (λ (o : Order D). OrGreatest empty (effective_price o)) buys sells of_orders).1
        nb) [
          | inl nothing ↦ nothing
          | inr (q, (inl greatest, below, more)) ↦ absurd (ground arith)
          | inr (q, (inr zero, below, more)) ↦ ground (arith, more)
        ]

module _ {D : Type 0} ⦃d : Decimal D⦄ where
  -- If no order has a negative quantity left, the clearing price of some buys and sells is the
  -- effective price of one of them, with the demand, the supply and the positive volume at it; no
  -- order's price, the greatest decimal apart, has more volume, or as much volume with less
  -- imbalance, or as much of both and is higher; and no price below the greatest decimal, whether an
  -- order has it or not, has more volume. If there is no clearing price, no such price has any volume.
  pub compute_clearing_price-Clears :
      (buys sells : List (Order D))
      → NoneNegative buys
      → NoneNegative sells
      → Clears buys sells (compute_clearing_price buys sells)
  unfolding compute_clearing_price sum_where
  compute_clearing_price-Clears [] sells nb ns = λ p real. ground (arith, zero_parts D)
  compute_clearing_price-Clears (b ∷ buys) [] nb ns = λ p real. ground (arith, zero_parts D)
  compute_clearing_price-Clears (b ∷ buys) (s ∷ sells) nb ns =
      found (search (b ∷ buys) (s ∷ sells) (price_set ((b ∷ buys) ++ (s ∷ sells)) []) none) refl
    where
      found :
          (o : Option (ClearingResult D))
          → search (b ∷ buys) (s ∷ sells) (price_set ((b ∷ buys) ++ (s ∷ sells)) []) none ≡ o
          → Clears (b ∷ buys) (s ∷ sells) o
      found none e = nothing-Clears (b ∷ buys) (s ∷ sells) nb e
      found (some r) e = found-IsOptimal (b ∷ buys) (s ∷ sells) r nb ns e
