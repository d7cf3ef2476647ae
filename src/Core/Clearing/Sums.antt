-- ===== src/Core/Clearing/Sums.antt =====
-- Demand and supply at two prices, in crates/openmatch-core/src/clearing.rs.
use openmatch.Base.{
  ◌≡◌, refl, List, [], ◌∷◌, Bool, true, false, All, All-imp, Bool-cases, inl, inr, ◌⊎◌, pos, ◌≤ℤ◌,
  arith, if◌then◌else◌,
}
use openmatch.Decimal.{Decimal, le, add_parts, zero_parts}
use openmatch.Types.{Order, effective_price}
use openmatch.Core.Clearing.{sum_where, candidate}

module _ {D : Type 0} ⦃d : Decimal D⦄ where
  -- Tests that agree on every order give one sum.
  sum_where_same :
      (c e : Order D → Bool) (acc : D) (os : List (Order D))
      → All (λ o. c o ≡ e o) os
      → sum_where c acc os ≡ sum_where e acc os
  unfolding sum_where
  sum_where_same c e acc [] h = refl
  sum_where_same c e acc (o ∷ os) (here, later) =
      rw (sum_where, here)
        (sum_where_same c e (if e o then d.add acc o.remaining_qty else acc) os later)

  -- No order has a negative quantity left.
  abbrev pub NoneNegative : List (Order D) → Type 0
  NoneNegative os = All (λ o. pos 0 ≤ℤ d.units o.remaining_qty) os

  -- A test that more orders pass gives no smaller a sum.
  sum_where_mono :
      (c e : Order D → Bool) (acc more : D) (os : List (Order D))
      → ((o : Order D) → c o ≡ true → e o ≡ true)
      → d.units acc ≤ℤ d.units more
      → NoneNegative os
      → d.units (sum_where c acc os) ≤ℤ d.units (sum_where e more os)
  unfolding sum_where
  sum_where_mono c e acc more [] imp h n = h
  sum_where_mono c e acc more (o ∷ os) imp h (here, later) =
      sum_where_mono c e (if c o then d.add acc o.remaining_qty else acc)
        (if e o then d.add more o.remaining_qty else more) os imp
        (ground (arith, imp o, add_parts acc o.remaining_qty, add_parts more o.remaining_qty)) later

  abbrev nobody : Order D → Bool
  nobody o = false

  sum_where-nobody : (acc : D) (os : List (Order D)) → sum_where nobody acc os ≡ acc
  unfolding sum_where
  sum_where-nobody acc [] = refl
  sum_where-nobody acc (o ∷ os) = sum_where-nobody acc os

  pub sum_where_nonneg :
      (c : Order D → Bool) (os : List (Order D))
      → NoneNegative os
      → pos 0 ≤ℤ d.units (sum_where c d.zero os)
  sum_where_nonneg c os n = ground (
    arith,
    sum_where_mono nobody c d.zero d.zero os (λ o h. cc) (omega arith) n,
    sum_where-nobody d.zero os,
    zero_parts D,
  )

  -- Of the prices of some sells that satisfy `Q`, the highest that is not above `p`.
  highest_below :
      (Q : D → Type 0) (p : D) (os : List (Order D))
      → All (λ o. Q (effective_price o)) os
      → All (λ o. le (effective_price o) p ≡ false) os
        ⊎ ((q : D) × ((Q q)
              × (le q p ≡ true)
              × All (λ o. le (effective_price o) q ≡ le (effective_price o) p) os))
  highest_below Q p [] h = inl tt
  highest_below Q p (o ∷ os) (here, later) = elim (Bool-cases (le (effective_price o) p)) [
    | inr above ↦ elim (highest_below Q p os later) [
      | inl none_below ↦ inl (above, none_below)
      | inr (q, (is_q, below, same)) ↦ inr (q, (is_q, below, (ground arith, same)))
    ]
    | inl not_above ↦ elim (highest_below Q p os later) [
      | inl none_below ↦ inr (
        effective_price o,
        (here, not_above, (ground arith, All-imp (λ (x : Order D) h. ground arith) os none_below)),
      )
      | inr (q, (is_q, below, same)) ↦ elim (Bool-cases (le (effective_price o) q)) [
        | inl lower ↦ inr (q, (is_q, below, (ground arith, same)))
        | inr higher ↦ inr (
          effective_price o,
          (here, not_above, (ground arith, All-imp (λ (x : Order D) h. ground arith) os same)),
        )
      ]
    ]
  ]

  -- Whatever trades at a price trades at the price of some sell, if anything does.
  pub volume_at_sell :
      (Q : D → Type 0) (p : D) (buys sells : List (Order D))
      → All (λ o. Q (effective_price o)) sells
      → NoneNegative buys
      → (d.units (candidate buys sells p).volume ≤ℤ pos 0)
        ⊎ ((q : D) × ((Q q)
              × (le q p ≡ true)
              × (d.units (candidate buys sells p).volume
                  ≤ℤ d.units (candidate buys sells q).volume)))
  volume_at_sell Q p buys sells qs n = elim (highest_below Q p sells qs) [
    | inl none_below ↦
        let nothing =
          sum_where_same (λ (s : Order D). le (effective_price s) p) nobody d.zero sells
            none_below in
        inl (ground (arith, nothing, sum_where-nobody d.zero sells, zero_parts D))
    | inr (q, (is_q, below, same)) ↦
        let supply =
          sum_where_same (λ (s : Order D). le (effective_price s) q)
            (λ (s : Order D). le (effective_price s) p) d.zero sells same in
        let demand =
          sum_where_mono (λ (b : Order D). le p (effective_price b))
            (λ (b : Order D). le q (effective_price b)) d.zero d.zero buys (λ o h. ground arith)
            (omega arith) n in
        inr (q, (is_q, below, ground (arith, supply, demand)))
  ]
