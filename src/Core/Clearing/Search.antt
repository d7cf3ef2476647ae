-- ===== src/Core/Clearing/Search.antt =====
-- What the search of crates/openmatch-core/src/clearing.rs finds among its candidates.
use openmatch.Base.{
  ◌≡◌, refl, List, [], ◌∷◌, Option, none, some, true, false, All, Bool-cases, inl, inr, ◌⊎◌, ◌<ℤ◌,
  ◌≤ℤ◌, arith,
}
use openmatch.Decimal.{Decimal, eq, is_zero}
use openmatch.Types.{Order}
use openmatch.Core.Clearing.{ClearingResult, candidate, imbalance, is_better, better_of, search}

module _ {D : Type 0} ⦃d : Decimal D⦄ where
  -- More volume, or as much with less imbalance, or as much of both at a price that is not lower.
  abbrev AtLeast : ClearingResult D → ClearingResult D → Type 0
  AtLeast a b =
      (d.units b.volume <ℤ d.units a.volume)
      ⊎ ((eq a.volume b.volume ≡ true)
          × ((d.units (imbalance a) <ℤ d.units (imbalance b))
              ⊎ ((eq (imbalance a) (imbalance b) ≡ true) × (d.units b.price ≤ℤ d.units a.price))))

  AtLeast-refl : (a : ClearingResult D) → AtLeast a a
  AtLeast-refl a = ground arith

  AtLeast-trans : (a b c : ClearingResult D) → AtLeast a b → AtLeast b c → AtLeast a c
  AtLeast-trans a b c h k = ground arith

  better_wins : (a b : ClearingResult D) → is_better a b ≡ true → AtLeast a b
  unfolding is_better
  better_wins a b h = ground arith

  worse_loses : (a b : ClearingResult D) → is_better a b ≡ false → AtLeast b a
  unfolding is_better
  worse_loses a b h = ground arith

  -- A result is at least the best so far, if there is one.
  abbrev Tops : ClearingResult D → Option (ClearingResult D) → Type 0
  Tops r none = Unit
  Tops r (some best) = AtLeast r best

  better_of-Tops :
      (r new : ClearingResult D) (best : Option (ClearingResult D))
      → Tops r (better_of new best)
      → AtLeast r new × Tops r best
  better_of-Tops r new none h = (h, tt)
  better_of-Tops r new (some current) h = elim (Bool-cases (is_better new current)) [
    | inl wins ↦
        let top : AtLeast r new = rw (better_of, wins) at h in
        (top, AtLeast-trans r new current top (better_wins new current wins))
    | inr loses ↦
        let top : AtLeast r current = rw (better_of, loses) at h in
        (AtLeast-trans r current new top (worse_loses new current loses), top)
  ]

module _ {D : Type 0} ⦃d : Decimal D⦄ (buys sells : List (Order D)) where
  -- No volume at a price, or not more than the result.
  abbrev pub Beats : ClearingResult D → D → Type 0
  Beats r p = (is_zero (candidate buys sells p).volume ≡ true) ⊎ AtLeast r (candidate buys sells p)

  -- The result of a search is at least every candidate, and at least the best at its start.
  pub search-Beats :
      (ps : List D) (best : Option (ClearingResult D)) (r : ClearingResult D)
      → search buys sells ps best ≡ some r
      → All (Beats r) ps × Tops r best
  unfolding search
  search-Beats [] none r h = cc
  search-Beats [] (some x) r h = let same : x ≡ r = cc in (tt, rw same (AtLeast-refl r))
  search-Beats (p ∷ ps) best r h = elim (Bool-cases (is_zero (candidate buys sells p).volume)) [
    | inl nothing ↦
        let (later, top) = search-Beats ps best r (rw (search, nothing) at h) in
        ((inl nothing, later), top)
    | inr volume ↦
        let new = candidate buys sells p in
        let (later, top) = search-Beats ps (better_of new best) r (rw (search, volume) at h) in
        let (first, rest) = better_of-Tops r new best top in ((inr first, later), rest)
  ]

  -- What the search finds is the candidate of one of its prices, with some volume.
  abbrev IsCandidate : (D → Type 0) → Option (ClearingResult D) → Type 0
  IsCandidate P none = Unit
  IsCandidate P (some r) =
      P r.price × (r ≡ candidate buys sells r.price) × (is_zero r.volume ≡ false)

  better_of-IsCandidate :
      (P : D → Type 0) (new : ClearingResult D) (best : Option (ClearingResult D))
      → IsCandidate P (some new)
      → IsCandidate P best
      → IsCandidate P (better_of new best)
  better_of-IsCandidate P new none h k = h
  better_of-IsCandidate P new (some current) h k = elim (Bool-cases (is_better new current)) [
    | inl wins ↦ rw (better_of, wins) h
    | inr loses ↦ rw (better_of, loses) k
  ]

  pub search-IsCandidate :
      (P : D → Type 0) (ps : List D) (best : Option (ClearingResult D))
      → All P ps
      → IsCandidate P best
      → IsCandidate P (search buys sells ps best)
  unfolding search
  search-IsCandidate P [] best h k = k
  search-IsCandidate P (p ∷ ps) best (here, later) k =
      elim (Bool-cases (is_zero (candidate buys sells p).volume)) [
        | inl nothing ↦ rw (search, nothing) (search-IsCandidate P ps best later k)
        | inr volume ↦
            let new = candidate buys sells p in
            rw (search, volume)
              (search-IsCandidate P ps (better_of new best) later
                (better_of-IsCandidate P new best (here, refl, volume) k))
      ]

  better_of-some :
      (new : ClearingResult D) (best : Option (ClearingResult D))
      → (x : ClearingResult D) × (better_of new best ≡ some x)
  better_of-some new none = (new, refl)
  better_of-some new (some current) = elim (Bool-cases (is_better new current)) [
    | inl wins ↦ (new, rw (better_of, wins))
    | inr loses ↦ (current, rw (better_of, loses))
  ]

  search-some :
      (ps : List D) (x : ClearingResult D)
      → (y : ClearingResult D) × (search buys sells ps (some x) ≡ some y)
  unfolding search
  search-some [] x = (x, refl)
  search-some (p ∷ ps) x = elim (Bool-cases (is_zero (candidate buys sells p).volume)) [
    | inl nothing ↦ rw (search, nothing) (search-some ps x)
    | inr volume ↦
        let (y, found) = better_of-some (candidate buys sells p) (some x) in
        rw (search, volume, found) (search-some ps y)
  ]

  -- A search that finds nothing had no candidate with any volume.
  pub search-none :
      (ps : List D)
      → search buys sells ps none ≡ none
      → All (λ p. is_zero (candidate buys sells p).volume ≡ true) ps
  unfolding search
  search-none [] h = tt
  search-none (p ∷ ps) h = elim (Bool-cases (is_zero (candidate buys sells p).volume)) [
    | inl nothing ↦ (nothing, search-none ps (rw (search, nothing) at h))
    | inr volume ↦
        let (y, found) = search-some ps (candidate buys sells p) in
        absurd (cc (found, rw (search, volume) at h))
  ]
