-- ===== src/Map/Sum.antt =====
-- Sums over the entries of a map, and how a write changes them.
use openmatch.Base.{◌≡◌, Option, none, some, [], ◌∷◌, Eq, ℤ, pos, ◌+ℤ◌, int_laws, ◌≤ℤ◌, All, arith}
use openmatch.Map.{Map, lookup, insert}

module _ {ℓ κ} {K : Type ℓ} {V : Type κ} ⦃e : Eq K⦄ (w : K → V → ℤ) where
  -- The sum of `w k v` over all entries.
  abbrev pub total : Map K V → ℤ
  total [] = pos 0
  total ((k, v) ∷ m) = w k v +ℤ total m

  -- What a key adds to the sum.
  abbrev share : K → Option V → ℤ
  share k none = pos 0
  share k (some v) = w k v

  pub total-insert :
      (k : K) (v : V) (m : Map K V)
      → total (insert k v m) +ℤ share k (lookup k m) ≡ total m +ℤ w k v
  unfolding insert
  total-insert k v [] = omega int_laws
  total-insert k v ((j, u) ∷ m) = grind (int_laws, e.beq_iff j k, total-insert k v m)

  pub total-nonneg : (m : Map K V) → All (λ x. pos 0 ≤ℤ w x.0 x.1) m → pos 0 ≤ℤ total m
  total-nonneg [] h = ground arith
  total-nonneg (x ∷ m) (here, rest) = omega (int_laws, here, total-nonneg m rest)

  -- Where no entry adds less than 0, an entry adds at most the sum.
  pub total-covers :
      (i : K) (v : V) (m : Map K V)
      → All (λ x. pos 0 ≤ℤ w x.0 x.1) m
      → lookup i m ≡ some v
      → w i v ≤ℤ total m
  total-covers i v [] h found = absurd (ground arith)
  total-covers i v ((j, u) ∷ m) (here, rest) found =
      grind (int_laws, e.beq_iff j i, total-covers i v m rest, total-nonneg m rest)
