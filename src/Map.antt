-- ===== src/Map.antt =====
-- `std::collections::HashMap`, as an association list in which the first entry of a key counts.
-- The order in which a `HashMap` is walked is unspecified: no theorem depends on it.
pub mod Sum
use openmatch.Base.{
  ◌≡◌, refl, Bool, true, false, Option, none, some, List, [], ◌∷◌, arith, if◌then◌else◌, Eq, ◌=?◌,
  beq_refl, All, Bool-cases, inl, inr, subst, ap,
}

abbrev pub Map {ℓ κ} : Type ℓ → Type κ → Type (ℓ ⊔ κ)
Map K V = List (K × V)

module _ {ℓ κ} {K : Type ℓ} {V : Type κ} ⦃e : Eq K⦄ where
  -- `get`
  abbrev pub lookup : K → Map K V → Option V
  lookup k [] = none
  lookup k ((j, v) ∷ m) = if j =? k then some v else lookup k m

  -- `get(k).copied().unwrap_or(d)`
  abbrev pub lookup_or : V → K → Map K V → V
  lookup_or d k m = elim (lookup k m) [ none ↦ d | some v ↦ v ]

  -- `contains_key`
  abbrev pub contains_key : K → Map K V → Bool
  contains_key k m = elim (lookup k m) [ none ↦ false | some v ↦ true ]

  -- `insert`, and a write through `get_mut` or `entry`
  unfoldable pub insert : K → V → Map K V → Map K V
  insert k v [] = (k, v) ∷ []
  insert k v ((j, w) ∷ m) = if j =? k then (j, v) ∷ m else (j, w) ∷ insert k v m

  unfoldable pub remove : K → Map K V → Map K V
  remove k [] = []
  remove k ((j, w) ∷ m) = let rest = remove k m in if j =? k then rest else (j, w) ∷ rest

  pub lookup-insert :
      (j k : K) (v : V) (m : Map K V)
      → lookup j (insert k v m) ≡ (if k =? j then some v else lookup j m)
  unfolding insert
  lookup-insert j k v [] = refl
  lookup-insert j k v ((i, w) ∷ m) =
      ground (arith, e.beq_iff k j, e.beq_iff i k, e.beq_iff i j, lookup-insert j k v m)

  pub lookup-insert_self : (k : K) (v : V) (m : Map K V) → lookup k (insert k v m) ≡ some v
  lookup-insert_self k v m = ground (arith, lookup-insert k k v m, beq_refl k)

  pub lookup-remove :
      (j k : K) (m : Map K V) → lookup j (remove k m) ≡ (if k =? j then none else lookup j m)
  unfolding remove
  lookup-remove j k [] = ground arith
  lookup-remove j k ((i, w) ∷ m) =
      ground (arith, e.beq_iff k j, e.beq_iff i k, e.beq_iff i j, lookup-remove j k m)

  -- A predicate on every value, after a write.
  pub All-insert {μ} :
      (P : V → Type μ) (k : K) (v : V) (m : Map K V)
      → P v
      → All (λ x. P x.1) m
      → All (λ x. P x.1) (insert k v m)
  unfolding insert
  All-insert P k v [] here h = (here, tt)
  All-insert P k v ((j, w) ∷ m) here (first, rest) = elim (Bool-cases (j =? k)) [
    | inl same ↦ rw same (here, rest)
    | inr other ↦ rw other (first, All-insert P k v m here rest)
  ]

  pub All-lookup {μ} :
      (P : V → Type μ) (k : K) (v : V) (m : Map K V)
      → All (λ x. P x.1) m
      → lookup k m ≡ some v
      → P v
  All-lookup P k v [] h found = absurd (ground arith)
  All-lookup P k v ((j, w) ∷ m) (first, rest) found = elim (Bool-cases (j =? k)) [
    | inl same ↦
        subst P (ap (λ (o : Option V). elim o [ none ↦ w | some u ↦ u ]) (rw same at found)) first
    | inr other ↦ All-lookup P k v m rest (rw other at found)
  ]
