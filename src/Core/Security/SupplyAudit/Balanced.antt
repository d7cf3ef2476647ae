-- ===== src/Core/Security/SupplyAudit/Balanced.antt =====
-- What the audit of crates/openmatch-core/src/security.rs accepts.
use openmatch.Base.{
  ◌≡◌, ◌↔◌, refl, List, [], ◌∷◌, ◌++◌, true, false, none, ok, All, string_eq, ◌=?◌, any, Bool-cases,
  inl, inr, arith,
}
use openmatch.Decimal.{Decimal, eq, sub_parts, zero_parts}
use openmatch.Map.{Map, lookup, lookup_or}
use openmatch.Types.{Asset}
use openmatch.Core.Security.SupplyAudit.{
  SupplyConservation, keys, expected_total, verify_assets, verify,
}

lookup-absent :
    {V : Type 0} (asset : Asset) (m : Map Asset V)
    → any (λ k. k =? asset) (keys m) ≡ false
    → lookup asset m ≡ none
lookup-absent asset [] h = refl
lookup-absent asset ((k, v) ∷ m) h = ground (arith, lookup-absent asset m)

absent-append :
    (asset : Asset) (xs ys : List Asset)
    → any (λ k. k =? asset) (xs ++ ys) ≡ false
    → (any (λ k. k =? asset) xs ≡ false) × (any (λ k. k =? asset) ys ≡ false)
absent-append asset [] ys h = (refl, h)
absent-append asset (x ∷ xs) ys h = ground (arith, absent-append asset xs ys)

module _ {D : Type 0} ⦃d : Decimal D⦄ (actual : Map Asset D) (s : SupplyConservation D) where
  -- The expected total of an asset is the actual one.
  abbrev IsBalanced : Asset → Type 0
  IsBalanced asset = eq (expected_total asset s) (lookup_or d.zero asset actual) ≡ true

  verify_assets-ok :
      (assets : List Asset) → (verify_assets assets actual s ≡ ok tt) ↔ All IsBalanced assets
  unfolding verify_assets
  verify_assets-ok [] = (λ h. tt, λ h. refl)
  verify_assets-ok (asset ∷ rest) =
      elim (Bool-cases (eq (expected_total asset s) (lookup_or d.zero asset actual))) [
        | inl same ↦
            rw (same, verify_assets)
              ((λ h. (refl, (verify_assets-ok rest).0 h)), (λ h. (verify_assets-ok rest).1 h.1))
        | inr differs ↦ rw (differs, verify_assets) ((λ h. cc), (λ h. cc))
      ]

  All-any :
      (asset : Asset) (assets : List Asset)
      → All IsBalanced assets
      → any (λ k. k =? asset) assets ≡ true
      → IsBalanced asset
  All-any asset [] h f = cc
  All-any asset (a ∷ rest) h f = elim (Bool-cases (a =? asset)) [
    | inl same ↦ rw ((string_eq.beq_iff a asset).0 same) at h.0
    | inr other ↦ All-any asset rest h.1 (rw other at f)
  ]

  -- An asset that no map has is balanced.
  absent-IsBalanced :
      (asset : Asset)
      → any (λ k. k =? asset) (keys s.total_deposits ++ keys s.total_withdrawals ++ keys actual)
        ≡ false
      → IsBalanced asset
  unfolding expected_total
  absent-IsBalanced asset h =
      let (rest, no_total) =
        absent-append asset (keys s.total_deposits ++ keys s.total_withdrawals) (keys actual) h in
      let (no_deposit, no_withdrawal) =
        absent-append asset (keys s.total_deposits) (keys s.total_withdrawals) rest in
      rw
        (
          lookup_or,
          lookup-absent asset s.total_deposits no_deposit,
          lookup-absent asset s.total_withdrawals no_withdrawal,
          lookup-absent asset actual no_total,
          expected_total,
        )
        (ground (arith, sub_parts d.zero d.zero, zero_parts D))

  -- The audit succeeds if and only if the expected total of every asset, whether it was ever seen
  -- or not, is the actual one.
  pub verify-ok : (verify actual s ≡ ok tt) ↔ ((asset : Asset) → IsBalanced asset)
  unfolding verify
  verify-ok =
      let assets = keys s.total_deposits ++ keys s.total_withdrawals ++ keys actual in
      (
        λ h asset. elim (Bool-cases (any (λ k. k =? asset) assets)) [
          | inl seen ↦ All-any asset assets ((verify_assets-ok assets).0 h) seen
          | inr unseen ↦ absent-IsBalanced asset unseen
        ],
        λ h. (verify_assets-ok assets).1 (All_of assets h),
      )
    where
      All_of : (assets : List Asset) → ((asset : Asset) → IsBalanced asset) → All IsBalanced assets
      All_of [] f = tt
      All_of (a ∷ rest) f = (f a, All_of rest f)
