-- ===== src/Core/Security/SupplyAudit.antt =====
-- `SupplyConservation` of crates/openmatch-core/src/security.rs: what came in and went out of each
-- asset, against the totals of the ledger. The source collects the assets in a `HashSet`, whose
-- order is unspecified: which of several violations is reported is that of the order chosen here.
pub mod Balanced
use openmatch.Base.{List, [], ◌∷◌, ◌++◌, Result, ok, err, string_eq, map, if◌then◌else◌}
use openmatch.Decimal.{Decimal, eq}
use openmatch.Map.{Map, lookup_or, insert}
use openmatch.Types.{Asset, OpenmatchError, Reason, supply_invariant_violation}

pub record SupplyConservation (D : Type 0) : Type 0 where
  pub total_deposits : Map Asset D
  pub total_withdrawals : Map Asset D

-- `keys()`
abbrev pub keys : {V : Type 0} → Map Asset V → List Asset
keys m = map (λ e. e.0) m

module _ {D : Type 0} ⦃d : Decimal D⦄ where
  -- `*entry(asset).or_default() += amount`
  abbrev pub add_at : Asset → D → Map Asset D → Map Asset D
  add_at asset amount m = insert asset (d.add (lookup_or d.zero asset m) amount) m

  unfoldable pub record_deposit : Asset → D → SupplyConservation D → SupplyConservation D
  record_deposit asset amount s = record s { total_deposits = add_at asset amount s.total_deposits }

  unfoldable pub record_withdrawal : Asset → D → SupplyConservation D → SupplyConservation D
  record_withdrawal asset amount s = record s {
    total_withdrawals = add_at asset amount s.total_withdrawals;
  }

  unfoldable pub expected_total : Asset → SupplyConservation D → D
  expected_total asset s =
      d.sub (lookup_or d.zero asset s.total_deposits) (lookup_or d.zero asset s.total_withdrawals)

  abbrev violation : Asset → D → SupplyConservation D → OpenmatchError D
  violation asset actual s =
      let deposited = lookup_or d.zero asset s.total_deposits in
      let withdrawn = lookup_or d.zero asset s.total_withdrawals in
      let expected = d.sub deposited withdrawn in
      supply_invariant_violation
        (Reason.asset_differs asset expected deposited withdrawn actual (d.sub actual expected))

  -- `for asset in all_assets { .. }`
  unfoldable pub verify_assets :
      List Asset → Map Asset D → SupplyConservation D → Result (OpenmatchError D) (Unit {0})
  unfolding expected_total
  verify_assets [] actual_totals s = ok tt
  verify_assets (asset ∷ rest) actual_totals s =
      let actual = lookup_or d.zero asset actual_totals in
      let later = verify_assets rest actual_totals s in
      if eq (expected_total asset s) actual then later else err (violation asset actual s)

  unfoldable pub verify : Map Asset D → SupplyConservation D → Result (OpenmatchError D) (Unit {0})
  verify actual_totals s =
      verify_assets (keys s.total_deposits ++ keys s.total_withdrawals ++ keys actual_totals)
        actual_totals s
