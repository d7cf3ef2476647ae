-- ===== src/Settlement/SupplyConservation.antt =====
-- crates/openmatch-settlement/src/supply_conservation.rs: what came in and went out, per asset.
use openmatch.Base.{Result, ok, err, string_eq, if◌then◌else◌}
use openmatch.Decimal.{Decimal, eq}
use openmatch.Map.{Map, lookup_or, insert}
use openmatch.Types.{Asset, OpenmatchError, supply_invariant_violation, supply_differs}

pub record SupplyConservation (D : Type 0) : Type 0 where
  pub deposits : Map Asset D
  pub withdrawals : Map Asset D

module _ {D : Type 0} ⦃d : Decimal D⦄ where
  -- `*entry(asset).or_insert(Decimal::ZERO) += amount`
  abbrev pub add_at : Asset → D → Map Asset D → Map Asset D
  add_at asset amount m = insert asset (d.add (lookup_or d.zero asset m) amount) m

  unfoldable pub record_deposit : Asset → D → SupplyConservation D → SupplyConservation D
  record_deposit asset amount s = record s { deposits = add_at asset amount s.deposits }

  unfoldable pub record_withdrawal : Asset → D → SupplyConservation D → SupplyConservation D
  record_withdrawal asset amount s = record s { withdrawals = add_at asset amount s.withdrawals }

  unfoldable pub total_deposits : Asset → SupplyConservation D → D
  total_deposits asset s = lookup_or d.zero asset s.deposits

  unfoldable pub total_withdrawals : Asset → SupplyConservation D → D
  total_withdrawals asset s = lookup_or d.zero asset s.withdrawals

  unfoldable pub expected_supply : Asset → SupplyConservation D → D
  unfolding total_deposits total_withdrawals
  expected_supply asset s = d.sub (total_deposits asset s) (total_withdrawals asset s)

  unfoldable pub verify : Asset → D → SupplyConservation D → Result (OpenmatchError D) (Unit {0})
  unfolding expected_supply
  verify asset actual s =
      if eq actual (expected_supply asset s)
      then ok tt
      else err (
          supply_invariant_violation (
            supply_differs asset actual (expected_supply asset s) (total_deposits asset s)
              (total_withdrawals asset s)))
