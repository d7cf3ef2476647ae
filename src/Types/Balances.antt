-- ===== src/Types/Balances.antt =====
-- crates/openmatch-types/src/balance.rs: what a user holds of an asset.
use openmatch.Base.{Bool, ◌&&◌, String}
use openmatch.Decimal.{Decimal, is_zero}

abbrev pub Asset : Type 0
Asset = String

pub record BalanceEntry (D : Type 0) : Type 0 where
  pub available : D
  pub frozen : D

module _ {D : Type 0} ⦃d : Decimal D⦄ where
  -- `BalanceEntry::new`, which is also `default`
  abbrev pub empty_entry : BalanceEntry D
  empty_entry = record { available = d.zero; frozen = d.zero }

  abbrev pub entry_total : BalanceEntry D → D
  entry_total e = d.add e.available e.frozen

  unfoldable entry_is_zero : BalanceEntry D → Bool
  entry_is_zero e = is_zero e.available && is_zero e.frozen
