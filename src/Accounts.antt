-- ===== src/Accounts.antt =====
-- The balances that openmatch-ingress (src/balance_manager.rs) and openmatch-settlement
-- (src/tier1.rs) each keep, `HashMap<(UserId, Asset), BalanceEntry>`, and the writes that both make.
-- A call that fails writes nothing.
pub mod Supply
pub mod Cases
pub mod Frozen
use openmatch.Base.{
  Bool, Option, none, some, [], ◌∷◌, Eq, pair_eq, nat_eq, string_eq, ◌=?◌, Result, ok, err,
  if◌then◌else◌,
}
use openmatch.Decimal.{Decimal, lt}
use openmatch.Map.{Map, lookup, lookup_or, insert}
use openmatch.Types.{
  UserId, Asset, BalanceEntry, empty_entry, entry_total, OpenmatchError, insufficient_balance,
  insufficient_frozen,
}

abbrev pub Key : Type 0
Key = UserId × Asset

abbrev pub key_eq : Key → Key → Bool
key_eq j k = j =? k

abbrev pub Accounts : Type 0 → Type 0
Accounts D = Map Key (BalanceEntry D)

module _ {D : Type 0} ⦃d : Decimal D⦄ where
  -- `get(..).cloned().unwrap_or_default()`
  unfoldable pub balance : Key → Accounts D → BalanceEntry D
  balance k m = lookup_or empty_entry k m

  abbrev pub credit_entry : D → BalanceEntry D → BalanceEntry D
  credit_entry amount e = record e { available = d.add e.available amount }

  -- `entry(..).or_default().available += amount`
  unfoldable pub credit : Key → D → Accounts D → Accounts D
  credit k amount m = insert k (credit_entry amount (lookup_or empty_entry k m)) m

  unfoldable pub deposit : Key → D → Accounts D → Accounts D
  deposit k amount m = insert k (credit_entry amount (lookup_or empty_entry k m)) m

  abbrev pub freeze_entry : D → BalanceEntry D → BalanceEntry D
  freeze_entry amount e = record {
    available = d.sub e.available amount;
    frozen = d.add e.frozen amount;
  }

  abbrev pub unfreeze_entry : D → BalanceEntry D → BalanceEntry D
  unfreeze_entry amount e = record {
    available = d.add e.available amount;
    frozen = d.sub e.frozen amount;
  }

  abbrev pub consume_entry : D → BalanceEntry D → BalanceEntry D
  consume_entry amount e = record e { frozen = d.sub e.frozen amount }

  unfoldable pub freeze : Key → D → Accounts D → Result (OpenmatchError D) (Unit {0}) × Accounts D
  freeze k amount m = elim (lookup k m) [
    | none ↦ (err (insufficient_balance amount d.zero), m)
    | some e ↦
        if lt e.available amount
        then (err (insufficient_balance amount e.available), m)
        else (ok tt, insert k (freeze_entry amount e) m)
  ]

  unfoldable pub unfreeze : Key → D → Accounts D → Result (OpenmatchError D) (Unit {0}) × Accounts D
  unfreeze k amount m = elim (lookup k m) [
    | none ↦ (err insufficient_frozen, m)
    | some e ↦
        if lt e.frozen amount
        then (err insufficient_frozen, m)
        else (ok tt, insert k (unfreeze_entry amount e) m)
  ]

  unfoldable pub consume_frozen :
      Key → D → Accounts D → Result (OpenmatchError D) (Unit {0}) × Accounts D
  consume_frozen k amount m = elim (lookup k m) [
    | none ↦ (err insufficient_frozen, m)
    | some e ↦
        if lt e.frozen amount
        then (err insufficient_frozen, m)
        else (ok tt, insert k (consume_entry amount e) m)
  ]

  -- `iter().filter(|((_, a), _)| a == asset).map(|(_, entry)| entry.total()).sum()`, from `acc`
  unfoldable pub sum_entries : Asset → D → Accounts D → D
  sum_entries asset acc [] = acc
  sum_entries asset acc ((k, e) ∷ m) =
      sum_entries asset (if k.1 =? asset then d.add acc (entry_total e) else acc) m

  unfoldable pub total_supply : Asset → Accounts D → D
  unfolding sum_entries
  total_supply asset m = sum_entries asset d.zero m
