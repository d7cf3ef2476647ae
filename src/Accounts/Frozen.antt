-- ===== src/Accounts/Frozen.antt =====
-- What is frozen in the accounts that crates/openmatch-core/src/balance_manager.rs and
-- crates/openmatch-settlement/src/tier1.rs keep, and what a settlement takes from it.
use openmatch.Base.{
  ◌≡◌, ap, false, ℤ, pos, ◌+ℤ◌, ◌≤ℤ◌, int_laws, parts, ◌=?◌, arith, nat_eq, string_eq, pair_eq,
  if◌then◌else◌, Bool-cases, inl, inr, beq_refl,
}
use openmatch.Decimal.{Decimal, lt}
use openmatch.Types.{BalanceEntry, empty_entry}
use openmatch.Map.{lookup_or, insert, lookup-insert}
use openmatch.Accounts.{Key, Accounts, credit, credit_entry, consume_entry}

-- Accounts in different assets are different.
pub other_asset : (k l : Key) → (k.1 =? l.1) ≡ false → (k =? l) ≡ false
other_asset k l h = ground arith

module _ {D : Type 0} ⦃d : Decimal D⦄ where
  abbrev pub entry_of : Key → Accounts D → BalanceEntry D
  entry_of k m = lookup_or empty_entry k m

  abbrev pub frozen : Key → Accounts D → ℤ
  frozen k m = d.units (entry_of k m).frozen

  -- What `a`, taken from the account `k`, takes from the account `j`.
  abbrev pub due : Key → Key → D → ℤ
  due j k a = if k =? j then d.units a else pos 0

  pub due-nonneg : (j k : Key) (a : D) → pos 0 ≤ℤ d.units a → pos 0 ≤ℤ due j k a
  due-nonneg j k a h = elim (Bool-cases (k =? j)) [
    | inl same ↦ rw same h
    | inr other ↦ rw other (omega arith)
  ]

  pub due_own : (k : Key) (a : D) → due k k a ≡ d.units a
  due_own k a = rw (beq_refl k)

  -- A write to one account leaves the others.
  pub entry_of-insert :
      (j k : Key) (e : BalanceEntry D) (m : Accounts D)
      → entry_of j (insert k e m) ≡ (if k =? j then e else entry_of j m)
  entry_of-insert j k e m = ground (arith, lookup-insert j k e m)

  -- Crediting an account leaves what is frozen in every account.
  pub frozen-credit :
      (j k : Key) (a : D) (m : Accounts D)
      → (entry_of j (credit k a m)).frozen ≡ (entry_of j m).frozen
  unfolding credit
  frozen-credit j k a m = elim (Bool-cases (k =? j)) [
    | inl same ↦
        rw (entry_of-insert j k (credit_entry a (entry_of k m)) m, same)
          (ap (λ i. (entry_of i m).frozen) ((pair_eq.beq_iff k j).0 same))
    | inr other ↦ rw (entry_of-insert j k (credit_entry a (entry_of k m)) m, other)
  ]

  pub frozen-consumed :
      (j k : Key) (a : D) (m : Accounts D)
      → frozen j (insert k (consume_entry a (entry_of k m)) m) +ℤ due j k a ≡ frozen j m
  frozen-consumed j k a m =
      let e = consume_entry a (entry_of k m) in
      let written : frozen j (insert k e m) ≡ d.units (if k =? j then e else entry_of j m).frozen =
        ap (λ x. d.units x.frozen) (entry_of-insert j k e m) in
      elim (Bool-cases (k =? j)) [
        | inl same ↦
            let here : frozen k m ≡ frozen j m =
              ap (λ i. frozen i m) ((pair_eq.beq_iff k j).0 same) in
            rw same (
              omega (
                int_laws,
                parts (rw same at written),
                parts (d.units-sub (entry_of k m).frozen a),
                parts here,
              ))
        | inr other ↦ rw other (omega (int_laws, parts (rw other at written)))
      ]

  pub enough_frozen :
      (k : Key) (a : D) (m : Accounts D)
      → d.units a ≤ℤ frozen k m
      → lt (entry_of k m).frozen a ≡ false
  enough_frozen k a m h = ground arith
