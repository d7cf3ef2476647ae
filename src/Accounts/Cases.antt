-- ===== src/Accounts/Cases.antt =====
-- How each fallible write of the accounts ends: an error and no write, or one entry rewritten.
use openmatch.Base.{
  ap, sym, true, pair_beq_iff, arith, ◌=?◌, if◌then◌else◌, ◌≡◌, some, false, ◌⊎◌, inl, inr, Result,
  ok, err, Option-cases, Bool-cases, nat_eq, string_eq, pair_eq,
}
use openmatch.Decimal.{Decimal, lt}
use openmatch.Map.{lookup, lookup-insert, insert}
use openmatch.Types.{BalanceEntry, OpenmatchError, insufficient_balance, insufficient_frozen}
use openmatch.Accounts.{
  Key, Accounts, key_eq, balance, freeze, unfreeze, consume_frozen, freeze_entry, unfreeze_entry,
  consume_entry,
}

abbrev pub Outcome : Type 0 → Type 0
Outcome D = Result (OpenmatchError D) (Unit {0}) × Accounts D

module _ {D : Type 0} ⦃d : Decimal D⦄ where
  -- `r` failed and left `m` alone, or rewrote the entry of `k` by `f`, which `part` allowed.
  abbrev pub Writes :
      Key
      → D
      → Accounts D
      → (BalanceEntry D → D)
      → (BalanceEntry D → BalanceEntry D)
      → Outcome D
      → Type 0
  Writes k a m part f r =
      ((x : OpenmatchError D) × (r ≡ (err x, m)))
      ⊎ ((e : BalanceEntry D) × (lookup k m ≡ some e)
          × (lt (part e) a ≡ false)
          × (r ≡ (ok tt, insert k (f e) m)))

  pub freeze-Writes :
      (k : Key) (a : D) (m : Accounts D)
      → Writes k a m (λ e. e.available) (freeze_entry a) (freeze k a m)
  unfolding freeze
  freeze-Writes k a m = elim (Option-cases (lookup k m)) [
    | inl new ↦ inl (insufficient_balance a d.zero, rw (new, freeze))
    | inr (e, old) ↦ elim (Bool-cases (lt e.available a)) [
      | inl short ↦ inl (insufficient_balance a e.available, rw (old, freeze, short))
      | inr enough ↦ inr (e, old, enough, rw (old, freeze, enough))
    ]
  ]

  pub unfreeze-Writes :
      (k : Key) (a : D) (m : Accounts D)
      → Writes k a m (λ e. e.frozen) (unfreeze_entry a) (unfreeze k a m)
  unfolding unfreeze
  unfreeze-Writes k a m = elim (Option-cases (lookup k m)) [
    | inl new ↦ inl (insufficient_frozen, rw (new, unfreeze))
    | inr (e, old) ↦ elim (Bool-cases (lt e.frozen a)) [
      | inl short ↦ inl (insufficient_frozen, rw (old, unfreeze, short))
      | inr enough ↦ inr (e, old, enough, rw (old, unfreeze, enough))
    ]
  ]

  pub consume_frozen-Writes :
      (k : Key) (a : D) (m : Accounts D)
      → Writes k a m (λ e. e.frozen) (consume_entry a) (consume_frozen k a m)
  unfolding consume_frozen
  consume_frozen-Writes k a m = elim (Option-cases (lookup k m)) [
    | inl new ↦ inl (insufficient_frozen, rw (new, consume_frozen))
    | inr (e, old) ↦ elim (Bool-cases (lt e.frozen a)) [
      | inl short ↦ inl (insufficient_frozen, rw (old, consume_frozen, short))
      | inr enough ↦ inr (e, old, enough, rw (old, consume_frozen, enough))
    ]
  ]

  pub balance-insert :
      (j k : Key) (e : BalanceEntry D) (m : Accounts D)
      → balance j (insert k e m) ≡ (if k =? j then e else balance j m)
  unfolding balance
  balance-insert j k e m = ground (arith, lookup-insert j k e m)

  -- Equal keys have equal balances.
  pub balance_same : (j k : Key) (m : Accounts D) → key_eq k j ≡ true → balance j m ≡ balance k m
  balance_same j k m h = ap (λ (i : Key). balance i m) (sym ((pair_beq_iff k j).0 h))

  pub balance_found :
      (k : Key) (m : Accounts D) {e : BalanceEntry D} → lookup k m ≡ some e → balance k m ≡ e
  unfolding balance
  balance_found k m h = ground arith
