-- ===== src/Accounts/Supply.antt =====
-- How much of an asset the accounts hold together, and how each write changes it.
use openmatch.Base.{
  ◌≡◌, refl, [], ◌∷◌, ◌∙◌, ◌=?◌, nat_eq, string_eq, pair_eq, ℤ, pos, ◌+ℤ◌, int_laws, parts, Result,
  ok, err, if◌then◌else◌, Option-cases, inl, inr, Bool-cases,
}
use openmatch.Decimal.{Decimal}
use openmatch.Map.{lookup, lookup_or, insert}
use openmatch.Map.Sum.{total, total-insert}
use openmatch.Types.{Asset, BalanceEntry, empty_entry, entry_total}
use openmatch.Accounts.{
  Key, Accounts, credit, freeze, unfreeze, consume_frozen, sum_entries, total_supply, freeze_entry,
  unfreeze_entry, consume_entry, credit_entry,
}
use openmatch.Accounts.Cases.{
  Outcome, Writes, freeze-Writes, unfreeze-Writes, consume_frozen-Writes,
}
use openmatch.Types.{OpenmatchError}

module _ {D : Type 0} ⦃d : Decimal D⦄ where
  -- What one account adds to the supply of an asset.
  abbrev pub holding : Asset → Key → BalanceEntry D → ℤ
  holding asset k e = if k.1 =? asset then d.units e.available +ℤ d.units e.frozen else pos 0

  -- All that is held of an asset, available or frozen.
  abbrev pub supply : Asset → Accounts D → ℤ
  supply asset m = total (holding asset) m

  abbrev pub in_asset : Asset → Key → D → ℤ
  in_asset asset k amount = if k.1 =? asset then d.units amount else pos 0

  units-sum_entries :
      (asset : Asset) (acc : D) (m : Accounts D)
      → d.units (sum_entries asset acc m) ≡ d.units acc +ℤ supply asset m
  unfolding sum_entries
  units-sum_entries asset acc [] = omega int_laws
  units-sum_entries asset acc ((k, e) ∷ m) = elim (Bool-cases (k.1 =? asset)) [
    | inl same ↦ rw same (
        rw (units-sum_entries asset (d.add acc (entry_total e)) m)
          (simp (d.units-add) (omega int_laws)))
    | inr other ↦ rw other (rw (units-sum_entries asset acc m) (omega int_laws))
  ]

  -- What `total_supply` computes stands for the supply.
  pub units-total_supply :
      (asset : Asset) (m : Accounts D) → d.units (total_supply asset m) ≡ supply asset m
  unfolding total_supply
  units-total_supply asset m = units-sum_entries asset d.zero m ∙ rw d.units-zero (omega int_laws)

  -- Moving an amount between the two parts of an entry keeps what it holds.
  pub holding-freeze_entry :
      (asset : Asset) (k : Key) (a : D) (e : BalanceEntry D)
      → holding asset k (freeze_entry a e) ≡ holding asset k e
  holding-freeze_entry asset k a e = elim (Bool-cases (k.1 =? asset)) [
    | inl same ↦ rw same (simp (d.units-add, d.units-sub) (omega int_laws))
    | inr other ↦ rw other
  ]

  pub holding-unfreeze_entry :
      (asset : Asset) (k : Key) (a : D) (e : BalanceEntry D)
      → holding asset k (unfreeze_entry a e) ≡ holding asset k e
  holding-unfreeze_entry asset k a e = elim (Bool-cases (k.1 =? asset)) [
    | inl same ↦ rw same (simp (d.units-add, d.units-sub) (omega int_laws))
    | inr other ↦ rw other
  ]

  pub holding-consume_entry :
      (asset : Asset) (k : Key) (a : D) (e : BalanceEntry D)
      → holding asset k (consume_entry a e) +ℤ in_asset asset k a ≡ holding asset k e
  holding-consume_entry asset k a e = elim (Bool-cases (k.1 =? asset)) [
    | inl same ↦ rw same (simp (d.units-sub) (omega int_laws))
    | inr other ↦ rw other (omega int_laws)
  ]

  holding-credit_entry :
      (asset : Asset) (k : Key) (a : D) (e : BalanceEntry D)
      → holding asset k (credit_entry a e) ≡ holding asset k e +ℤ in_asset asset k a
  holding-credit_entry asset k a e = elim (Bool-cases (k.1 =? asset)) [
    | inl same ↦ rw same (simp (d.units-add) (omega int_laws))
    | inr other ↦ rw other (omega int_laws)
  ]

  holding-empty_entry :
      (asset : Asset) (k : Key) (e : BalanceEntry D) → e ≡ empty_entry → holding asset k e ≡ pos 0
  holding-empty_entry asset k e z = elim (Bool-cases (k.1 =? asset)) [
    | inl same ↦ rw (same, z) (simp (d.units-zero) (omega int_laws))
    | inr other ↦ rw other
  ]

  -- A write changes the supply by the difference of the new entry and the old.
  pub supply-insert :
      (asset : Asset) (k : Key) (e : BalanceEntry D) (m : Accounts D)
      → supply asset (insert k e m) +ℤ holding asset k (lookup_or empty_entry k m)
        ≡ supply asset m +ℤ holding asset k e
  supply-insert asset k e m = elim (Option-cases (lookup k m)) [
    | inl new ↦
        rw (lookup_or, new)
          (rw (holding-empty_entry asset k empty_entry refl)
            (rw new at (total-insert (holding asset) k e m)))
    | inr (old, h) ↦ rw (lookup_or, h) (rw h at (total-insert (holding asset) k e m))
  ]

  -- A credit raises the supply of its own asset by its amount, and no other.
  pub supply-credit :
      (asset : Asset) (k : Key) (a : D) (m : Accounts D)
      → supply asset (credit k a m) ≡ supply asset m +ℤ in_asset asset k a
  unfolding credit
  supply-credit asset k a m =
      let e = lookup_or empty_entry k m in
      omega (
        int_laws,
        parts (supply-insert asset k (credit_entry a e) m),
        parts (holding-credit_entry asset k a e),
      )

  -- A write that keeps what the account holds keeps every supply.
  supply-Writes :
      (asset : Asset) (k : Key) (a : D) (m : Accounts D) (part : BalanceEntry D → D)
      (f : BalanceEntry D → BalanceEntry D)
      → ((e : BalanceEntry D) → holding asset k (f e) ≡ holding asset k e)
      → (r : Outcome D) → Writes k a m part f r
      → supply asset r.1 ≡ supply asset m
  supply-Writes asset k a m part f keep r (inl (x, same)) = rw same
  supply-Writes asset k a m part f keep r (inr (e, old, enough, done)) = rw done (
      omega
        (int_laws, parts (rw (lookup_or, old) at (supply-insert asset k (f e) m)), parts (keep e)))

  pub supply-freeze :
      (asset : Asset) (k : Key) (a : D) (m : Accounts D)
      → supply asset (freeze k a m).1 ≡ supply asset m
  supply-freeze asset k a m =
      supply-Writes asset k a m (λ e. e.available) (freeze_entry a) (holding-freeze_entry asset k a)
        (freeze k a m) (freeze-Writes k a m)

  pub supply-unfreeze :
      (asset : Asset) (k : Key) (a : D) (m : Accounts D)
      → supply asset (unfreeze k a m).1 ≡ supply asset m
  supply-unfreeze asset k a m =
      supply-Writes asset k a m (λ e. e.frozen) (unfreeze_entry a)
        (holding-unfreeze_entry asset k a) (unfreeze k a m) (unfreeze-Writes k a m)

  -- What was spent by a call that took `amount` out if it succeeded.
  abbrev pub spent_if_ok : Asset → Key → D → Result (OpenmatchError D) (Unit {0}) → ℤ
  spent_if_ok asset k amount (ok u) = in_asset asset k amount
  spent_if_ok asset k amount (err x) = pos 0

  -- Consuming frozen funds lowers the supply of their asset by the amount, if it succeeds.
  pub supply-consume_frozen :
      (asset : Asset) (k : Key) (a : D) (m : Accounts D)
      → let (r, m') = consume_frozen k a m in
        supply asset m' +ℤ spent_if_ok asset k a r ≡ supply asset m
  supply-consume_frozen asset k a m = elim (consume_frozen-Writes k a m) [
    | inl (x, same) ↦ rw same (omega int_laws)
    | inr (e, old, enough, done) ↦ rw done (
        omega (
          int_laws,
          parts (rw (lookup_or, old) at (supply-insert asset k (consume_entry a e) m)),
          parts (holding-consume_entry asset k a e),
        ))
  ]
