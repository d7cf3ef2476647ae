-- ===== src/Core/BalanceManager/Supply.antt =====
-- How the calls of crates/openmatch-core/src/balance_manager.rs change what is held of an asset.
use openmatch.Base.{
  ◌≡◌, refl, ◌+ℤ◌, int_laws, parts, ok, bind-ok, Bool-cases, inl, inr, ◌=?◌, nat_eq, string_eq,
  pair_eq,
}
use openmatch.Decimal.{Decimal, lt, le}
use openmatch.Map.{insert}
use openmatch.Types.{UserId, Asset, BalanceEntry, Trade, MarketPair}
use openmatch.Accounts.{Key, Accounts, credit, freeze_entry, unfreeze_entry, consume_entry}
use openmatch.Accounts.Supply.{
  supply, holding, in_asset, supply-insert, supply-credit, spent_if_ok, holding-freeze_entry,
  holding-unfreeze_entry, holding-consume_entry,
}
use openmatch.Core.BalanceManager.{
  get, deposit, withdraw, withdraw_entry, freeze, unfreeze, debit_frozen, settle_seller,
  settle_trade, parties,
}

module _ {D : Type 0} ⦃d : Decimal D⦄ where
  -- A write that keeps what the account holds keeps every supply.
  supply-kept :
      (asset : Asset) (k : Key) (e : BalanceEntry D) (m : Accounts D)
      → holding asset k e ≡ holding asset k (get k m)
      → supply asset (insert k e m) ≡ supply asset m
  supply-kept asset k e m h = omega (int_laws, parts (supply-insert asset k e m), parts h)

  -- A write that takes an amount out of the account lowers the supply of its asset.
  supply-lowered :
      (asset : Asset) (k : Key) (a : D) (e : BalanceEntry D) (m : Accounts D)
      → holding asset k e +ℤ in_asset asset k a ≡ holding asset k (get k m)
      → supply asset (insert k e m) +ℤ in_asset asset k a ≡ supply asset m
  supply-lowered asset k a e m h = omega (int_laws, parts (supply-insert asset k e m), parts h)

  holding-withdraw_entry :
      (asset : Asset) (k : Key) (a : D) (e : BalanceEntry D)
      → holding asset k (withdraw_entry a e) +ℤ in_asset asset k a ≡ holding asset k e
  holding-withdraw_entry asset k a e = elim (Bool-cases (k.1 =? asset)) [
    | inl same ↦ rw same (simp (d.units-sub) (omega int_laws))
    | inr other ↦ rw other (omega int_laws)
  ]

  pub supply-deposit :
      (asset : Asset) (k : Key) (a : D) (m : Accounts D)
      → let (r, n) = deposit k a m in supply asset n ≡ supply asset m +ℤ spent_if_ok asset k a r
  unfolding deposit credit
  supply-deposit asset k a m = elim (Bool-cases (le a d.zero)) [
    | inl refused ↦ rw (refused, deposit) (omega int_laws)
    | inr positive ↦ rw (positive, deposit) (supply-credit asset k a m)
  ]

  pub supply-withdraw :
      (asset : Asset) (k : Key) (a : D) (m : Accounts D)
      → let (r, n) = withdraw k a m in supply asset n +ℤ spent_if_ok asset k a r ≡ supply asset m
  unfolding withdraw
  supply-withdraw asset k a m = elim (Bool-cases (le a d.zero)) [
    | inl refused ↦ rw (refused, withdraw) (omega int_laws)
    | inr positive ↦ elim (Bool-cases (lt (get k m).available a)) [
      | inl short ↦
          rw (positive, short, withdraw)
            (omega (int_laws, parts (supply-kept asset k (get k m) m refl)))
      | inr enough ↦
          rw (positive, enough, withdraw)
            (supply-lowered asset k a (withdraw_entry a (get k m)) m
              (holding-withdraw_entry asset k a (get k m)))
    ]
  ]

  pub supply-freeze :
      (asset : Asset) (k : Key) (a : D) (m : Accounts D)
      → supply asset (freeze k a m).1 ≡ supply asset m
  unfolding freeze
  supply-freeze asset k a m = elim (Bool-cases (le a d.zero)) [
    | inl refused ↦ rw (refused, freeze)
    | inr positive ↦ elim (Bool-cases (lt (get k m).available a)) [
      | inl short ↦ rw (positive, short, freeze) (supply-kept asset k (get k m) m refl)
      | inr enough ↦
          rw (positive, enough, freeze)
            (supply-kept asset k (freeze_entry a (get k m)) m
              (holding-freeze_entry asset k a (get k m)))
    ]
  ]

  pub supply-unfreeze :
      (asset : Asset) (k : Key) (a : D) (m : Accounts D)
      → supply asset (unfreeze k a m).1 ≡ supply asset m
  unfolding unfreeze
  supply-unfreeze asset k a m = elim (Bool-cases (le a d.zero)) [
    | inl refused ↦ rw (refused, unfreeze)
    | inr positive ↦ elim (Bool-cases (lt (get k m).frozen a)) [
      | inl short ↦ rw (positive, short, unfreeze) (supply-kept asset k (get k m) m refl)
      | inr enough ↦
          rw (positive, enough, unfreeze)
            (supply-kept asset k (unfreeze_entry a (get k m)) m
              (holding-unfreeze_entry asset k a (get k m)))
    ]
  ]

  pub supply-debit_frozen :
      (asset : Asset) (k : Key) (a : D) (m : Accounts D)
      → let (r, n) = debit_frozen k a m in
        supply asset n +ℤ spent_if_ok asset k a r ≡ supply asset m
  unfolding debit_frozen
  supply-debit_frozen asset k a m = elim (Bool-cases (lt (get k m).frozen a)) [
    | inl short ↦
        rw (short, debit_frozen) (omega (int_laws, parts (supply-kept asset k (get k m) m refl)))
    | inr enough ↦
        rw (enough, debit_frozen)
          (supply-lowered asset k a (consume_entry a (get k m)) m
            (holding-consume_entry asset k a (get k m)))
  ]

  settle_seller-ok :
      (asset : Asset) (buyer seller : UserId) (t : Trade D) (market : MarketPair) (m : Accounts D)
      → (settle_seller buyer seller t market m).0 ≡ ok tt
      → supply asset (settle_seller buyer seller t market m).1
        ≡ supply asset m +ℤ in_asset asset (buyer, market.quote) t.quote_amount
  settle_seller-ok asset buyer seller t market m accepted =
      let credited = credit (buyer, market.base) t.quantity m in
      let debited = debit_frozen (seller, market.base) t.quantity credited in
      let (u, (paid, state)) =
        bind-ok debited (λ u n. (ok tt, credit (seller, market.quote) t.quote_amount n)) tt
          accepted in
      rw state (
        omega (
          int_laws,
          parts (supply-credit asset (seller, market.quote) t.quote_amount debited.1),
          parts (rw paid at (supply-debit_frozen asset (seller, market.base) t.quantity credited)),
          parts (supply-credit asset (buyer, market.base) t.quantity m),
        ))

  -- A settlement that succeeds keeps what is held of every asset.
  pub settle_trade-ok :
      (asset : Asset) (t : Trade D) (market : MarketPair) (m : Accounts D)
      → (settle_trade t market m).0 ≡ ok tt
      → supply asset (settle_trade t market m).1 ≡ supply asset m
  unfolding settle_trade
  settle_trade-ok asset t market m accepted =
      let (buyer, seller) = parties t.taker_side t in
      let debited = debit_frozen (buyer, market.quote) t.quote_amount m in
      let (u, (paid, state)) =
        bind-ok debited (λ u n. settle_seller buyer seller t market n) tt accepted in
      rw (settle_trade, state)
        (omega (
          int_laws,
          parts (settle_seller-ok asset buyer seller t market debited.1 (rw state at accepted)),
          parts (rw paid at (supply-debit_frozen asset (buyer, market.quote) t.quote_amount m)),
        ))
