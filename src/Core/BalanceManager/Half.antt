-- ===== src/Core/BalanceManager/Half.antt =====
-- How a settlement of crates/openmatch-core/src/balance_manager.rs may fail, and what it then leaves
-- behind.
use openmatch.Base.{
  ◌≡◌, refl, ◌+ℤ◌, ◌⊎◌, int_laws, parts, Result, ok, err, bind, true, false, ◌=?◌, arith, nat_eq,
  string_eq, pair_eq, Bool-cases, inl, inr,
}
use openmatch.Decimal.{Decimal, lt}
use openmatch.Map.{insert}
use openmatch.Types.{UserId, Asset, Trade, MarketPair, OpenmatchError, insufficient_frozen}
use openmatch.Accounts.{Key, Accounts, credit, consume_entry}
use openmatch.Accounts.Frozen.{frozen-credit, entry_of-insert}
use openmatch.Accounts.Supply.{supply, in_asset, supply-credit}
use openmatch.Core.BalanceManager.{Outcome, get, debit_frozen, settle_seller, settle_trade, parties}
use openmatch.Core.BalanceManager.Supply.{supply-debit_frozen}

module _ {D : Type 0} ⦃d : Decimal D⦄ where
  pub debit_frozen-enough :
      (k : Key) (a : D) (m : Accounts D)
      → lt (get k m).frozen a ≡ false
      → debit_frozen k a m ≡ (ok tt, insert k (consume_entry a (get k m)) m)
  unfolding debit_frozen
  debit_frozen-enough k a m h = rw (debit_frozen, h)

  debit_frozen-short :
      (k : Key) (a : D) (m : Accounts D)
      → lt (get k m).frozen a ≡ true
      → debit_frozen k a m ≡ (err insufficient_frozen, insert k (get k m) m)
  unfolding debit_frozen
  debit_frozen-short k a m h = rw (debit_frozen, h)

  -- A call succeeds or lacks frozen funds.
  abbrev pub IsFundsResult : Result (OpenmatchError D) (Unit {0}) → Type 0
  IsFundsResult r = (r ≡ ok tt) ⊎ (r ≡ err insufficient_frozen)

  debit_frozen-IsFundsResult :
      (k : Key) (a : D) (m : Accounts D) → IsFundsResult (debit_frozen k a m).0
  debit_frozen-IsFundsResult k a m = elim (Bool-cases (lt (get k m).frozen a)) [
    | inl short ↦ rw (debit_frozen-short k a m short) (inr refl)
    | inr enough ↦ rw (debit_frozen-enough k a m enough) (inl refl)
  ]

  bind-IsFundsResult :
      (r : Outcome D) (f : Unit {0} → Accounts D → Outcome D)
      → IsFundsResult r.0
      → ((u : Unit {0}) (m : Accounts D) → IsFundsResult (f u m).0)
      → IsFundsResult (bind r f).0
  bind-IsFundsResult (ok u, m) f h k = k u m
  bind-IsFundsResult (err e, m) f h k = h

  -- A settlement succeeds or fails for want of frozen funds.
  pub settle_trade-IsFundsResult :
      (t : Trade D) (market : MarketPair) (m : Accounts D)
      → IsFundsResult (settle_trade t market m).0
  unfolding settle_trade
  settle_trade-IsFundsResult t market m =
      let (buyer, seller) = parties t.taker_side t in
      bind-IsFundsResult (debit_frozen (buyer, market.quote) t.quote_amount m)
        (λ u n. settle_seller buyer seller t market n)
        (debit_frozen-IsFundsResult (buyer, market.quote) t.quote_amount m)
        λ u n.
          let credited = credit (buyer, market.base) t.quantity n in
          bind-IsFundsResult (debit_frozen (seller, market.base) t.quantity credited)
            (λ v k. (ok tt, credit (seller, market.quote) t.quote_amount k))
            (debit_frozen-IsFundsResult (seller, market.base) t.quantity credited) λ v k. inl refl

  -- The seller has not frozen enough of the base asset: the buyer has it nevertheless.
  settle_seller-short :
      (asset : Asset) (buyer seller : UserId) (t : Trade D) (market : MarketPair) (m : Accounts D)
      → lt (get (seller, market.base) m).frozen t.quantity ≡ true
      → let (r, n) = settle_seller buyer seller t market m in
        (r ≡ err insufficient_frozen)
        × (supply asset n ≡ supply asset m +ℤ in_asset asset (buyer, market.base) t.quantity)
  settle_seller-short asset buyer seller t market m short =
      let credited = credit (buyer, market.base) t.quantity m in
      let kept = frozen-credit (seller, market.base) (buyer, market.base) t.quantity m in
      let failed = debit_frozen-short (seller, market.base) t.quantity credited (rw kept short) in
      rw failed (
        refl,
        omega (
          int_laws,
          parts
              (rw failed at (supply-debit_frozen asset (seller, market.base) t.quantity credited)),
          parts (supply-credit asset (buyer, market.base) t.quantity m),
        ),
      )

  -- If the buyer has frozen the quote amount but the seller has not frozen the quantity, a
  -- settlement fails with `InsufficientFrozen`, and yet all that is held of the base asset has
  -- grown by the quantity, and all that is held of the quote asset has shrunk by the quote amount.
  pub settle_trade_short :
      (asset : Asset) (t : Trade D) (market : MarketPair) (m : Accounts D)
      → let (buyer, seller) = parties t.taker_side t in
        (market.quote =? market.base) ≡ false
        → lt (get (buyer, market.quote) m).frozen t.quote_amount ≡ false
        → lt (get (seller, market.base) m).frozen t.quantity ≡ true
        → let (r, n) = settle_trade t market m in
          (r ≡ err insufficient_frozen)
          × (supply asset n +ℤ in_asset asset (buyer, market.quote) t.quote_amount
              ≡ supply asset m +ℤ in_asset asset (buyer, market.base) t.quantity)
  unfolding settle_trade
  settle_trade_short asset t market m other enough short =
      let (buyer, seller) = parties t.taker_side t in
      let paid = debit_frozen-enough (buyer, market.quote) t.quote_amount m enough in
      let m1 = (debit_frozen (buyer, market.quote) t.quote_amount m).1 in
      let same : (get (seller, market.base) m1).frozen ≡ (get (seller, market.base) m).frozen =
        rw paid (
          ground (
            arith,
            entry_of-insert (seller, market.base) (buyer, market.quote)
                (consume_entry t.quote_amount (get (buyer, market.quote) m)) m,
          )) in
      let (failed, grown) = settle_seller-short asset buyer seller t market m1 (rw same short) in
      rw (settle_trade, paid)
        (
          rw paid at failed,
          omega (
            int_laws,
            parts (rw paid at grown),
            parts (rw paid at (supply-debit_frozen asset (buyer, market.quote) t.quote_amount m)),
          ),
        )
