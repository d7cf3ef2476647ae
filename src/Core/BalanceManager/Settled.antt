-- ===== src/Core/BalanceManager/Settled.antt =====
-- Settlements that have the frozen funds which they need, in
-- crates/openmatch-core/src/balance_manager.rs.
use openmatch.Base.{
  ◌≡◌, refl, List, [], ◌∷◌, ℤ, pos, ◌+ℤ◌, ◌≤ℤ◌, int_laws, parts, ok, false, ◌=?◌, arith, nat_eq,
  string_eq, pair_eq, All, ap,
}
use openmatch.Decimal.{Decimal, lt}
use openmatch.Types.{UserId, Trade, MarketPair}
use openmatch.Map.{insert}
use openmatch.Accounts.{Key, Accounts, credit, consume_entry}
use openmatch.Base.{sum_of}
use openmatch.Core.BalanceManager.{
  get, settle_seller, settle_trade, parties, Call, settle_call, apply, run,
}
use openmatch.Accounts.Frozen.{
  other_asset, frozen, due, frozen-consumed, frozen-credit, due-nonneg, due_own, enough_frozen,
}
use openmatch.Core.BalanceManager.Half.{debit_frozen-enough}

module _ {D : Type 0} ⦃d : Decimal D⦄ where
  -- What a trade takes from the frozen part of an account.
  abbrev pub owed : MarketPair → Key → Trade D → ℤ
  owed market j t =
      let (buyer, seller) = parties t.taker_side t in
      due j (buyer, market.quote) t.quote_amount +ℤ due j (seller, market.base) t.quantity

  settle_seller-covered :
      (j : Key) (buyer seller : UserId) (t : Trade D) (market : MarketPair) (m : Accounts D)
      → lt (get (seller, market.base) m).frozen t.quantity ≡ false
      → let (r, n) = settle_seller buyer seller t market m in
        (r ≡ ok tt) × (frozen j n +ℤ due j (seller, market.base) t.quantity ≡ frozen j m)
  settle_seller-covered j buyer seller t market m enough =
      let credited = credit (buyer, market.base) t.quantity m in
      let k : Key = (seller, market.base) in
      let paid =
        debit_frozen-enough k t.quantity credited
          (rw (frozen-credit k (buyer, market.base) t.quantity m) enough) in
      let after = insert k (consume_entry t.quantity (get k credited)) credited in
      rw paid (
        refl,
        omega (
          int_laws,
          parts (ap d.units (frozen-credit j (seller, market.quote) t.quote_amount after)),
          parts (frozen-consumed j k t.quantity credited),
          parts (ap d.units (frozen-credit j (buyer, market.base) t.quantity m)),
        ),
      )

  -- A trade that takes nothing negative.
  abbrev IsNonNegative : Trade D → Type 0
  IsNonNegative t = (pos 0 ≤ℤ d.units t.quantity) × (pos 0 ≤ℤ d.units t.quote_amount)

  settle_trade-covered :
      (t : Trade D) (market : MarketPair) (m : Accounts D)
      → (market.quote =? market.base) ≡ false
      → IsNonNegative t
      → ((j : Key) → owed market j t ≤ℤ frozen j m)
      → ((settle_trade t market m).0 ≡ ok tt)
        × ((j : Key) → frozen j (settle_trade t market m).1 +ℤ owed market j t ≡ frozen j m)
  unfolding settle_trade
  settle_trade-covered t market m apart (q, a) covered =
      let (buyer, seller) = parties t.taker_side t in
      let k : Key = (buyer, market.quote) in
      let l : Key = (seller, market.base) in
      let differ = other_asset k l apart in
      let paid = debit_frozen-enough k t.quote_amount m (
        enough_frozen k t.quote_amount m (
          omega (
            int_laws,
            covered k,
            parts (due_own k t.quote_amount),
            due-nonneg k l t.quantity q,
          ))) in
      let m1 = insert k (consume_entry t.quote_amount (get k m)) m in
      let kept : due l k t.quote_amount ≡ pos 0 = rw differ in
      let untouched = frozen-consumed l k t.quote_amount m in
      let funded : lt (get l m1).frozen t.quantity ≡ false =
        enough_frozen l t.quantity m1 (
          omega (int_laws, covered l, parts (due_own l t.quantity), parts kept, parts untouched)) in
      rw (settle_trade, paid)
        (
          (settle_seller-covered l buyer seller t market m1 funded).0,
          λ j. omega (
            int_laws,
            parts (frozen-consumed j k t.quote_amount m),
            parts (settle_seller-covered j buyer seller t market m1 funded).1,
          ),
        )

  -- Every settlement of the trades, one after the other, succeeds.
  abbrev pub AllSettle : MarketPair → List (Trade D) → Accounts D → Type 0
  AllSettle market [] m = Unit
  AllSettle market (t ∷ ts) m =
      ((settle_trade t market m).0 ≡ ok tt) × AllSettle market ts (settle_trade t market m).1

  abbrev pub settlements : MarketPair → List (Trade D) → List (Call D)
  settlements market [] = []
  settlements market (t ∷ ts) = settle_call t market ∷ settlements market ts

  owed-nonneg :
      (market : MarketPair) (j : Key) (ts : List (Trade D))
      → All IsNonNegative ts
      → pos 0 ≤ℤ sum_of (owed market j) ts
  owed-nonneg market j [] h = omega arith
  owed-nonneg market j (t ∷ ts) ((q, a), later) =
      let (buyer, seller) = parties t.taker_side t in
      omega (
        int_laws,
        due-nonneg j (buyer, market.quote) t.quote_amount a,
        due-nonneg j (seller, market.base) t.quantity q,
        owed-nonneg market j ts later,
      )

  -- If the base and the quote asset differ, no trade has a negative quantity or quote amount, and
  -- every account has at least as much frozen as the trades together take from it, then all the trades
  -- settle, one after the other, and take just that from what is frozen.
  pub settle_trade_each :
      (market : MarketPair) (ts : List (Trade D)) (m : Accounts D)
      → (market.quote =? market.base) ≡ false
      → All IsNonNegative ts
      → ((j : Key) → sum_of (owed market j) ts ≤ℤ frozen j m)
      → AllSettle market ts m
        × ((j : Key)
            → frozen j (run (settlements market ts) m) +ℤ sum_of (owed market j) ts ≡ frozen j m)
  unfolding run apply
  settle_trade_each market [] m apart h covered = (tt, λ j. omega int_laws)
  settle_trade_each market (t ∷ ts) m apart (here, later) covered =
      let (done, taken) =
        settle_trade-covered t market m apart here
          (λ j. omega (int_laws, covered j, owed-nonneg market j ts later)) in
      let (all_done, all_taken) =
        settle_trade_each market ts (settle_trade t market m).1 apart later
          (λ j. omega (int_laws, covered j, parts (taken j))) in
      ((done, all_done), λ j. omega (int_laws, parts (taken j), parts (all_taken j)))
