-- ===== src/Core/BalanceManager/Solvency.antt =====
-- The signs of the balances in crates/openmatch-core/src/balance_manager.rs.
use openmatch.Base.{
  List, [], ◌∷◌, All, pos, ◌≤ℤ◌, Bool-cases, inl, inr, arith, bind-keeps, nat_eq, string_eq,
  pair_eq, ok,
}
use openmatch.Decimal.{Decimal, lt, le, add_parts, sub_parts, zero_parts}
use openmatch.Map.{insert, lookup-insert}
use openmatch.Types.{UserId, BalanceEntry, Trade, MarketPair}
use openmatch.Accounts.{
  Key, Accounts, credit, credit_entry, freeze_entry, unfreeze_entry, consume_entry,
}
use openmatch.Core.BalanceManager.{
  get, deposit, withdraw, freeze, unfreeze, debit_frozen, settle_seller, settle_trade,
  withdraw_entry, parties, Call, deposit_call, withdraw_call, freeze_call, unfreeze_call,
  settle_call, apply, run,
}

module _ {D : Type 0} ⦃d : Decimal D⦄ where
  abbrev NonNegative : BalanceEntry D → Type 0
  NonNegative e = (pos 0 ≤ℤ d.units e.available) × (pos 0 ≤ℤ d.units e.frozen)

  -- No account has a negative balance.
  abbrev pub IsSolvent : Accounts D → Type 0
  IsSolvent m = (k : Key) → NonNegative (get k m)

  insert-IsSolvent :
      (k : Key) (e : BalanceEntry D) (m : Accounts D)
      → NonNegative e
      → IsSolvent m
      → IsSolvent (insert k e m)
  insert-IsSolvent k e m h s j = ground (arith, lookup-insert j k e m, s j)

  deposit-IsSolvent : (k : Key) (a : D) (m : Accounts D) → IsSolvent m → IsSolvent (deposit k a m).1
  unfolding deposit
  deposit-IsSolvent k a m s = elim (Bool-cases (le a d.zero)) [
    | inl refused ↦ rw (refused, deposit) s
    | inr positive ↦
        rw (positive, deposit)
          (insert-IsSolvent k (credit_entry a (get k m)) m
            (ground (arith, zero_parts D, add_parts (get k m).available a, s k)) s)
  ]

  withdraw-IsSolvent :
      (k : Key) (a : D) (m : Accounts D) → IsSolvent m → IsSolvent (withdraw k a m).1
  unfolding withdraw
  withdraw-IsSolvent k a m s = elim (Bool-cases (le a d.zero)) [
    | inl refused ↦ rw (refused, withdraw) s
    | inr positive ↦ elim (Bool-cases (lt (get k m).available a)) [
      | inl short ↦ rw (positive, withdraw, short) (insert-IsSolvent k (get k m) m (s k) s)
      | inr enough ↦
          rw (positive, withdraw, enough)
            (insert-IsSolvent k (withdraw_entry a (get k m)) m
              (ground (arith, sub_parts (get k m).available a, s k)) s)
    ]
  ]

  freeze-IsSolvent : (k : Key) (a : D) (m : Accounts D) → IsSolvent m → IsSolvent (freeze k a m).1
  unfolding freeze
  freeze-IsSolvent k a m s = elim (Bool-cases (le a d.zero)) [
    | inl refused ↦ rw (refused, freeze) s
    | inr positive ↦ elim (Bool-cases (lt (get k m).available a)) [
      | inl short ↦ rw (positive, freeze, short) (insert-IsSolvent k (get k m) m (s k) s)
      | inr enough ↦
          rw (positive, freeze, enough)
            (insert-IsSolvent k (freeze_entry a (get k m)) m
              (ground (
                arith,
                zero_parts D,
                sub_parts (get k m).available a,
                add_parts (get k m).frozen a,
                s k,
              ))
              s)
    ]
  ]

  unfreeze-IsSolvent :
      (k : Key) (a : D) (m : Accounts D) → IsSolvent m → IsSolvent (unfreeze k a m).1
  unfolding unfreeze
  unfreeze-IsSolvent k a m s = elim (Bool-cases (le a d.zero)) [
    | inl refused ↦ rw (refused, unfreeze) s
    | inr positive ↦ elim (Bool-cases (lt (get k m).frozen a)) [
      | inl short ↦ rw (positive, unfreeze, short) (insert-IsSolvent k (get k m) m (s k) s)
      | inr enough ↦
          rw (positive, unfreeze, enough)
            (insert-IsSolvent k (unfreeze_entry a (get k m)) m
              (ground (
                arith,
                zero_parts D,
                sub_parts (get k m).frozen a,
                add_parts (get k m).available a,
                s k,
              ))
              s)
    ]
  ]

  debit_frozen-IsSolvent :
      (k : Key) (a : D) (m : Accounts D) → IsSolvent m → IsSolvent (debit_frozen k a m).1
  unfolding debit_frozen
  debit_frozen-IsSolvent k a m s = elim (Bool-cases (lt (get k m).frozen a)) [
    | inl short ↦ rw (debit_frozen, short) (insert-IsSolvent k (get k m) m (s k) s)
    | inr enough ↦
        rw (debit_frozen, enough)
          (insert-IsSolvent k (consume_entry a (get k m)) m
            (ground (arith, sub_parts (get k m).frozen a, s k)) s)
  ]

  credit-IsSolvent :
      (k : Key) (a : D) (m : Accounts D)
      → pos 0 ≤ℤ d.units a
      → IsSolvent m
      → IsSolvent (credit k a m)
  unfolding credit
  credit-IsSolvent k a m h s =
      insert-IsSolvent k (credit_entry a (get k m)) m
        (ground (arith, add_parts (get k m).available a, s k)) s

  settle_seller-IsSolvent :
      (buyer seller : UserId) (t : Trade D) (market : MarketPair) (m : Accounts D)
      → pos 0 ≤ℤ d.units t.quantity
      → pos 0 ≤ℤ d.units t.quote_amount
      → IsSolvent m
      → IsSolvent (settle_seller buyer seller t market m).1
  settle_seller-IsSolvent buyer seller t market m h k s =
      let credited = credit (buyer, market.base) t.quantity m in
      bind-keeps IsSolvent (debit_frozen (seller, market.base) t.quantity credited)
        (λ u n. (ok tt, credit (seller, market.quote) t.quote_amount n))
        (debit_frozen-IsSolvent (seller, market.base) t.quantity credited
          (credit-IsSolvent (buyer, market.base) t.quantity m h s))
        λ u n s2. credit-IsSolvent (seller, market.quote) t.quote_amount n k s2

  settle_trade-IsSolvent :
      (t : Trade D) (market : MarketPair) (m : Accounts D)
      → pos 0 ≤ℤ d.units t.quantity
      → pos 0 ≤ℤ d.units t.quote_amount
      → IsSolvent m
      → IsSolvent (settle_trade t market m).1
  unfolding settle_trade
  settle_trade-IsSolvent t market m h k s =
      let (buyer, seller) = parties t.taker_side t in
      bind-keeps IsSolvent (debit_frozen (buyer, market.quote) t.quote_amount m)
        (λ u n. settle_seller buyer seller t market n)
        (debit_frozen-IsSolvent (buyer, market.quote) t.quote_amount m s)
        λ u n s1. settle_seller-IsSolvent buyer seller t market n h k s1

  -- What a call may carry: only a trade is not checked by the call itself.
  abbrev IsSane : Call D → Type 0
  IsSane (settle_call t market) = (pos 0 ≤ℤ d.units t.quantity) × (pos 0 ≤ℤ d.units t.quote_amount)
  IsSane _ = Unit

  -- If no balance is negative, none is after any deposits, withdrawals, freezes, unfreezes and
  -- settlements, accepted, refused or failed half-way, as long as no settled trade has a negative
  -- quantity or quote amount.
  pub run-IsSolvent :
      (cs : List (Call D)) (m : Accounts D) → All IsSane cs → IsSolvent m → IsSolvent (run cs m)
  unfolding run apply
  run-IsSolvent [] m ok_calls s = s
  run-IsSolvent (deposit_call k a ∷ cs) m (u, later) s =
      run-IsSolvent cs (deposit k a m).1 later (deposit-IsSolvent k a m s)
  run-IsSolvent (withdraw_call k a ∷ cs) m (u, later) s =
      run-IsSolvent cs (withdraw k a m).1 later (withdraw-IsSolvent k a m s)
  run-IsSolvent (freeze_call k a ∷ cs) m (u, later) s =
      run-IsSolvent cs (freeze k a m).1 later (freeze-IsSolvent k a m s)
  run-IsSolvent (unfreeze_call k a ∷ cs) m (u, later) s =
      run-IsSolvent cs (unfreeze k a m).1 later (unfreeze-IsSolvent k a m s)
  run-IsSolvent (settle_call t market ∷ cs) m ((p, q), later) s =
      run-IsSolvent cs (settle_trade t market m).1 later (settle_trade-IsSolvent t market m p q s)
