-- ===== src/Exchange/Escrowed.antt =====
-- The orders of a batch and the spend rights minted for them
-- (crates/openmatch-ingress/src/escrow.rs), up to the settlement
-- (crates/openmatch-settlement/src/tier1.rs).
use openmatch.Base.{
  ℕ, ◌≡◌, ◌≢◌, refl, ap, sym, some, true, false, nat_eq, string_eq, pair_eq, pos, ◌≤ℤ◌, int_laws,
  parts, List, [], ◌∷◌, map, All, All-imp, All-map, All-any, All-both, AllDiffer, arith, Bool-cases,
  inl, inr, ◌=?◌, sum_of,
}
use openmatch.Decimal.{Decimal}
use openmatch.Decimal.Products.{HasExactProducts}
use openmatch.Map.{Map, lookup, insert, lookup-insert, All-insert, All-lookup}
use openmatch.Map.Sum.{total, total-insert, total-nonneg}
use openmatch.Types.{
  Order, OrderSide, SpendRight, SpendRightId, released, NodeId, TradeBundle, SealedBatch,
  MarketPair, effective_price,
}
use openmatch.Accounts
use openmatch.Accounts.{Accounts, Key}
use openmatch.Accounts.Frozen.{frozen, due}
use openmatch.Ingress.Escrow
use openmatch.Ingress.Escrow.{EscrowManager, Call, new_escrow, minted_ids}
use openmatch.Ingress.Escrow.Backing.{locked}
use openmatch.Ingress.Escrow.Reserved.{IsFree, is_unreleased, run-IsReserved}
use openmatch.Ingress.Escrow.Redeemed.{IsPaid, run-AllOwned, locked-nonneg}
use openmatch.MatchCore.Matcher.{match_sealed_batch}
use openmatch.Settlement.Tier1.{Tier1Settler}
use openmatch.Settlement.Tier1.Funded.{AreNew, AllSettle}
use openmatch.MatchCore.Matcher.Totals.{by_side}
use openmatch.Exchange.Reserve.{bid_reserve, ask_reserve}
use openmatch.Exchange.Orders.{reserve, account_on, IsFundable}
use openmatch.Exchange.Settles.{match_sealed_batch-settles}

module _ {D : Type 0} ⦃d : Decimal D⦄ where
  -- The amount that an order may take: for a buy what is left of it at its effective price, for a sell
  -- what is left of it.
  abbrev reserved_amount : OrderSide → Order D → D
  reserved_amount OrderSide.buy o = d.mul (effective_price o) o.remaining_qty
  reserved_amount OrderSide.sell o = o.remaining_qty

  -- The order's spend right is not released, and is for its account and for what it may take.
  pub record IsEscrowed (rights : Map SpendRightId (SpendRight D)) (o : Order D) : Type 0 where
    pub right : SpendRight D
    pub found : lookup o.sr_id rights ≡ some right
    pub unreleased : is_unreleased right.state ≡ true
    pub of_account : (right.user_id, right.asset) ≡ account_on o.side o
    pub enough : d.units (reserved_amount o.side o) ≤ℤ d.units right.amount

  reserve_due :
      (j : Key) (o : Order D) (s : OrderSide)
      → by_side (bid_reserve j) (ask_reserve j) s o ≡ due j (account_on s o) (reserved_amount s o)
  reserve_due j o OrderSide.buy = refl
  reserve_due j o OrderSide.sell = refl

  due-mono : (j k : Key) (a b : D) → d.units a ≤ℤ d.units b → due j k a ≤ℤ due j k b
  due-mono j k a b h = elim (Bool-cases (k =? j)) [
    | inl same ↦ rw same h
    | inr other ↦ rw other (omega arith)
  ]

  locked-due :
      (j : Key) (i : SpendRightId) (sr : SpendRight D)
      → is_unreleased sr.state ≡ true
      → locked is_unreleased j i sr ≡ due j (sr.user_id, sr.asset) sr.amount
  locked-due j i sr h = rw h

  reserve-locked :
      (j : Key) (rights : Map SpendRightId (SpendRight D)) (o : Order D) (e : IsEscrowed rights o)
      → reserve j o ≤ℤ locked is_unreleased j o.sr_id e.right
  reserve-locked j rights o e = omega (
    int_laws,
    parts (reserve_due j o o.side),
    due-mono j (account_on o.side o) (reserved_amount o.side o) e.right.amount e.enough,
    parts (ap (λ (k : Key). due j k e.right.amount) e.of_account),
    parts (locked-due j o.sr_id e.right e.unreleased),
  )

  -- A release of another right leaves an order its own.
  release-IsEscrowed :
      (i : SpendRightId) (sr : SpendRight D) (rights : Map SpendRightId (SpendRight D))
      (o : Order D)
      → i ≢ o.sr_id
      → IsEscrowed rights o
      → IsEscrowed (insert i sr rights) o
  release-IsEscrowed i sr rights o ne e = record {
    right = e.right;
    found = ground (arith, lookup-insert o.sr_id i sr rights, e.found);
    unreleased = e.unreleased;
    of_account = e.of_account;
    enough = e.enough;
  }

  abbrev pub right_ids : List (Order D) → List SpendRightId
  right_ids os = map (λ o. o.sr_id) os

  abbrev AllNonneg : Map SpendRightId (SpendRight D) → Type 0
  AllNonneg = All (λ x. pos 0 ≤ℤ d.units x.1.amount)

  -- Orders with different rights may together take no more than the rights that are not released.
  reserves_within :
      (j : Key) (os : List (Order D)) (rights : Map SpendRightId (SpendRight D))
      → AllDiffer (right_ids os)
      → All (IsEscrowed rights) os
      → AllNonneg rights
      → sum_of (reserve j) os ≤ℤ total (locked is_unreleased j) rights
  reserves_within j [] rights differ es nonneg =
      total-nonneg (locked is_unreleased j) rights
        (All-imp (λ (x : SpendRightId × SpendRight D) h. locked-nonneg j x.0 x.1 h) rights nonneg)
  reserves_within j (o ∷ os) rights (new, differ) (e, es) nonneg =
      let used = record e.right { state = released } in
      let later =
        reserves_within j os (insert o.sr_id used rights) differ
          (All-both (λ (x : Order D) ne k. release-IsEscrowed o.sr_id used rights x ne k) os
            (All-map (λ i. o.sr_id ≢ i) (λ (x : Order D). x.sr_id) os new) es)
          (All-insert (λ (r : SpendRight D). pos 0 ≤ℤ d.units r.amount) o.sr_id used rights
            (All-lookup (λ (r : SpendRight D). pos 0 ≤ℤ d.units r.amount) o.sr_id e.right rights
              nonneg e.found)
            nonneg) in
      let t = rw (e.found) at (total-insert (locked is_unreleased j) o.sr_id used rights) in
      omega (int_laws, later, parts t, reserve-locked j rights o e)

  -- The rights of a manager that began over accounts in which nothing was frozen.
  escrow_covers :
      (node : NodeId) (n : ℕ) (m : Accounts D) (cs : List (Call D)) (os : List (Order D)) (j : Key)
      → ((k : Key) → d.units (Accounts.balance k m).frozen ≡ pos 0)
      → AllDiffer (minted_ids cs)
      → All IsPaid cs
      → All (IsEscrowed (Escrow.run cs (new_escrow node m n)).spend_rights) os
      → AllDiffer (right_ids os)
      → sum_of (reserve j) os
        ≤ℤ d.units (Accounts.balance j (Escrow.run cs (new_escrow node m n)).accounts).frozen
  escrow_covers node n m cs os j unfrozen differ paid es own =
      let s = new_escrow node m n in
      let s' = Escrow.run cs s in
      let funds =
        run-IsReserved cs s differ (All-any (IsFree s) (λ i. refl) (minted_ids cs))
          (λ k. sym (unfrozen k)) j in
      let nonneg =
        All-imp (λ (x : SpendRightId × SpendRight D) h. h.0) s'.spend_rights
          (run-AllOwned cs s paid tt) in
      omega (int_laws, reserves_within j os s'.spend_rights own es nonneg, parts funds)

  -- An escrow manager begins over accounts in which nothing is frozen, and mints, releases and spends
  -- rights in any order, never two under one id and none of a negative amount. If every order of a
  -- sealed batch then has a right of its own that is not released, on the account that it takes from
  -- and for at least what it may take, the quantity left for a sell, and for a buy that quantity at its
  -- effective price; if the settler has at least as much frozen in every account as the manager; if
  -- every order is in one market of two assets, has no negative price or quantity left, and its account
  -- at the settler exists; if products are exact; and if no trade of the bundle has the id of a settled
  -- trade or of another: then every trade of the bundle settles, one after the other.
  pub escrowed_batch-settles :
      (node : NodeId) (n : ℕ) (m : Accounts D) (cs : List (Call D)) (sha256 : List ℕ → List ℕ)
      (clock : ℕ → ℕ) (batch : SealedBatch D) (s : Tier1Settler D) (market : MarketPair)
      (r : TradeBundle D)
      → ((k : Key) → d.units (Accounts.balance k m).frozen ≡ pos 0)
      → AllDiffer (minted_ids cs)
      → All IsPaid cs
      → All (IsEscrowed (Escrow.run cs (new_escrow node m n)).spend_rights) batch.orders
      → AllDiffer (right_ids batch.orders)
      → ((j : Key)
          → d.units (Accounts.balance j (Escrow.run cs (new_escrow node m n)).accounts).frozen
            ≤ℤ frozen j s.balances)
      → HasExactProducts D
      → (market.base =? market.quote) ≡ false
      → All (IsFundable market s.balances) batch.orders
      → match_sealed_batch sha256 clock batch ≡ some r
      → AreNew s.idempotency.settled r.trades
      → AllSettle r.trades s
  escrowed_batch-settles node n m cs sha256 clock batch s market r unfrozen differ paid es own
        mirrored laws apart fundable matched new =
      let covered : (j : Key) → sum_of (reserve j) batch.orders ≤ℤ frozen j s.balances =
        λ (j : Key). omega (
          int_laws,
          escrow_covers node n m cs batch.orders j unfrozen differ paid es own,
          mirrored j,
        ) in
      (match_sealed_batch-settles sha256 clock batch s market r laws apart fundable covered matched
        new).0
