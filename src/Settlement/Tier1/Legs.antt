-- ===== src/Settlement/Tier1/Legs.antt =====
-- The two legs of a settlement, one at a time.
pub mod Moves
use openmatch.Base.{
  ℕ, ◌≡◌, ◌≢◌, refl, sym, ◌∙◌, none, some, arith, Bool, true, false, Eq, ◌=?◌, nat_eq, string_eq,
  pair_eq, Result, ok, err, bind, if◌then◌else◌, contains, Bool-cases, inl, inr,
}
use openmatch.Decimal.{Decimal, lt}
use openmatch.Map.{lookup, lookup_or, insert, lookup-insert}
use openmatch.Types.{
  UserId, Asset, Trade, BalanceEntry, empty_entry, OpenmatchError, insufficient_frozen,
  trade_already_settled,
}
use openmatch.Accounts
use openmatch.Accounts.{Accounts, Key, consume_entry, credit_entry}
use openmatch.Accounts.Cases.{balance-insert, consume_frozen-Writes}
use openmatch.Settlement.Idempotency.{mark_settled, record_settled, make_room}
use openmatch.Settlement.Idempotency.Valid.{mark_settled_cases}
use openmatch.Settlement.Tier1.{Tier1Settler, transfer, settle_legs, settle_trade, buyer, seller}

module _ {D : Type 0} ⦃d : Decimal D⦄ where
  balance-credit :
      (j k : Key) (a : D) (m : Accounts D)
      → Accounts.balance j (Accounts.credit k a m)
        ≡ (if k =? j then credit_entry a (Accounts.balance k m) else Accounts.balance j m)
  unfolding Accounts.balance Accounts.credit
  balance-credit j k a m =
      ground (arith, lookup-insert j k (credit_entry a (lookup_or empty_entry k m)) m)

  -- The accounts after a leg that succeeds.
  abbrev pub moved : Asset → D → UserId → UserId → Accounts D → Accounts D
  moved asset amount from to m =
      Accounts.credit (to, asset) amount
        (insert (from, asset) (consume_entry amount (Accounts.balance (from, asset) m)) m)

  pub transfer-ok :
      (asset : Asset) (amount : D) (from to : UserId) (m : Accounts D) {e : BalanceEntry D}
      → lookup (from, asset) m ≡ some e
      → lt e.frozen amount ≡ false
      → transfer asset amount from to m ≡ (ok tt, moved asset amount from to m)
  unfolding transfer Accounts.consume_frozen Accounts.balance
  transfer-ok asset amount from to m h enough = ground arith

  pub balance-moved :
      (j : Key) (asset : Asset) (amount : D) (from to : UserId) (m : Accounts D)
      → from ≢ to
      → Accounts.balance j (moved asset amount from to m) ≡ (
          if (to, asset) =? j
          then credit_entry amount (Accounts.balance (to, asset) m)
          else if (from, asset) =? j
          then consume_entry amount (Accounts.balance (from, asset) m)
          else Accounts.balance j m)
  balance-moved j asset amount from to m ne =
      let e = consume_entry amount (Accounts.balance (from, asset) m) in
      ground (
        arith,
        balance-credit j (to, asset) amount (insert (from, asset) e m),
        balance-insert j (from, asset) e m,
        balance-insert (to, asset) (from, asset) e m,
      )

  pub lookup-moved_ne :
      (j : Key) (asset : Asset) (amount : D) (from to : UserId) (m : Accounts D)
      → ((to, asset) =? j) ≡ false
      → ((from, asset) =? j) ≡ false
      → lookup j (moved asset amount from to m) ≡ lookup j m
  unfolding Accounts.credit
  lookup-moved_ne j asset amount from to m p q =
      let e = consume_entry amount (Accounts.balance (from, asset) m) in
      let m' = insert (from, asset) e m in
      ground (
        arith,
        lookup-insert j (to, asset) (credit_entry amount (lookup_or empty_entry (to, asset) m')) m',
        lookup-insert j (from, asset) e m,
      )

  pub transfer-short :
      (asset : Asset) (amount : D) (from to : UserId) (m : Accounts D) {e : BalanceEntry D}
      → lookup (from, asset) m ≡ some e
      → lt e.frozen amount ≡ true
      → transfer asset amount from to m ≡ (err insufficient_frozen, m)
  unfolding transfer Accounts.consume_frozen
  transfer-short asset amount from to m h short = ground arith

  -- An accepted trade: the guard records it, and the result is that of the two legs.
  pub settle_accepted :
      (t : Trade D) (s : Tier1Settler D) {r : Result (OpenmatchError D) (Unit {0})} {m : Accounts D}
      → contains t.id s.idempotency.settled ≡ false
      → settle_legs t s.balances ≡ (r, m)
      → settle_trade t s ≡ (
        r,
        record s { idempotency = record_settled t.id (make_room s.idempotency); balances = m },
      )
  unfolding settle_trade
  settle_accepted t s new legs = elim (mark_settled_cases D t.id s.idempotency) [
    | inl (old, refused) ↦ absurd (cc (old, new))
    | inr (fresh, accepted) ↦ rw accepted (rw legs)
  ]

  pub settled_again :
      (t : Trade D) (s : Tier1Settler D)
      → contains t.id s.idempotency.settled ≡ true
      → settle_trade t s ≡ (err (trade_already_settled t.id), s)
  unfolding settle_trade
  settled_again t s old = elim (mark_settled_cases D t.id s.idempotency) [
    | inl (seen, refused) ↦ rw refused
    | inr (fresh, accepted) ↦ absurd (cc (old, fresh))
  ]
