-- ===== src/Settlement/Tier1.antt =====
-- crates/openmatch-settlement/src/tier1.rs: local settlement of trades.
pub mod Supply
pub mod Legs
pub mod Funded
pub mod Runs
use openmatch.Base.{
  ℕ, List, [], ◌∷◌, Result, ok, err, bind, if◌then◌else◌, Eq, nat_eq, string_eq, pair_eq,
}
use openmatch.Decimal.{Decimal}
use openmatch.Types.{UserId, Asset, BalanceEntry, Trade, taker_is_buyer, OpenmatchError}
use openmatch.Accounts
use openmatch.Accounts.{Accounts}
use openmatch.Settlement.Idempotency.{IdempotencyGuard, new_guard, mark_settled}
use openmatch.Settlement.SupplyConservation.{SupplyConservation, record_deposit, verify}

pub record Tier1Settler (D : Type 0) : Type 0 where
  pub balances : Accounts D
  pub idempotency : IdempotencyGuard
  pub supply : SupplyConservation D

abbrev pub Outcome : Type 0 → Type 0
Outcome D = Result (OpenmatchError D) (Unit {0}) × Tier1Settler D

abbrev pub new_settler : {D : Type 0} → ℕ → Tier1Settler D
new_settler n = record {
  balances = [];
  idempotency = new_guard n;
  supply = record { deposits = []; withdrawals = [] };
}

abbrev pub buyer : {D : Type 0} → Trade D → UserId
buyer t = if taker_is_buyer t then t.taker_user_id else t.maker_user_id

abbrev pub seller : {D : Type 0} → Trade D → UserId
seller t = if taker_is_buyer t then t.maker_user_id else t.taker_user_id

module _ {D : Type 0} ⦃d : Decimal D⦄ where
  unfoldable pub deposit : UserId → Asset → D → Tier1Settler D → Tier1Settler D
  deposit user asset amount s = record s {
    balances = Accounts.credit (user, asset) amount s.balances;
    supply = record_deposit asset amount s.supply;
  }

  unfoldable pub freeze : UserId → Asset → D → Tier1Settler D → Outcome D
  freeze user asset amount s =
      let (r, m) = Accounts.freeze (user, asset) amount s.balances in (r, record s { balances = m })

  -- One leg: `amount` leaves the frozen funds of `from` and becomes available to `to`.
  unfoldable pub transfer : Asset → D → UserId → UserId → Accounts D → Accounts.Cases.Outcome D
  transfer asset amount from to m =
      bind (Accounts.consume_frozen (from, asset) amount m)
        λ u m'. (ok tt, Accounts.credit (to, asset) amount m')

  -- Steps 2 and 3 of `settle_trade`: the base asset, then the quote asset.
  unfoldable pub settle_legs : Trade D → Accounts D → Accounts.Cases.Outcome D
  settle_legs t m =
      bind (transfer t.market.base t.quantity (seller t) (buyer t) m)
        λ u m'. transfer t.market.quote t.quote_amount (buyer t) (seller t) m'

  unfoldable pub settle_trade : Trade D → Tier1Settler D → Outcome D
  settle_trade t s =
      let (r, guard) = mark_settled {D = D} t.id s.idempotency in
      bind (r, record s { idempotency = guard })
        λ u s'. let (r', m) = settle_legs t s'.balances in (r', record s' { balances = m })

  unfoldable pub balance : UserId → Asset → Tier1Settler D → BalanceEntry D
  balance user asset s = Accounts.balance (user, asset) s.balances

  unfoldable pub verify_supply : Asset → Tier1Settler D → Result (OpenmatchError D) (Unit {0})
  verify_supply asset s = verify asset (Accounts.total_supply asset s.balances) s.supply

-- A call of the settler that changes its state.
pub data Call (D : Type 0) : Type 0 where
  deposit_call : UserId → Asset → D → Call D
  freeze_call : UserId → Asset → D → Call D
  settle_call : Trade D → Call D

module _ {D : Type 0} ⦃d : Decimal D⦄ where
  -- The state that a call leaves, whatever it returns.
  unfoldable pub apply : Call D → Tier1Settler D → Tier1Settler D
  apply (deposit_call user asset amount) s = deposit user asset amount s
  apply (freeze_call user asset amount) s = (freeze user asset amount s).1
  apply (settle_call t) s = (settle_trade t s).1

  unfoldable pub run : List (Call D) → Tier1Settler D → Tier1Settler D
  run [] s = s
  run (c ∷ cs) s = run cs (apply c s)
