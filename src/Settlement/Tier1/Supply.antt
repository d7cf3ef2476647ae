-- ===== src/Settlement/Tier1/Supply.antt =====
-- Supply conservation of the settler: what the accounts hold is what came in, per asset.
use openmatch.Base.{
  ℕ, ◌≡◌, ◌∙◌, arith, true, ◌=?◌, nat_eq, string_eq, pair_eq, pos, ◌+ℤ◌, ◌-ℤ◌, int_laws, parts,
  Result, ok, err, bind, if◌then◌else◌, Bool-cases, inl, inr,
}
use openmatch.Decimal.{Decimal, eq}
use openmatch.Map.{lookup_or, lookup-insert, Map}
use openmatch.Types.{UserId, Asset, Trade, OpenmatchError}
use openmatch.Accounts
use openmatch.Accounts.{Accounts}
use openmatch.Accounts.Supply.{
  supply, supply-credit, supply-freeze, supply-consume_frozen, units-total_supply, spent_if_ok,
}
use openmatch.Accounts.Cases.{consume_frozen-Writes}
use openmatch.Settlement.Idempotency.{IdempotencyGuard, mark_settled}
use openmatch.Settlement.SupplyConservation.{
  SupplyConservation, record_deposit, total_deposits, total_withdrawals, expected_supply, verify,
  add_at,
}
use openmatch.Settlement.Tier1.{
  Tier1Settler, new_settler, deposit, freeze, transfer, settle_legs, settle_trade, verify_supply,
  buyer, seller,
}

module _ {D : Type 0} ⦃d : Decimal D⦄ where
  paid_in :
      (asset a : Asset) (amount : D) (from to : UserId) (m : Accounts D)
      (r : Result (OpenmatchError D) (Unit {0})) (m' : Accounts D)
      → supply asset m' +ℤ spent_if_ok asset (from, a) amount r ≡ supply asset m
      → supply asset
          (bind {A = Unit {0}} (r, m') (λ u m''. (ok tt, Accounts.credit (to, a) amount m''))).1
        ≡ supply asset m
  paid_in asset a amount from to m (ok u) m' paid =
      omega (int_laws, parts (supply-credit asset (to, a) amount m'), parts paid)
  paid_in asset a amount from to m (err x) m' paid = omega (int_laws, parts paid)

  -- One leg moves funds between two accounts of its asset, or fails and moves nothing.
  supply-transfer :
      (asset a : Asset) (amount : D) (from to : UserId) (m : Accounts D)
      → supply asset (transfer a amount from to m).1 ≡ supply asset m
  unfolding transfer
  supply-transfer asset a amount from to m =
      let (r, m') = Accounts.consume_frozen (from, a) amount m in
      paid_in asset a amount from to m r m' (supply-consume_frozen asset (from, a) amount m)

  supply-both :
      (asset : Asset) (m : Accounts D) (r : Accounts.Cases.Outcome D)
      (next : Accounts D → Accounts.Cases.Outcome D)
      → supply asset r.1 ≡ supply asset m
      → ((m' : Accounts D) → supply asset (next m').1 ≡ supply asset m')
      → supply asset (bind {A = Unit {0}} r (λ u. next)).1 ≡ supply asset m
  supply-both asset m (ok u, m') next first second = second m' ∙ first
  supply-both asset m (err x, m') next first second = first

  -- Settling a trade keeps the supply of every asset, also where it stops half-way.
  supply-settle_legs :
      (asset : Asset) (t : Trade D) (m : Accounts D)
      → supply asset (settle_legs t m).1 ≡ supply asset m
  unfolding settle_legs
  supply-settle_legs asset t m =
      supply-both asset m (transfer t.market.base t.quantity (seller t) (buyer t) m)
        (transfer t.market.quote t.quote_amount (buyer t) (seller t))
        (supply-transfer asset t.market.base t.quantity (seller t) (buyer t) m)
        (supply-transfer asset t.market.quote t.quote_amount (buyer t) (seller t))

  units-expected_supply :
      (asset : Asset) (s : SupplyConservation D)
      → d.units (expected_supply asset s)
        ≡ d.units (total_deposits asset s) -ℤ d.units (total_withdrawals asset s)
  unfolding expected_supply
  units-expected_supply asset s = d.units-sub _ _

  units-lookup_or :
      (asset a : Asset) (amount : D) (m : Map Asset D)
      → d.units (lookup_or d.zero asset (add_at a amount m))
        ≡ d.units (lookup_or d.zero asset m) +ℤ (if a =? asset then d.units amount else pos 0)
  units-lookup_or asset a amount m = elim (Bool-cases (a =? asset)) [
    | inl same ↦
        let e : a ≡ asset = (string_eq.beq_iff a asset).0 same in
        rw (lookup_or, lookup-insert asset a (d.add (lookup_or d.zero a m) amount) m, same)
          (rw e (d.units-add _ _))
    | inr other ↦
        rw (lookup_or, lookup-insert asset a (d.add (lookup_or d.zero a m) amount) m, other)
          (omega int_laws)
  ]

  -- A recorded deposit raises what is expected of its own asset, and of no other.
  expected-record_deposit :
      (asset a : Asset) (amount : D) (s : SupplyConservation D)
      → d.units (expected_supply asset (record_deposit a amount s))
        ≡ d.units (expected_supply asset s) +ℤ (if a =? asset then d.units amount else pos 0)
  unfolding record_deposit expected_supply
  expected-record_deposit asset a amount s =
      simp (d.units-sub) (omega (int_laws, parts (units-lookup_or asset a amount s.deposits)))

  -- The accounts hold, of every asset, what the tracker expects.
  abbrev pub IsConserved : Tier1Settler D → Type 0
  IsConserved s =
      (asset : Asset) → supply asset s.balances ≡ d.units (expected_supply asset s.supply)

  pub deposit-IsConserved :
      (user : UserId) (a : Asset) (amount : D) (s : Tier1Settler D)
      → IsConserved s
      → IsConserved (deposit user a amount s)
  unfolding deposit
  deposit-IsConserved user a amount s h asset = omega (
    int_laws,
    parts (supply-credit asset (user, a) amount s.balances),
    parts (expected-record_deposit asset a amount s.supply),
    parts (h asset),
  )

  pub freeze-IsConserved :
      (user : UserId) (a : Asset) (amount : D) (s : Tier1Settler D)
      → IsConserved s
      → IsConserved (freeze user a amount s).1
  unfolding freeze
  freeze-IsConserved user a amount s h asset =
      supply-freeze asset (user, a) amount s.balances ∙ h asset

  settle_from :
      (t : Trade D) (s : Tier1Settler D) (r : Result (OpenmatchError D) (Unit {0}))
      (guard : IdempotencyGuard)
      → IsConserved s
      → IsConserved
          (bind {A = Unit {0}}
            (r, record s { idempotency = guard })
            (λ u s'. let (r', m) = settle_legs t s'.balances in (r', record s' { balances = m }))).1
  settle_from t s (ok u) guard h asset = supply-settle_legs asset t s.balances ∙ h asset
  settle_from t s (err x) guard h asset = h asset

  pub settle_trade-IsConserved :
      (t : Trade D) (s : Tier1Settler D) → IsConserved s → IsConserved (settle_trade t s).1
  unfolding settle_trade
  settle_trade-IsConserved t s h =
      let (r, guard) = mark_settled {D = D} t.id s.idempotency in settle_from t s r guard h

  -- With the books conserved the check of any asset passes.
  pub verify_supply-ok :
      (asset : Asset) (s : Tier1Settler D) → IsConserved s → verify_supply asset s ≡ ok tt
  unfolding verify_supply verify
  verify_supply-ok asset s h = rw (eq_true (h asset))
    where
      eq_true :
          supply asset s.balances ≡ d.units (expected_supply asset s.supply)
          → eq (Accounts.total_supply asset s.balances) (expected_supply asset s.supply) ≡ true
      eq_true e = ground (arith, units-total_supply asset s.balances, e)

pub new_settler-IsConserved :
    (D : Type 0) ⦃d : Decimal D⦄ (n : ℕ) → IsConserved (new_settler {D = D} n)
unfolding expected_supply total_deposits total_withdrawals
new_settler-IsConserved D ⦃d⦄ n asset = simp (d.units-sub, d.units-zero) (omega int_laws)
