-- ===== src/Core/Security/Secured/Conservation.antt =====
-- The supply behind the guards of crates/openmatch-core/src/security.rs, and its audit.
use openmatch.Base.{
  ◌≡◌, ◌≢◌, ◌↔◌, List, [], ◌∷◌, Result, ok, err, bind, bind-keeps, ℤ, ◌+ℤ◌, int_laws, parts, true,
  Bool-cases, inl, inr, ◌=?◌, string_eq,
}
use openmatch.Decimal.{Decimal, eq}
use openmatch.Map.{Map, lookup_or, lookup-insert}
use openmatch.Types.{UserId, Asset, Trade, MarketPair, insufficient_frozen, OpenmatchError}
use openmatch.Accounts.Supply.{supply, in_asset, spent_if_ok}
use openmatch.Core.BalanceManager
use openmatch.Core.BalanceManager.Supply
use openmatch.Core.BalanceManager.Half.{IsFundsResult, settle_trade-IsFundsResult}
use openmatch.Core.Security.SupplyAudit.{
  SupplyConservation, add_at, record_deposit, record_withdrawal, expected_total,
}
use openmatch.Core.Security.SupplyAudit.Balanced.{verify-ok}
use openmatch.Core.Security.WithdrawLock.{check_withdraw_allowed}
use openmatch.Core.Security.Secured.{
  SecuredBalanceManager, on_inner, count_op, mark_settled, deposit, withdraw, freeze, unfreeze,
  settle_trade, verify_supply_conservation, Call, deposit_call, withdraw_call, freeze_call,
  unfreeze_call, settle_call, phase_call, emergency_call, apply, run,
}

module _ {D : Type 0} ⦃d : Decimal D⦄ where
  abbrev expected : Asset → SupplyConservation D → ℤ
  expected asset s = d.units (expected_total asset s)

  -- The user does not matter to what an amount adds to an asset.
  units-add_at :
      (asset : Asset) (user : UserId) (at_asset : Asset) (a : D) (m : Map Asset D)
      → d.units (lookup_or d.zero asset (add_at at_asset a m))
        ≡ d.units (lookup_or d.zero asset m) +ℤ in_asset asset (user, at_asset) a
  units-add_at asset user at_asset a m = elim (Bool-cases (at_asset =? asset)) [
    | inl same ↦
        rw (lookup_or, lookup-insert asset at_asset (d.add (lookup_or d.zero at_asset m) a) m, same)
          (rw ((string_eq.beq_iff at_asset asset).0 same)
            (d.units-add (lookup_or d.zero asset m) a))
    | inr other ↦
        rw
          (lookup_or, lookup-insert asset at_asset (d.add (lookup_or d.zero at_asset m) a) m, other)
          (omega int_laws)
  ]

  expected-record_deposit :
      (asset : Asset) (user : UserId) (at_asset : Asset) (a : D) (s : SupplyConservation D)
      → expected asset (record_deposit at_asset a s)
        ≡ expected asset s +ℤ in_asset asset (user, at_asset) a
  unfolding record_deposit expected_total
  expected-record_deposit asset user at_asset a s =
      simp (d.units-sub)
        (omega (int_laws, parts (units-add_at asset user at_asset a s.total_deposits)))

  expected-record_withdrawal :
      (asset : Asset) (user : UserId) (at_asset : Asset) (a : D) (s : SupplyConservation D)
      → expected asset (record_withdrawal at_asset a s) +ℤ in_asset asset (user, at_asset) a
        ≡ expected asset s
  unfolding record_withdrawal expected_total
  expected-record_withdrawal asset user at_asset a s =
      simp (d.units-sub)
        (omega (int_laws, parts (units-add_at asset user at_asset a s.total_withdrawals)))

  -- What is held of every asset is what was deposited less what was withdrawn.
  abbrev pub IsConserved : SecuredBalanceManager D → Type 0
  IsConserved s = (asset : Asset) → supply asset s.inner ≡ expected asset s.supply_tracker

  -- A call that moves nothing in or out keeps the balance of the books.
  moved-IsConserved :
      (r : BalanceManager.Outcome D) (s : SecuredBalanceManager D)
      → ((asset : Asset) → supply asset r.1 ≡ supply asset s.inner)
      → IsConserved s
      → IsConserved (bind (on_inner r s) λ u n. count_op n).1
  moved-IsConserved (ok u, m) s same c asset = rw (same asset) (c asset)
  moved-IsConserved (err e, m) s same c asset = rw (same asset) (c asset)

  deposited-IsConserved :
      (user : UserId) (at_asset : Asset) (a : D) (r : BalanceManager.Outcome D)
      (s : SecuredBalanceManager D)
      → ((asset : Asset)
          → supply asset r.1 ≡ supply asset s.inner +ℤ spent_if_ok asset (user, at_asset) a r.0)
      → IsConserved s
      → IsConserved
          (bind (on_inner r s) λ u n.
            count_op (record n { supply_tracker = record_deposit at_asset a n.supply_tracker })).1
  deposited-IsConserved user at_asset a (ok u, m) s more c asset = omega (
    int_laws,
    parts (more asset),
    parts (c asset),
    parts (expected-record_deposit asset user at_asset a s.supply_tracker),
  )
  deposited-IsConserved user at_asset a (err e, m) s more c asset =
      omega (int_laws, parts (more asset), parts (c asset))

  withdrawn-IsConserved :
      (user : UserId) (at_asset : Asset) (a : D) (r : BalanceManager.Outcome D)
      (s : SecuredBalanceManager D)
      → ((asset : Asset)
          → supply asset r.1 +ℤ spent_if_ok asset (user, at_asset) a r.0 ≡ supply asset s.inner)
      → IsConserved s
      → IsConserved
          (bind (on_inner r s) λ u n.
            count_op
              (record n { supply_tracker = record_withdrawal at_asset a n.supply_tracker })).1
  withdrawn-IsConserved user at_asset a (ok u, m) s less c asset = omega (
    int_laws,
    parts (less asset),
    parts (c asset),
    parts (expected-record_withdrawal asset user at_asset a s.supply_tracker),
  )
  withdrawn-IsConserved user at_asset a (err e, m) s less c asset =
      omega (int_laws, parts (less asset), parts (c asset))

  withdraw-IsConserved :
      (user : UserId) (asset : Asset) (a : D) (s : SecuredBalanceManager D)
      → IsConserved s
      → IsConserved (withdraw user asset a s).1
  unfolding withdraw
  withdraw-IsConserved user asset a s c =
      bind-keeps IsConserved (check_withdraw_allowed {D = D} s.withdraw_lock, s)
        (λ u _. bind (on_inner (BalanceManager.withdraw (user, asset) a s.inner) s) λ v n.
          count_op (record n { supply_tracker = record_withdrawal asset a n.supply_tracker }))
        c
        λ u _ _.
          withdrawn-IsConserved user asset a (BalanceManager.withdraw (user, asset) a s.inner) s
            (λ b. Supply.supply-withdraw b (user, asset) a s.inner) c

  -- A settlement that fails for want of frozen funds is the only call that breaks the balance.
  abbrev IsFunded : Call D → SecuredBalanceManager D → Type 0
  IsFunded (settle_call t market) s = (settle_trade t market s).0 ≢ err insufficient_frozen
  IsFunded _ s = Unit

  settled-IsConserved :
      (r : BalanceManager.Outcome D) (s : SecuredBalanceManager D)
      → IsFundsResult r.0
      → (r.0 ≡ ok tt → (asset : Asset) → supply asset r.1 ≡ supply asset s.inner)
      → (bind (on_inner r s) λ u n. count_op n).0 ≢ err insufficient_frozen
      → IsConserved s
      → IsConserved (bind (on_inner r s) λ u n. count_op n).1
  settled-IsConserved r s (inl accepted) same h c = moved-IsConserved r s (same accepted) c
  settled-IsConserved (r, m) s (inr short) same h c = absurd (h (rw short))

  settle_trade-IsConserved :
      (t : Trade D) (market : MarketPair) (s : SecuredBalanceManager D)
      → (settle_trade t market s).0 ≢ err insufficient_frozen
      → IsConserved s
      → IsConserved (settle_trade t market s).1
  unfolding settle_trade
  settle_trade-IsConserved t market s h c =
      let (r, guard) = mark_settled {D = D} t.id s.settlement_guard in
      after r (record s { settlement_guard = guard }) h c
    where
      after :
          (r : Result (OpenmatchError D) (Unit {0})) (n : SecuredBalanceManager D)
          → (bind
              (r, n)
              λ u k.
                bind
                  (on_inner (BalanceManager.settle_trade t market k.inner) k)
                  λ v l. count_op l).0
            ≢ err insufficient_frozen
          → IsConserved n
          → IsConserved
              (bind
                (r, n)
                λ u k.
                  bind
                    (on_inner (BalanceManager.settle_trade t market k.inner) k)
                    λ v l. count_op l).1
      after (ok u) n h c =
          settled-IsConserved (BalanceManager.settle_trade t market n.inner) n
            (settle_trade-IsFundsResult t market n.inner)
            (λ accepted asset. Supply.settle_trade-ok asset t market n.inner accepted) h c
      after (err e) n h c = c

  -- No settlement of the run fails for want of frozen funds.
  abbrev IsFundedRun : List (Call D) → SecuredBalanceManager D → Type 0
  IsFundedRun [] s = Unit
  IsFundedRun (c ∷ cs) s = IsFunded c s × IsFundedRun cs (apply c s)

  apply-IsConserved :
      (c : Call D) (s : SecuredBalanceManager D)
      → IsFunded c s
      → IsConserved s
      → IsConserved (apply c s)
  unfolding apply deposit freeze unfreeze
  apply-IsConserved (deposit_call user asset a) s f c =
      deposited-IsConserved user asset a (BalanceManager.deposit (user, asset) a s.inner) s
        (λ b. Supply.supply-deposit b (user, asset) a s.inner) c
  apply-IsConserved (withdraw_call user asset a) s f c = withdraw-IsConserved user asset a s c
  apply-IsConserved (freeze_call user asset a) s f c =
      moved-IsConserved (BalanceManager.freeze (user, asset) a s.inner) s
        (λ b. Supply.supply-freeze b (user, asset) a s.inner) c
  apply-IsConserved (unfreeze_call user asset a) s f c =
      moved-IsConserved (BalanceManager.unfreeze (user, asset) a s.inner) s
        (λ b. Supply.supply-unfreeze b (user, asset) a s.inner) c
  apply-IsConserved (settle_call t market) s f c = settle_trade-IsConserved t market s f c
  apply-IsConserved (phase_call phase) s f c = c
  apply-IsConserved (emergency_call locked) s f c = c

  -- If what is held of every asset is what was deposited less what was withdrawn, it still is after
  -- any deposits, withdrawals, freezes, unfreezes, settlements, phases and locks, accepted or
  -- refused, as long as no settlement fails for want of frozen funds.
  pub run-IsConserved :
      (cs : List (Call D)) (s : SecuredBalanceManager D)
      → IsFundedRun cs s
      → IsConserved s
      → IsConserved (run cs s)
  unfolding run
  run-IsConserved [] s f c = c
  run-IsConserved (k ∷ cs) s f c = run-IsConserved cs (apply k s) f.1 (apply-IsConserved k s f.0 c)

  -- The audit takes the ledger for empty: it succeeds if and only if as much of every asset was
  -- withdrawn as was deposited.
  pub audit_of_nothing :
      (s : SecuredBalanceManager D)
      → (verify_supply_conservation s ≡ ok tt)
        ↔ ((asset : Asset) → eq (expected_total asset s.supply_tracker) d.zero ≡ true)
  unfolding verify_supply_conservation
  audit_of_nothing s = verify-ok [] s.supply_tracker
