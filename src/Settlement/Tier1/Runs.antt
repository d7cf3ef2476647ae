-- ===== src/Settlement/Tier1/Runs.antt =====
-- Sequences of calls of a settler (crates/openmatch-settlement/src/tier1.rs).
use openmatch.Base.{
  ℕ, ◌<◌, ◌≡◌, ◌∙◌, refl, ap, false, List, [], ◌∷◌, Result, ok, err, bind, contains, length,
}
use openmatch.Decimal.{Decimal}
use openmatch.Types.{Asset, OpenmatchError, trade_already_settled, Trade, TradeId}
use openmatch.Settlement.Idempotency.{IdempotencyGuard, new_guard, mark_settled}
use openmatch.Settlement.Idempotency.Valid.{IsValid, new_guard-IsValid}
use openmatch.Settlement.Idempotency.Window.{mark_all, mark_all-IsValid, no_double_settlement}
use openmatch.Settlement.Tier1.{
  Tier1Settler, new_settler, deposit, freeze, settle_legs, settle_trade, verify_supply, Call,
  deposit_call, freeze_call, settle_call, apply, run,
}
use openmatch.Settlement.Tier1.Supply.{
  IsConserved, new_settler-IsConserved, deposit-IsConserved, freeze-IsConserved,
  settle_trade-IsConserved, verify_supply-ok,
}

module _ {D : Type 0} ⦃d : Decimal D⦄ where
  run-IsConserved :
      (cs : List (Call D)) (s : Tier1Settler D) → IsConserved s → IsConserved (run cs s)
  unfolding run apply
  run-IsConserved [] s h = h
  run-IsConserved (deposit_call user a x ∷ cs) s h =
      run-IsConserved cs (deposit user a x s) (deposit-IsConserved user a x s h)
  run-IsConserved (freeze_call user a x ∷ cs) s h =
      run-IsConserved cs (freeze user a x s).1 (freeze-IsConserved user a x s h)
  run-IsConserved (settle_call t ∷ cs) s h =
      run-IsConserved cs (settle_trade t s).1 (settle_trade-IsConserved t s h)

  -- Whatever deposits, freezes and settlements are made on a new settler, failed ones included, the
  -- supply check of every asset passes afterwards.
  pub verify_supply-run :
      (cs : List (Call D)) (n : ℕ) (asset : Asset)
      → verify_supply asset (run cs (new_settler n)) ≡ ok tt
  verify_supply-run cs n asset =
      verify_supply-ok asset (run cs (new_settler n))
        (run-IsConserved cs (new_settler n) (new_settler-IsConserved D n))

  guard_after :
      (t : Trade D) (s : Tier1Settler D) (r : Result (OpenmatchError D) (Unit {0}))
      (guard : IdempotencyGuard)
      → (bind {A = Unit {0}}
          (r, record s { idempotency = guard })
          (λ u s'.
            let (r', m) = settle_legs t s'.balances in
            (r', record s' { balances = m }))).1.idempotency
        ≡ guard
  guard_after t s (ok u) guard = refl
  guard_after t s (err x) guard = refl

  settle_guard :
      (t : Trade D) (s : Tier1Settler D)
      → (settle_trade t s).1.idempotency ≡ (mark_settled {D = D} t.id s.idempotency).1
  unfolding settle_trade
  settle_guard t s =
      let (r, guard) = mark_settled {D = D} t.id s.idempotency in guard_after t s r guard

  -- The trades that a sequence of calls tries to settle.
  abbrev attempted : List (Call D) → List TradeId
  attempted [] = []
  attempted (deposit_call user a x ∷ cs) = attempted cs
  attempted (freeze_call user a x ∷ cs) = attempted cs
  attempted (settle_call t ∷ cs) = t.id ∷ attempted cs

  run-guard :
      (cs : List (Call D)) (s : Tier1Settler D)
      → (run cs s).idempotency ≡ mark_all D (attempted cs) s.idempotency
  unfolding run apply deposit freeze
  run-guard [] s = refl
  run-guard (deposit_call user a x ∷ cs) s = run-guard cs (deposit user a x s)
  run-guard (freeze_call user a x ∷ cs) s = run-guard cs (freeze user a x s).1
  run-guard (settle_call t ∷ cs) s =
      run-guard cs (settle_trade t s).1 ∙ ap (mark_all D (attempted cs)) (settle_guard t s)

  -- However a settler of positive cache size has been used, its guard is valid: the set and the queue
  -- of settled trades agree, without repetition, within the cache size.
  pub run-IsValid :
      (cs : List (Call D)) (n : ℕ) → 0 < n → IsValid (run cs (new_settler n)).idempotency
  run-IsValid cs n h =
      rw (run-guard cs (new_settler n))
        (mark_all-IsValid D (attempted cs) (new_guard n) (new_guard-IsValid n h))

  refused_by_guard :
      (t : Trade D) (s : Tier1Settler D)
      → mark_settled {D = D} t.id s.idempotency ≡ (err (trade_already_settled t.id), s.idempotency)
      → settle_trade t s ≡ (err (trade_already_settled t.id), s)
  unfolding settle_trade
  refused_by_guard t s h = rw h

  -- On a settler with a valid guard that has not seen the trade's id: after one attempt to settle the
  -- trade, successful or not, and any further calls with fewer than `max_size` settlements among
  -- them, a trade of that id is refused with `trade_already_settled` and the settler is unchanged.
  pub settle_at_most_once :
      (t t' : Trade D) (cs : List (Call D)) (s : Tier1Settler D)
      → IsValid s.idempotency
      → contains t.id s.idempotency.settled ≡ false
      → length (attempted cs) < s.idempotency.max_size
      → t'.id ≡ t.id
      → let later = run cs (settle_trade t s).1 in
        settle_trade t' later ≡ (err (trade_already_settled t'.id), later)
  settle_at_most_once t t' cs s v new few same = refused_by_guard t' (run cs (settle_trade t s).1) (
      rw (run-guard cs (settle_trade t s).1, settle_guard t s, same)
        (no_double_settlement D t.id (attempted cs) s.idempotency v new few))
