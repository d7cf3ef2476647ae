-- ===== src/Ingress/Escrow/Redeemed.antt =====
-- That every active spend right of crates/openmatch-ingress/src/escrow.rs can be released.
use openmatch.Base.{
  ℕ, ◌≡◌, refl, sym, some, true, false, nat_eq, string_eq, pair_eq, pos, ◌≤ℤ◌, parts, List, [], ◌∷◌,
  All, All-imp, All-any, AllDiffer, Option-cases, inl, inr, arith, ok, beq_refl,
}
use openmatch.Decimal.{Decimal, lt}
use openmatch.Map.{
  Map, lookup, insert, lookup-insert, lookup-insert_self, contains_key, All-insert, All-lookup,
}
use openmatch.Map.Sum.{total-covers}
use openmatch.Types
use openmatch.Types.{
  released, spent, active, OrderId, UserId, SpendRightId, EpochId, Asset, NodeId, SpendRight,
  SpendRightState, is_active_state, BalanceEntry,
}
use openmatch.Accounts
use openmatch.Accounts.{Accounts, Key, key_eq, freeze_entry, unfreeze_entry}
use openmatch.Accounts.Cases.{freeze-Writes, balance_found}
use openmatch.Ingress.Escrow
use openmatch.Ingress.Escrow.{
  EscrowManager, new_escrow, minted, mint, release, Call, mint_call, release_call, spend_call,
  apply, run, minted_ids,
}
use openmatch.Ingress.Escrow.Cases.{release_cases, is_active_state-active}
use openmatch.Ingress.Escrow.Backing.{locked}
use openmatch.Ingress.Escrow.Reserved.{IsReserved, IsFree, is_unreleased, run-IsReserved}
use openmatch.Ingress.Escrow.RoundTrip.{release-ok}

module _ {D : Type 0} ⦃d : Decimal D⦄ where
  -- A right that is not negative, of an account that exists.
  abbrev IsOwned : Accounts D → SpendRight D → Type 0
  IsOwned m sr = (pos 0 ≤ℤ d.units sr.amount) × (contains_key (sr.user_id, sr.asset) m ≡ true)

  abbrev AllOwned : Accounts D → Map SpendRightId (SpendRight D) → Type 0
  AllOwned m = All (λ x. IsOwned m x.1)

  contains_key-insert :
      (j k : Key) (e : BalanceEntry D) (m : Accounts D)
      → contains_key j m ≡ true
      → contains_key j (insert k e m) ≡ true
  contains_key-insert j k e m h = ground (arith, lookup-insert j k e m)

  contains_key_self :
      (k : Key) (e : BalanceEntry D) (m : Accounts D) → contains_key k (insert k e m) ≡ true
  contains_key_self k e m = rw (lookup-insert_self k e m, contains_key)

  AllOwned-accounts :
      (k : Key) (e : BalanceEntry D) (m : Accounts D) (rights : Map SpendRightId (SpendRight D))
      → AllOwned m rights
      → AllOwned (insert k e m) rights
  AllOwned-accounts k e m rights =
      All-imp
        (λ (x : SpendRightId × SpendRight D) h.
          (h.0, contains_key-insert (x.1.user_id, x.1.asset) k e m h.1))
        rights

  mint-AllOwned :
      (k : SpendRightId) (now : ℕ) (order : OrderId) (user : UserId) (asset : Asset) (a : D)
      (epoch : EpochId) (s : EscrowManager D)
      → pos 0 ≤ℤ d.units a
      → AllOwned s.accounts s.spend_rights
      → (let s' = (mint k now order user asset a epoch s).1 in AllOwned s'.accounts s'.spend_rights)
  unfolding mint
  mint-AllOwned k now order user asset a epoch s nonneg h =
      elim (freeze-Writes (user, asset) a s.accounts) [
        | inl (x, failed) ↦ rw failed h
        | inr (e, old, enough, done) ↦
            let m = insert (user, asset) (freeze_entry a e) s.accounts in
            rw done (
              All-insert (IsOwned m) k (minted k now order user asset a epoch s) s.spend_rights
                (nonneg, contains_key_self (user, asset) (freeze_entry a e) s.accounts)
                (AllOwned-accounts (user, asset) (freeze_entry a e) s.accounts s.spend_rights h))
      ]

  release-AllOwned :
      (k : SpendRightId) (s : EscrowManager D)
      → AllOwned s.accounts s.spend_rights
      → (let s' = (release k s).1 in AllOwned s'.accounts s'.spend_rights)
  release-AllOwned k s h = elim (release_cases k s) [
    | inl (x, failed) ↦ rw failed h
    | inr (sr, e, found, live, old, enough, done) ↦
        let key : Key = (sr.user_id, sr.asset) in
        let e' = unfreeze_entry sr.amount e in
        let all = AllOwned-accounts key e' s.accounts s.spend_rights h in
        let own = All-lookup (IsOwned (insert key e' s.accounts)) k sr s.spend_rights all found in
        rw done (
          All-insert (IsOwned (insert key e' s.accounts)) k (record sr { state = released })
            s.spend_rights own all)
  ]

  mark_spent-IsOwned :
      (m : Accounts D) (sr : SpendRight D) → IsOwned m sr → IsOwned m (Types.mark_spent sr).1
  unfolding Types.mark_spent
  mark_spent-IsOwned m sr h = ground arith

  mark_spent-AllOwned :
      (k : SpendRightId) (s : EscrowManager D)
      → AllOwned s.accounts s.spend_rights
      → (let s' = (Escrow.mark_spent k s).1 in AllOwned s'.accounts s'.spend_rights)
  unfolding Escrow.mark_spent
  mark_spent-AllOwned k s h = elim (Option-cases (lookup k s.spend_rights)) [
    | inl absent ↦ rw (absent, Escrow.mark_spent) h
    | inr (sr, found) ↦
        let own = All-lookup (IsOwned s.accounts) k sr s.spend_rights h found in
        rw (found, Escrow.mark_spent)
          (All-insert (IsOwned s.accounts) k (Types.mark_spent sr).1 s.spend_rights
            (mark_spent-IsOwned s.accounts sr own) h)
  ]

  -- A call that does not mint a negative amount.
  abbrev pub IsPaid : Call D → Type 0
  IsPaid (mint_call i now order user asset a epoch) = pos 0 ≤ℤ d.units a
  IsPaid (release_call i) = Unit
  IsPaid (spend_call i) = Unit

  pub run-AllOwned :
      (cs : List (Call D)) (s : EscrowManager D)
      → All IsPaid cs
      → AllOwned s.accounts s.spend_rights
      → AllOwned (run cs s).accounts (run cs s).spend_rights
  unfolding run apply
  run-AllOwned [] s paid h = h
  run-AllOwned (mint_call k now order user asset a epoch ∷ cs) s paid h =
      run-AllOwned cs (mint k now order user asset a epoch s).1 paid.1
        (mint-AllOwned k now order user asset a epoch s paid.0 h)
  run-AllOwned (release_call k ∷ cs) s paid h =
      run-AllOwned cs (release k s).1 paid.1 (release-AllOwned k s h)
  run-AllOwned (spend_call k ∷ cs) s paid h =
      run-AllOwned cs (Escrow.mark_spent k s).1 paid.1 (mark_spent-AllOwned k s h)

  locked_own :
      (i : SpendRightId) (sr : SpendRight D)
      → is_active_state sr.state ≡ true
      → locked is_unreleased (sr.user_id, sr.asset) i sr ≡ d.units sr.amount
  locked_own i sr live =
      let k : Key = (sr.user_id, sr.asset) in rw (is_active_state-active sr.state live, beq_refl k)

  pub locked-nonneg :
      (k : Key) (i : SpendRightId) (sr : SpendRight D)
      → pos 0 ≤ℤ d.units sr.amount
      → pos 0 ≤ℤ locked is_unreleased k i sr
  locked-nonneg k i sr h = ground arith

  -- Enough is frozen for an active right.
  enough_frozen :
      (i : SpendRightId) (sr : SpendRight D) (e : BalanceEntry D) (s : EscrowManager D)
      → IsReserved s
      → AllOwned s.accounts s.spend_rights
      → lookup i s.spend_rights ≡ some sr
      → is_active_state sr.state ≡ true
      → lookup (sr.user_id, sr.asset) s.accounts ≡ some e
      → lt e.frozen sr.amount ≡ false
  enough_frozen i sr e s h all found live old =
      let k : Key = (sr.user_id, sr.asset) in
      let nonneg =
        All-imp (λ (x : SpendRightId × SpendRight D) o. locked-nonneg k x.0 x.1 o.0) s.spend_rights
          all in
      let part = total-covers (locked is_unreleased k) i sr s.spend_rights nonneg found in
      let funds = rw (balance_found k s.accounts old) at (h k) in
      ground (arith, part, parts funds, parts (locked_own i sr live))

  active-release :
      (i : SpendRightId) (sr : SpendRight D) (s : EscrowManager D)
      → IsReserved s
      → AllOwned s.accounts s.spend_rights
      → lookup i s.spend_rights ≡ some sr
      → is_active_state sr.state ≡ true
      → (release i s).0 ≡ ok tt
  active-release i sr s h all found live =
      let k : Key = (sr.user_id, sr.asset) in
      elim (Option-cases (lookup k s.accounts)) [
        | inl absent ↦
            absurd (ground (arith, All-lookup (IsOwned s.accounts) i sr s.spend_rights all found))
        | inr (e, old) ↦
            rw (release-ok i sr s e found live old (enough_frozen i sr e s h all found live old))
      ]

  -- From a new manager over accounts in which nothing is frozen, after any sequence of mints, releases
  -- and spends in which no two mints draw the same id and no mint is of a negative amount, the release
  -- of every active right succeeds.
  pub release-run :
      (node : NodeId) (n : ℕ) (m : Accounts D) (cs : List (Call D))
      → ((k : Key) → d.units (Accounts.balance k m).frozen ≡ pos 0)
      → AllDiffer (minted_ids cs)
      → All IsPaid cs
      → (i : SpendRightId) (sr : SpendRight D)
      → lookup i (run cs (new_escrow node m n)).spend_rights ≡ some sr
      → sr.state ≡ active
      → (release i (run cs (new_escrow node m n))).0 ≡ ok tt
  release-run node n m cs unfrozen differ paid i sr found live =
      let s = new_escrow node m n in
      active-release i sr (run cs s)
        (run-IsReserved cs s differ (All-any (IsFree s) (λ j. refl) (minted_ids cs))
          (λ k. sym (unfrozen k)))
        (run-AllOwned cs s paid tt) found (rw live)
