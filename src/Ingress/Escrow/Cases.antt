-- ===== src/Ingress/Escrow/Cases.antt =====
-- How `release` and `mark_spent` of crates/openmatch-ingress/src/escrow.rs end.
use openmatch.Base.{
  ◌≡◌, some, true, false, ◌⊎◌, nat_eq, string_eq, pair_eq, ok, err, Bool-cases, Option-cases, inl,
  inr, arith,
}
use openmatch.Decimal.{Decimal, lt}
use openmatch.Map.{lookup, lookup-insert, insert}
use openmatch.Types.{
  SpendRightState, active, SpendRightId, SpendRight, is_active_state, BalanceEntry, released, spent,
  OpenmatchError, mark_released, mark_spent, invalid_spend_right, spend_right_not_found,
  spend_right_not_active, cannot_spend,
}
use openmatch.Accounts.{unfreeze_entry}
use openmatch.Accounts.Cases.{unfreeze-Writes}
use openmatch.Ingress.Escrow
use openmatch.Ingress.Escrow.{EscrowManager, release, release_found}

pub is_active_state-active : (x : SpendRightState) → is_active_state x ≡ true → x ≡ active
is_active_state-active x h = ground arith

module _ {D : Type 0} where
  pub mark_released-ok :
      (sr : SpendRight D)
      → is_active_state sr.state ≡ true
      → mark_released sr ≡ (ok tt, record sr { state = released })
  unfolding mark_released
  mark_released-ok sr h = ground arith

  mark_spent-ok :
      (sr : SpendRight D)
      → is_active_state sr.state ≡ true
      → mark_spent sr ≡ (ok tt, record sr { state = spent })
  unfolding mark_spent
  mark_spent-ok sr h = ground arith

  mark_spent-err :
      (sr : SpendRight D)
      → is_active_state sr.state ≡ false
      → mark_spent sr ≡ (err (invalid_spend_right (cannot_spend sr.id sr.state)), sr)
  unfolding mark_spent
  mark_spent-err sr h = ground arith

module _ {D : Type 0} ⦃d : Decimal D⦄ (i : SpendRightId) (s : EscrowManager D) where
  abbrev Closed : SpendRight D → BalanceEntry D → EscrowManager D
  Closed sr e = record s {
    accounts = insert (sr.user_id, sr.asset) (unfreeze_entry sr.amount e) s.accounts;
    spend_rights = insert i (record sr { state = released }) s.spend_rights;
  }

  -- `release` fails and changes nothing, or closes an active right whose amount is frozen.
  pub release_cases :
      ((x : OpenmatchError D) × (release i s ≡ (err x, s)))
      ⊎ ((sr : SpendRight D) × (e : BalanceEntry D) × (lookup i s.spend_rights ≡ some sr)
          × (is_active_state sr.state ≡ true)
          × (lookup (sr.user_id, sr.asset) s.accounts ≡ some e)
          × (lt e.frozen sr.amount ≡ false)
          × (release i s ≡ (ok tt, Closed sr e)))
  unfolding release
  release_cases = elim (Option-cases (lookup i s.spend_rights)) [
    | inl absent ↦ inl (invalid_spend_right (spend_right_not_found i), rw (absent, release))
    | inr (sr, found) ↦ elim (Bool-cases (is_active_state sr.state)) [
      | inr closed ↦
          inl (invalid_spend_right (spend_right_not_active i sr.state), rw (found, release, closed))
      | inl open_right ↦ elim (unfreeze-Writes (sr.user_id, sr.asset) sr.amount s.accounts) [
        | inl (x, failed) ↦ inl (x, rw (found, release, open_right, failed))
        | inr (e, old, enough, done) ↦ inr (
          sr,
          e,
          found,
          open_right,
          old,
          enough,
          rw (found, release, open_right, done, mark_released-ok sr open_right),
        )
      ]
    ]
  ]

  abbrev Spent : SpendRight D → EscrowManager D
  Spent sr = record s { spend_rights = insert i (record sr { state = spent }) s.spend_rights }

  -- `mark_spent` fails and leaves every right as it was, or spends an active right.
  pub mark_spent_cases :
      ((x : OpenmatchError D) × ((Escrow.mark_spent i s).0 ≡ err x)
        × ((j : SpendRightId)
            → lookup j (Escrow.mark_spent i s).1.spend_rights ≡ lookup j s.spend_rights))
      ⊎ ((sr : SpendRight D) × (lookup i s.spend_rights ≡ some sr)
          × (is_active_state sr.state ≡ true)
          × (Escrow.mark_spent i s ≡ (ok tt, Spent sr)))
  unfolding Escrow.mark_spent
  mark_spent_cases = elim (Option-cases (lookup i s.spend_rights)) [
    | inl absent ↦ inl (
      invalid_spend_right (spend_right_not_found i),
      rw (absent, Escrow.mark_spent),
      λ j. rw (absent, Escrow.mark_spent),
    )
    | inr (sr, found) ↦ elim (Bool-cases (is_active_state sr.state)) [
      | inr closed ↦ inl (
        invalid_spend_right (cannot_spend sr.id sr.state),
        rw (found, Escrow.mark_spent, mark_spent-err sr closed),
        λ j. rw (found, Escrow.mark_spent, mark_spent-err sr closed) (same_write j sr found),
      )
      | inl live ↦ inr (sr, found, live, rw (found, Escrow.mark_spent, mark_spent-ok sr live))
    ]
  ]
    where
      same_write :
          (j : SpendRightId) (sr : SpendRight D)
          → lookup i s.spend_rights ≡ some sr
          → lookup j (insert i sr s.spend_rights) ≡ lookup j s.spend_rights
      same_write j sr found = ground (arith, lookup-insert j i sr s.spend_rights)
