-- ===== src/Ingress/Escrow/Monotone.antt =====
-- Spend rights over sequences of calls of crates/openmatch-ingress/src/escrow.rs.
use openmatch.Base.{
  ℕ, ◌≡◌, ◌≢◌, ◌∙◌, some, List, [], ◌∷◌, true, false, nat_eq, ◌==◌, Bool-cases, inl, inr, arith,
  All,
}
use openmatch.Decimal.{Decimal}
use openmatch.Map.{Map, lookup, insert, lookup-insert}
use openmatch.Types.{
  OrderId, UserId, SpendRightId, EpochId, Asset, SpendRight, is_active_state, spent, released,
}
use openmatch.Accounts.Cases.{freeze-Writes}
use openmatch.Ingress.Escrow
use openmatch.Ingress.Escrow.{
  EscrowManager, minted, mint, release, Call, mint_call, release_call, spend_call, apply, run,
  minted_ids,
}
use openmatch.Ingress.Escrow.Cases.{release_cases, mark_spent_cases}

-- The right `sr` stands under `i`.
abbrev Holds : {D : Type 0} → SpendRightId → SpendRight D → EscrowManager D → Type 0
Holds i sr s = lookup i s.spend_rights ≡ some sr

module _ {D : Type 0} ⦃d : Decimal D⦄ (i : SpendRightId) (sr : SpendRight D)
    (closed : is_active_state sr.state ≡ false) where
  -- A write of another entry, or one that found an active right there, leaves it.
  Holds-insert_ne :
      (k : SpendRightId) (sr' : SpendRight D) (m : Map SpendRightId (SpendRight D))
      → (k == i) ≡ false
      → lookup i m ≡ some sr
      → lookup i (insert k sr' m) ≡ some sr
  Holds-insert_ne k sr' m ne h = ground (arith, lookup-insert i k sr' m)

  active_elsewhere :
      (k : SpendRightId) (live : SpendRight D) (m : Map SpendRightId (SpendRight D))
      → lookup i m ≡ some sr
      → lookup k m ≡ some live
      → is_active_state live.state ≡ true
      → (k == i) ≡ false
  active_elsewhere k live m h found on = elim (Bool-cases (k == i)) [
    | inr ne ↦ ne
    | inl same ↦ absurd (ground arith)
  ]

  release-Holds :
      (k : SpendRightId) (s : EscrowManager D) → Holds i sr s → Holds i sr (release k s).1
  release-Holds k s h = elim (release_cases k s) [
    | inl (x, failed) ↦ rw failed h
    | inr (live, e, found, on, old, enough, done) ↦ rw done (
        Holds-insert_ne k (record live { state = released }) s.spend_rights
          (active_elsewhere k live s.spend_rights h found on) h)
  ]

  mark_spent-Holds :
      (k : SpendRightId) (s : EscrowManager D) → Holds i sr s → Holds i sr (Escrow.mark_spent k s).1
  mark_spent-Holds k s h = elim (mark_spent_cases k s) [
    | inl (x, failed, same) ↦ same i ∙ h
    | inr (live, found, on, done) ↦ rw done (
        Holds-insert_ne k (record live { state = spent }) s.spend_rights
          (active_elsewhere k live s.spend_rights h found on) h)
  ]

  mint-Holds :
      (k : SpendRightId) (now : ℕ) (order : OrderId) (user : UserId) (asset : Asset) (a : D)
      (epoch : EpochId) (s : EscrowManager D)
      → k ≢ i
      → Holds i sr s
      → Holds i sr (mint k now order user asset a epoch s).1
  unfolding mint
  mint-Holds k now order user asset a epoch s ne h =
      elim (freeze-Writes (user, asset) a s.accounts) [
        | inl (x, failed) ↦ rw failed h
        | inr (e, old, enough, done) ↦ rw done (
            Holds-insert_ne k (minted k now order user asset a epoch s) s.spend_rights
              (ground arith) h)
      ]

  -- Once a right is spent or released, no later sequence of mints, releases and spends changes any
  -- field of it, provided that no mint draws its id again.
  pub closed_for_good :
      (cs : List (Call D)) (s : EscrowManager D)
      → lookup i s.spend_rights ≡ some sr
      → All (λ k. k ≢ i) (minted_ids cs)
      → lookup i (run cs s).spend_rights ≡ some sr
  unfolding run apply
  closed_for_good [] s h fresh = h
  closed_for_good (mint_call k now order user asset a epoch ∷ cs) s h fresh =
      closed_for_good cs (mint k now order user asset a epoch s).1
        (mint-Holds k now order user asset a epoch s fresh.0 h) fresh.1
  closed_for_good (release_call k ∷ cs) s h fresh =
      closed_for_good cs (release k s).1 (release-Holds k s h) fresh
  closed_for_good (spend_call k ∷ cs) s h fresh =
      closed_for_good cs (Escrow.mark_spent k s).1 (mark_spent-Holds k s h) fresh
