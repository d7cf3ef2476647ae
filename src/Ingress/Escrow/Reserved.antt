-- ===== src/Ingress/Escrow/Reserved.antt =====
-- The funds of the spend rights over sequences of calls of
-- crates/openmatch-ingress/src/escrow.rs: `mark_spent` leaves them frozen, for the settlement to
-- take.
use openmatch.Base.{
  ℕ, ◌≡◌, ◌≢◌, refl, ◌∙◌, none, some, Bool, true, false, nat_eq, string_eq, pair_eq, int_laws,
  parts, List, [], ◌∷◌, All, All-imp, All-both, AllDiffer, Option-cases, inl, inr, arith, ◌==◌,
  Bool-cases,
}
use openmatch.Decimal.{Decimal}
use openmatch.Map.{Map, lookup, insert, lookup-insert}
use openmatch.Map.Sum.{total-insert}
use openmatch.Types
use openmatch.Types.{
  active, spent, released, SpendRightState, OrderId, UserId, SpendRightId, EpochId, Asset,
  SpendRight, is_active_state,
}
use openmatch.Accounts.{Key}
use openmatch.Accounts.Cases.{freeze-Writes}
use openmatch.Ingress.Escrow
use openmatch.Ingress.Escrow.{
  EscrowManager, minted, mint, release, Call, mint_call, release_call, spend_call, apply, run,
  minted_ids,
}
use openmatch.Ingress.Escrow.Cases.{release_cases, mark_spent_cases}
use openmatch.Ingress.Escrow.Backing.{locked, IsBackedBy, mint-IsBackedBy, release-IsBackedBy}

-- The states in which the funds of a spend right are frozen.
abbrev pub is_unreleased : SpendRightState → Bool
is_unreleased released = false
is_unreleased _ = true

module _ {D : Type 0} ⦃d : Decimal D⦄ where
  -- In every account, the frozen funds are the sum of its spend rights that are not released.
  abbrev pub IsReserved : EscrowManager D → Type 0
  IsReserved = IsBackedBy is_unreleased

  mark_spent_state :
      (sr : SpendRight D)
      → (k : Key) (i : SpendRightId)
      → locked is_unreleased k i (Types.mark_spent sr).1 ≡ locked is_unreleased k i sr
  unfolding Types.mark_spent
  mark_spent_state sr k i = ground arith

  mark_spent-IsReserved :
      (i : SpendRightId) (s : EscrowManager D) → IsReserved s → IsReserved (Escrow.mark_spent i s).1
  unfolding Escrow.mark_spent
  mark_spent-IsReserved i s h k = elim (Option-cases (lookup i s.spend_rights)) [
    | inl absent ↦ rw (absent, Escrow.mark_spent) (h k)
    | inr (sr, found) ↦
        let w = locked is_unreleased k in
        let sr' = (Types.mark_spent sr).1 in
        let t = rw found at (total-insert w i sr' s.spend_rights) in
        rw (found, Escrow.mark_spent)
          (omega (int_laws, parts t, parts (mark_spent_state sr k i), parts (h k)))
  ]

  -- No right stands under `i`.
  abbrev pub IsFree : EscrowManager D → SpendRightId → Type 0
  IsFree s i = lookup i s.spend_rights ≡ none

  insert-IsFree :
      (i k : SpendRightId) (sr : SpendRight D) (m : Map SpendRightId (SpendRight D))
      → k ≢ i
      → lookup i m ≡ none
      → lookup i (insert k sr m) ≡ none
  insert-IsFree i k sr m ne h = ground (arith, lookup-insert i k sr m)

  write-IsFree :
      (i k : SpendRightId) (sr sr' : SpendRight D) (m : Map SpendRightId (SpendRight D))
      → lookup k m ≡ some sr
      → lookup i m ≡ none
      → lookup i (insert k sr' m) ≡ none
  write-IsFree i k sr sr' m found h = elim (Bool-cases (k == i)) [
    | inl same ↦ absurd (ground arith)
    | inr ne ↦ ground (arith, lookup-insert i k sr' m)
  ]

  mint-IsFree :
      (k : SpendRightId) (now : ℕ) (order : OrderId) (user : UserId) (asset : Asset) (a : D)
      (epoch : EpochId) (s : EscrowManager D) (i : SpendRightId)
      → k ≢ i
      → IsFree s i
      → IsFree (mint k now order user asset a epoch s).1 i
  unfolding mint
  mint-IsFree k now order user asset a epoch s i ne h =
      elim (freeze-Writes (user, asset) a s.accounts) [
        | inl (x, failed) ↦ rw failed h
        | inr (e, old, enough, done) ↦
            rw done
              (insert-IsFree i k (minted k now order user asset a epoch s) s.spend_rights ne h)
      ]

  release-IsFree :
      (k : SpendRightId) (s : EscrowManager D) (i : SpendRightId)
      → IsFree s i
      → IsFree (release k s).1 i
  release-IsFree k s i h = elim (release_cases k s) [
    | inl (x, failed) ↦ rw failed h
    | inr (sr, e, found, live, old, enough, done) ↦
        rw done (write-IsFree i k sr (record sr { state = released }) s.spend_rights found h)
  ]

  mark_spent-IsFree :
      (k : SpendRightId) (s : EscrowManager D) (i : SpendRightId)
      → IsFree s i
      → IsFree (Escrow.mark_spent k s).1 i
  mark_spent-IsFree k s i h = elim (mark_spent_cases k s) [
    | inl (x, failed, same) ↦ same i ∙ h
    | inr (sr, found, live, done) ↦
        rw done (write-IsFree i k sr (record sr { state = spent }) s.spend_rights found h)
  ]

  mint-AllFree :
      (k : SpendRightId) (now : ℕ) (order : OrderId) (user : UserId) (asset : Asset) (a : D)
      (epoch : EpochId) (s : EscrowManager D) (is : List SpendRightId)
      → All (λ i. k ≢ i) is
      → All (IsFree s) is
      → All (IsFree (mint k now order user asset a epoch s).1) is
  mint-AllFree k now order user asset a epoch s =
      All-both (mint-IsFree k now order user asset a epoch s)

  -- If in every account the frozen funds are the sum of its spend rights that are active or spent, so
  -- they are after any sequence of mints, releases and spends, whether each succeeds or fails,
  -- provided that no two mints draw the same id or one that a right has.
  pub run-IsReserved :
      (cs : List (Call D)) (s : EscrowManager D)
      → AllDiffer (minted_ids cs)
      → All (IsFree s) (minted_ids cs)
      → IsReserved s
      → IsReserved (run cs s)
  unfolding run apply
  run-IsReserved [] s differ free h = h
  run-IsReserved (mint_call k now order user asset a epoch ∷ cs) s differ free h =
      run-IsReserved cs (mint k now order user asset a epoch s).1 differ.1
        (mint-AllFree k now order user asset a epoch s (minted_ids cs) differ.0 free.1)
        (mint-IsBackedBy is_unreleased refl refl k now order user asset a epoch s free.0 h)
  run-IsReserved (release_call k ∷ cs) s differ free h =
      run-IsReserved cs (release k s).1 differ (All-imp (release-IsFree k s) (minted_ids cs) free)
        (release-IsBackedBy is_unreleased refl refl k s h)
  run-IsReserved (spend_call k ∷ cs) s differ free h =
      run-IsReserved cs (Escrow.mark_spent k s).1 differ
        (All-imp (mark_spent-IsFree k s) (minted_ids cs) free) (mark_spent-IsReserved k s h)
