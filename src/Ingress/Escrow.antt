-- ===== src/Ingress/Escrow.antt =====
-- crates/openmatch-ingress/src/escrow.rs: spend rights, minted against frozen funds. The balance
-- manager that the methods borrow and the global nonce counter are part of the state.
pub mod Cases
pub mod Backing
pub mod Monotone
pub mod RoundTrip
pub mod Reserved
pub mod Redeemed
use openmatch.Base.{
  ℕ, ◌+◌, ◌*◌, ◌%◌, ◌^◌, List, [], ◌∷◌, none, some, Option, Bool, false, Eq, nat_eq, Result, ok,
  err, bind, if◌then◌else◌, not,
}
use openmatch.Decimal.{Decimal}
use openmatch.Map.{Map, lookup, insert}
use openmatch.Types.{
  OrderId, UserId, NodeId, SpendRightId, EpochId, Asset, SpendRight, SpendRightState, active,
  is_active, is_active_state, OpenmatchError, invalid_spend_right, spend_right_not_found,
  spend_right_not_active,
}
use openmatch.Types
use openmatch.Accounts
use openmatch.Accounts.{Accounts}
use openmatch.Base

pub record EscrowManager (D : Type 0) : Type 0 where
  pub spend_rights : Map SpendRightId (SpendRight D)
  pub node_id : NodeId
  -- the argument `balance_manager`
  pub accounts : Accounts D
  -- `NONCE_COUNTER`
  pub nonce_counter : ℕ

abbrev pub new_escrow : {D : Type 0} → NodeId → Accounts D → ℕ → EscrowManager D
new_escrow node m n = record { spend_rights = []; node_id = node; accounts = m; nonce_counter = n }

-- 64 zero bytes
abbrev placeholder_signature : List ℕ
placeholder_signature = Base.replicate 64 0

-- `chrono::Duration::hours(1)`
abbrev one_hour : ℕ
one_hour = 3_600_000

module _ {D : Type 0} ⦃d : Decimal D⦄ where
  -- The spend right that `mint` creates: `sr_id` is the id drawn, `now` the time.
  abbrev pub minted :
      SpendRightId → ℕ → OrderId → UserId → Asset → D → EpochId → EscrowManager D → SpendRight D
  minted sr_id now order_id user_id asset amount epoch_id s = record {
    id = sr_id;
    order_id = order_id;
    user_id = user_id;
    asset = asset;
    amount = amount;
    issuer_node = s.node_id;
    state = active;
    signature = placeholder_signature;
    nonce = s.nonce_counter;
    epoch_id = epoch_id;
    created_at = now;
    expires_at = now + one_hour;
  }

  unfoldable pub mint :
      SpendRightId
      → ℕ
      → OrderId
      → UserId
      → Asset
      → D
      → EpochId
      → EscrowManager D
      → Result (OpenmatchError D) SpendRightId × EscrowManager D
  mint sr_id now order_id user_id asset amount epoch_id s =
      let (r, m) = Accounts.freeze (user_id, asset) amount s.accounts in
      bind (r, record s { accounts = m })
        λ u s'. (
          ok sr_id,
          record s' {
            spend_rights =
                insert sr_id (minted sr_id now order_id user_id asset amount epoch_id s')
                  s'.spend_rights;
            nonce_counter = (s'.nonce_counter + 1) % 2 ^ 64;
          },
        )

  -- A write through the reference that `get_mut` gave.
  abbrev write_back :
      SpendRightId
      → EscrowManager D
      → Result (OpenmatchError D) (Unit {0}) × SpendRight D
      → Result (OpenmatchError D) (Unit {0}) × EscrowManager D
  write_back sr_id s (r, sr) = (r, record s { spend_rights = insert sr_id sr s.spend_rights })

  abbrev pub release_found :
      SpendRightId
      → SpendRight D
      → EscrowManager D
      → Result (OpenmatchError D) (Unit {0}) × EscrowManager D
  release_found sr_id sr s =
      if not (is_active_state sr.state)
      then (err (invalid_spend_right (spend_right_not_active sr_id sr.state)), s)
      else let (r, m) = Accounts.unfreeze (sr.user_id, sr.asset) sr.amount s.accounts in
        bind (r, record s { accounts = m }) λ u s'. write_back sr_id s' (Types.mark_released sr)

  unfoldable pub release :
      SpendRightId → EscrowManager D → Result (OpenmatchError D) (Unit {0}) × EscrowManager D
  release sr_id s = elim (lookup sr_id s.spend_rights) [
    | none ↦ (err (invalid_spend_right (spend_right_not_found sr_id)), s)
    | some sr ↦ release_found sr_id sr s
  ]

  unfoldable pub mark_spent :
      SpendRightId → EscrowManager D → Result (OpenmatchError D) (Unit {0}) × EscrowManager D
  mark_spent sr_id s = elim (lookup sr_id s.spend_rights) [
    | none ↦ (err (invalid_spend_right (spend_right_not_found sr_id)), s)
    | some sr ↦ write_back sr_id s (Types.mark_spent sr)
  ]

  -- `EscrowManager::is_active`, at the time `now`
  unfoldable right_is_active : ℕ → SpendRightId → EscrowManager D → Bool
  right_is_active now sr_id s = elim (lookup sr_id s.spend_rights) [
    | none ↦ false
    | some sr ↦ is_active now sr
  ]

  abbrev count_active : Map SpendRightId (SpendRight D) → ℕ
  count_active [] = 0
  count_active ((i, sr) ∷ m) = (if is_active_state sr.state then 1 else 0) + count_active m

  unfoldable pub active_count : EscrowManager D → ℕ
  active_count s = count_active s.spend_rights

-- A call of the manager that changes its state.
pub data Call (D : Type 0) : Type 0 where
  mint_call : SpendRightId → ℕ → OrderId → UserId → Asset → D → EpochId → Call D
  release_call : SpendRightId → Call D
  spend_call : SpendRightId → Call D

-- The ids that the mints of a sequence draw.
abbrev pub minted_ids : {D : Type 0} → List (Call D) → List SpendRightId
minted_ids [] = []
minted_ids (mint_call i now order user asset amount epoch ∷ cs) = i ∷ minted_ids cs
minted_ids (release_call i ∷ cs) = minted_ids cs
minted_ids (spend_call i ∷ cs) = minted_ids cs

module _ {D : Type 0} ⦃d : Decimal D⦄ where
  unfoldable pub apply : Call D → EscrowManager D → EscrowManager D
  apply (mint_call i now order user asset amount epoch) s =
      (mint i now order user asset amount epoch s).1
  apply (release_call i) s = (release i s).1
  apply (spend_call i) s = (mark_spent i s).1

  unfoldable pub run : List (Call D) → EscrowManager D → EscrowManager D
  run [] s = s
  run (c ∷ cs) s = run cs (apply c s)
