-- ===== src/Types/SpendRights.antt =====
-- crates/openmatch-types/src/spend_right.rs: the escrow token and its one-way life cycle.
use openmatch.Base.{
  ℕ, Bool, true, false, ◌&&◌, not, List, ◌++◌, String, Result, ok, err, if◌then◌else◌, ltb,
}
use openmatch.Decimal.{Decimal}
use openmatch.Types.Ids.{
  OrderId, UserId, NodeId, SpendRightId, EpochId, uuid_bytes, to_le_bytes, ascii,
}
use openmatch.Types.States.{SpendRightState, active, spent, released}
use openmatch.Types.Errors.{OpenmatchError, Reason}

-- `matches!((self, target), (Active, Spent | Released))`
unfoldable can_transition_to : SpendRightState → SpendRightState → Bool
can_transition_to active active = false
can_transition_to active spent = true
can_transition_to active released = true
can_transition_to spent target = false
can_transition_to released target = false

abbrev pub is_active_state : SpendRightState → Bool
is_active_state active = true
is_active_state _ = false

pub record SpendRight (D : Type 0) : Type 0 where
  pub id : SpendRightId
  pub order_id : OrderId
  pub user_id : UserId
  pub asset : String
  pub amount : D
  pub issuer_node : NodeId
  pub state : SpendRightState
  pub signature : List ℕ
  pub nonce : ℕ
  pub epoch_id : EpochId
  pub created_at : ℕ
  pub expires_at : ℕ

module _ {D : Type 0} ⦃d : Decimal D⦄ where
  unfoldable signing_payload : SpendRight D → List ℕ
  signing_payload sr =
      ascii "openmatch:sr:v1:"
      ++ (uuid_bytes sr.id
          ++ (uuid_bytes sr.order_id
              ++ (uuid_bytes sr.user_id
                  ++ (ascii sr.asset
                      ++ (d.to_bytes sr.amount
                          ++ (to_le_bytes 8 sr.nonce ++ to_le_bytes 8 sr.epoch_id))))))

-- `Utc::now()` is the argument `now`.
unfoldable is_expired : {D : Type 0} → ℕ → SpendRight D → Bool
is_expired now sr = ltb sr.expires_at now

unfoldable pub is_active : {D : Type 0} → ℕ → SpendRight D → Bool
unfolding is_expired
is_active now sr = is_active_state sr.state && not (is_expired now sr)

module _ {D : Type 0} where
  unfoldable pub mark_spent : SpendRight D → Result (OpenmatchError D) (Unit {0}) × SpendRight D
  unfolding can_transition_to
  mark_spent sr =
      if can_transition_to sr.state spent
      then (ok tt, record sr { state = spent })
      else (err (OpenmatchError.invalid_spend_right (Reason.cannot_spend sr.id sr.state)), sr)

  unfoldable pub mark_released : SpendRight D → Result (OpenmatchError D) (Unit {0}) × SpendRight D
  unfolding can_transition_to
  mark_released sr =
      if can_transition_to sr.state released
      then (ok tt, record sr { state = released })
      else (err (OpenmatchError.invalid_spend_right (Reason.cannot_release sr.id sr.state)), sr)
