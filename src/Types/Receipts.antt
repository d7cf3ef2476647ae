-- ===== src/Types/Receipts.antt =====
-- crates/openmatch-types/src/receipt.rs: signed records of what happened.
use openmatch.Base.{ℕ, List, Option, String}
use openmatch.Types.Ids.{EpochId, NodeId, TradeId}

pub data ReceiptType : Type 0 where
  order_accepted : ReceiptType
  order_rejected : ReceiptType
  trade_executed : ReceiptType
  settlement_completed : ReceiptType
  spend_right_minted : ReceiptType
  spend_right_released : ReceiptType
  spend_right_spent : ReceiptType

-- `Display for ReceiptType`
unfoldable receipt_type_text : ReceiptType → String
receipt_type_text order_accepted = "ORDER_ACCEPTED"
receipt_type_text order_rejected = "ORDER_REJECTED"
receipt_type_text trade_executed = "TRADE_EXECUTED"
receipt_type_text settlement_completed = "SETTLEMENT_COMPLETED"
receipt_type_text spend_right_minted = "SPEND_RIGHT_MINTED"
receipt_type_text spend_right_released = "SPEND_RIGHT_RELEASED"
receipt_type_text spend_right_spent = "SPEND_RIGHT_SPENT"

pub record Receipt : Type 0 where
  pub receipt_type : ReceiptType
  pub epoch_id : EpochId
  pub trade_id : Option TradeId
  pub payload : List ℕ
  pub payload_hash : List ℕ
  pub signature : List ℕ
  pub issuer_node : NodeId
  pub issued_at : ℕ

unfoldable signing_bytes : Receipt → List ℕ
signing_bytes r = r.payload_hash
