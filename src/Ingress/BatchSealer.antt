-- ===== src/Ingress/BatchSealer.antt =====
-- crates/openmatch-ingress/src/batch_sealer.rs: the sealed batch and its hash. The hash function of
-- the crate `sha2` is the parameter `sha256`.
pub mod Laws
use openmatch.Base.{
  ℕ, List, [], ◌∷◌, ◌++◌, none, some, Option, Bool, ◌&&◌, ◌||◌, ltb, ◌==◌, length, bytes_eq,
}
use openmatch.Base
use openmatch.Decimal.{Decimal}
use openmatch.Sort.{sort_by}
use openmatch.Types.{
  NodeId, EpochId, Order, OrderSide, OrderType, SealedBatch, BatchDigest, uuid_bytes, to_le_bytes,
  ascii,
}

pub record BatchSealer : Type 0 where
  pub node_id : NodeId

-- `a.sequence.cmp(&b.sequence).then(a.id.cmp(&b.id))` is `Less`
abbrev pub comes_before : {D : Type 0} → Order D → Order D → Bool
comes_before a b = ltb a.sequence b.sequence || (a.sequence == b.sequence && ltb a.id b.id)

abbrev pub side_byte : OrderSide → ℕ
side_byte OrderSide.buy = 0
side_byte OrderSide.sell = 1

abbrev type_byte : OrderType → ℕ
type_byte OrderType.limit = 0
type_byte OrderType.market = 1
type_byte OrderType.cancel = 2

module _ {D : Type 0} ⦃d : Decimal D⦄ where
  abbrev price_bytes : Option D → List ℕ
  price_bytes none = []
  price_bytes (some p) = d.to_bytes p

  -- What one order feeds to the hash.
  unfoldable pub order_bytes : Order D → List ℕ
  order_bytes o =
      uuid_bytes o.id
      ++ (uuid_bytes o.user_id
          ++ (uuid_bytes o.sr_id
              ++ (side_byte o.side
                  ∷ type_byte o.order_type
                  ∷ ((price_bytes o.price ++ d.to_bytes o.quantity) ++ to_le_bytes 8 o.sequence))))

  abbrev pub orders_bytes : List (Order D) → List ℕ
  orders_bytes [] = []
  orders_bytes (o ∷ os) = order_bytes o ++ orders_bytes os

  unfoldable pub compute_batch_hash : (List ℕ → List ℕ) → EpochId → List (Order D) → List ℕ
  compute_batch_hash sha256 epoch_id orders = sha256 (
      ascii "openmatch:batch:v2:"
      ++ (to_le_bytes 8 epoch_id ++ (to_le_bytes 8 (length orders) ++ orders_bytes orders)))

  -- `now` is `Utc::now()`.
  unfoldable pub seal :
      (List ℕ → List ℕ) → ℕ → EpochId → List (Order D) → BatchSealer → SealedBatch D
  seal sha256 now epoch_id orders s =
      let sorted = sort_by comes_before orders in
      record {
        epoch_id = epoch_id;
        orders = sorted;
        batch_hash = compute_batch_hash sha256 epoch_id sorted;
        sealed_at = now;
        sealer_node = s.node_id;
      }

  unfoldable digest : SealedBatch D → BatchSealer → BatchDigest
  digest b s = record {
    epoch_id = b.epoch_id;
    batch_hash = b.batch_hash;
    order_count = length b.orders;
    signer_node = s.node_id;
    signature = Base.replicate 64 0;
  }

  unfoldable pub verify_batch_hash : (List ℕ → List ℕ) → SealedBatch D → Bool
  verify_batch_hash sha256 b = bytes_eq (compute_batch_hash sha256 b.epoch_id b.orders) b.batch_hash
