-- ===== src/MatchCore/Determinism.antt =====
-- crates/openmatch-matchcore/src/determinism.rs: the hash of the trades. The hash function of the
-- crate `sha2` is the parameter `sha256`.
use openmatch.Base.{ℕ, List, [], ◌∷◌, ◌++◌, Bool, length, bytes_eq}
use openmatch.Decimal.{Decimal}
use openmatch.Types.{Trade, uuid_bytes, to_le_bytes, ascii}

module _ {D : Type 0} ⦃d : Decimal D⦄ where
  -- What one trade feeds to the hash.
  unfoldable pub trade_bytes : Trade D → List ℕ
  trade_bytes t =
      uuid_bytes t.id
      ++ (to_le_bytes 8 t.epoch_id
          ++ (uuid_bytes t.taker_order_id
              ++ (uuid_bytes t.maker_order_id
                  ++ (uuid_bytes t.taker_user_id
                      ++ (uuid_bytes t.maker_user_id
                          ++ (d.to_bytes t.price
                              ++ (d.to_bytes t.quantity ++ d.to_bytes t.quote_amount)))))))

  abbrev pub trades_bytes : List (Trade D) → List ℕ
  trades_bytes [] = []
  trades_bytes (t ∷ ts) = trade_bytes t ++ trades_bytes ts

  unfoldable pub compute_trade_root : (List ℕ → List ℕ) → List (Trade D) → List ℕ
  compute_trade_root sha256 trades =
      sha256
        (ascii "openmatch:trade_root:v2:" ++ (to_le_bytes 8 (length trades) ++ trades_bytes trades))

  unfoldable verify_trade_root : (List ℕ → List ℕ) → List (Trade D) → List ℕ → Bool
  verify_trade_root sha256 trades expected_root =
      bytes_eq (compute_trade_root sha256 trades) expected_root
