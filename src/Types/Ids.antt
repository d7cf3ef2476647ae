-- ===== src/Types/Ids.antt =====
-- crates/openmatch-types/src/ids.rs. A UUID is the number that its 16 bytes write in big-endian
-- order, by which UUIDs also compare; a node's key is a list of 32 bytes. `new()` draws a fresh
-- UUID from the clock and the system: where the code calls it, the model takes the new id as an
-- argument.
use openmatch.Base.{
  ℕ, zero, suc, ◌+◌, ◌*◌, ◌/◌, ◌%◌, ◌^◌, List, [], ◌∷◌, ◌++◌, String, ◌≡◌, ◌↔◌, Bool, true, ◌&&◌,
  Eq, ◌=?◌, string_eq, arith,
}
use Prim.Native.Char.{code}
use Prim.Native.String.{◌++◌ as append}

abbrev pub OrderId : Type 0
OrderId = ℕ

abbrev pub UserId : Type 0
UserId = ℕ

abbrev pub NodeId : Type 0
NodeId = List ℕ

abbrev pub SpendRightId : Type 0
SpendRightId = ℕ

-- `EpochId(pub u64)`
abbrev pub EpochId : Type 0
EpochId = ℕ

abbrev pub TradeId : Type 0
TradeId = ℕ

-- `EpochId::next`, on a `u64`
pub next : EpochId → EpochId
next e = (e + 1) % 2 ^ 64

pub record MarketPair : Type 0 where
  pub base : String
  pub quote : String

abbrev market_beq : MarketPair → MarketPair → Bool
market_beq a b = a.base =? b.base && a.quote =? b.quote

pub market_beq_iff : (a b : MarketPair) → (market_beq a b ≡ true) ↔ (a ≡ b)
market_beq_iff a b =
    ground (arith, string_eq.beq_iff a.base b.base, string_eq.beq_iff a.quote b.quote)

instance abbrev pub market_eq : Eq MarketPair
market_eq = record { beq = market_beq; beq_iff = market_beq_iff }

-- `MarketPair::symbol`
unfoldable pub symbol : MarketPair → String
symbol m = append m.base (append "/" m.quote)

-- `u64::to_le_bytes`, for `n` bytes
abbrev pub to_le_bytes : ℕ → ℕ → List ℕ
to_le_bytes zero x = []
to_le_bytes (suc n) x = x % 256 ∷ to_le_bytes n (x / 256)

-- `Uuid::as_bytes`, for `n` bytes
abbrev to_be_bytes : ℕ → ℕ → List ℕ
to_be_bytes zero x = []
to_be_bytes (suc n) x = to_be_bytes n (x / 256) ++ x % 256 ∷ []

abbrev pub uuid_bytes : ℕ → List ℕ
uuid_bytes = to_be_bytes 16

-- `Uuid::from_bytes` of the first `n` bytes of a list, read after `acc`
abbrev from_be_bytes : ℕ → ℕ → List ℕ → ℕ
from_be_bytes zero acc bs = acc
from_be_bytes (suc n) acc [] = acc
from_be_bytes (suc n) acc (b ∷ bs) = from_be_bytes n (acc * 256 + b) bs

-- `OrderId::from_bytes` and `UserId::from_bytes`, of 16 bytes
unfoldable pub from_bytes : List ℕ → ℕ
from_bytes bs = from_be_bytes 16 0 bs

-- the first `n` bytes
abbrev first_bytes : ℕ → List ℕ → List ℕ
first_bytes zero bs = []
first_bytes (suc n) [] = []
first_bytes (suc n) (b ∷ bs) = b ∷ first_bytes n bs

-- `OrderId::timestamp_ms`: the first six bytes, read as a `u64` after two bytes 0
unfoldable pub timestamp_ms : OrderId → ℕ
timestamp_ms i = from_be_bytes 8 0 (0 ∷ 0 ∷ first_bytes 6 (uuid_bytes i))

-- the bytes of an ASCII literal
abbrev pub ascii : String → List ℕ
ascii String.[] = []
ascii (String.◌∷◌ c s) = code c ∷ ascii s

-- `TradeId::deterministic`, over the hash function of the crate `sha2`
unfoldable pub deterministic : (List ℕ → List ℕ) → ℕ → ℕ → TradeId
deterministic sha256 epoch_id fill_sequence = from_be_bytes 16 0 (
    sha256
      (ascii "openmatch:trade_id:v2:" ++ to_le_bytes 8 epoch_id ++ to_le_bytes 8 fill_sequence))
