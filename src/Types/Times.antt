-- ===== src/Types/Times.antt =====
-- The times in the identifiers of crates/openmatch-types/src/ids.rs.
use openmatch.Base.{◌/◌, ◌^◌, ◌<◌, ◌≡◌, arith}
use openmatch.Types.Ids.{OrderId, uuid_bytes, from_bytes, timestamp_ms}

-- An identifier is read back from its bytes.
from_bytes-uuid_bytes : (i : OrderId) → i < 2 ^ 128 → from_bytes (uuid_bytes i) ≡ i
unfolding from_bytes
from_bytes-uuid_bytes i h = omega arith

timestamp_ms_lem : (i : OrderId) → i < 2 ^ 128 → timestamp_ms i ≡ i / 2 ^ 80
unfolding timestamp_ms
timestamp_ms_lem i h = omega arith

-- An identifier with the earlier time sorts first.
timestamp_ms-lt :
    (i j : OrderId) → i < 2 ^ 128 → j < 2 ^ 128 → timestamp_ms i < timestamp_ms j → i < j
timestamp_ms-lt i j hi hj h = omega (arith, timestamp_ms_lem i hi, timestamp_ms_lem j hj)
