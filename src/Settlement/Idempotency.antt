-- ===== src/Settlement/Idempotency.antt =====
-- crates/openmatch-settlement/src/idempotency.rs: the bounded set of settled trades.
pub mod Valid
pub mod Window
use openmatch.Base.{
  ℕ, ◌≤◌, ◌<◌, ◌≡◌, List, [], ◌∷◌, ◌++◌, Bool, Result, ok, err, length, contains, set_insert,
  set_remove, HasNoRepeats, leb, if◌then◌else◌,
}
use openmatch.Types.{TradeId, OpenmatchError, trade_already_settled}

pub record IdempotencyGuard : Type 0 where
  pub settled : List TradeId
  -- front = oldest
  pub order : List TradeId
  pub max_size : ℕ

-- `IdempotencyGuard::new`, which panics if `max_size` is 0
abbrev pub new_guard : ℕ → IdempotencyGuard
new_guard n = record { settled = []; order = []; max_size = n }

-- `if let Some(oldest) = self.order.pop_front() { self.settled.remove(&oldest); }`
abbrev pub evict : IdempotencyGuard → IdempotencyGuard
evict g = elim g.order [
  | [] ↦ g
  | oldest ∷ rest ↦ record g { settled = set_remove oldest g.settled; order = rest }
]

-- eviction at capacity
unfoldable pub make_room : IdempotencyGuard → IdempotencyGuard
make_room g = if leb g.max_size (length g.settled) then evict g else g

-- `settled.insert(id); order.push_back(id)`
abbrev pub record_settled : TradeId → IdempotencyGuard → IdempotencyGuard
record_settled t g = record g { settled = set_insert t g.settled; order = g.order ++ t ∷ [] }

unfoldable pub is_settled : TradeId → IdempotencyGuard → Bool
is_settled t g = contains t g.settled

unfoldable pub mark_settled :
    {D : Type 0}
    → TradeId
    → IdempotencyGuard
    → Result (OpenmatchError D) (Unit {0}) × IdempotencyGuard
unfolding is_settled
mark_settled t g =
    if is_settled t g
    then (err (trade_already_settled t), g)
    else (ok tt, record_settled t (make_room g))

-- `len`
abbrev settled_count : IdempotencyGuard → ℕ
settled_count g = length g.settled
