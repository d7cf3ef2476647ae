-- ===== src/Settlement/Idempotency/Valid.antt =====
-- The invariant of the guard of crates/openmatch-settlement/src/idempotency.rs.
use openmatch.Base.{
  ℕ, ◌≤◌, ◌<◌, ◌≡◌, refl, List, [], ◌∷◌, true, false, length, length-append, contains,
  contains-append, contains-set_remove, length-set_remove, set_remove-HasNoRepeats, HasNoRepeats,
  HasNoRepeats-append_one, leb, arith, Bool-cases, inl, inr, ◌⊎◌, ok, err,
}
use openmatch.Types.{TradeId, trade_already_settled}
use openmatch.Settlement.Idempotency.{
  IdempotencyGuard, new_guard, evict, make_room, record_settled, mark_settled,
}

pub record IsValid (g : IdempotencyGuard) : Type 0 where
  pub positive : 0 < g.max_size
  pub bounded : length g.settled ≤ g.max_size
  pub counted : length g.order ≡ length g.settled
  pub settled_once : HasNoRepeats g.settled
  pub queued_once : HasNoRepeats g.order
  pub same_trades : (t : TradeId) → contains t g.order ≡ contains t g.settled

pub new_guard-IsValid : (n : ℕ) → 0 < n → IsValid (new_guard n)
new_guard-IsValid n h = record {
  positive = h;
  bounded = omega arith;
  counted = refl;
  settled_once = tt;
  queued_once = tt;
  same_trades = λ t. refl;
}

-- Below capacity after making room, and still valid.
evict-IsValid :
    (s q : List TradeId) (n : ℕ)
    → IsValid (record { settled = s; order = q; max_size = n })
    → length s ≡ n
    → let g = evict (record { settled = s; order = q; max_size = n }) in
      IsValid g × (length g.settled < n)
evict-IsValid s [] n v full = absurd (omega (arith, v.positive, v.counted))
evict-IsValid s (x ∷ q) n v full =
    let here : contains x s ≡ true = ground (arith, v.same_trades x) in
    let shorter = length-set_remove x s v.settled_once here in
    (
      record {
        positive = v.positive;
        bounded = omega (arith, shorter, v.bounded);
        counted = omega (arith, shorter, v.counted);
        settled_once = set_remove-HasNoRepeats x s v.settled_once;
        queued_once = v.queued_once.1;
        same_trades = λ t. ground (arith, v.same_trades t, contains-set_remove x t s);
      },
      omega (arith, shorter),
    )

make_room-IsValid :
    (g : IdempotencyGuard)
    → IsValid g
    → IsValid (make_room g) × (length (make_room g).settled < g.max_size)
unfolding make_room
make_room-IsValid g v = elim (Bool-cases (leb g.max_size (length g.settled))) [
  | inl full ↦ rw full (evict-IsValid g.settled g.order g.max_size v (ground (arith, v.bounded)))
  | inr space ↦ rw space (v, ground arith)
]

pub make_room-max_size : (g : IdempotencyGuard) → (make_room g).max_size ≡ g.max_size
unfolding make_room
make_room-max_size g = elim (Bool-cases (leb g.max_size (length g.settled))) [
  | inl full ↦ rw full (evict_max g.order)
  | inr space ↦ rw space
]
  where
    evict_max : (q : List TradeId) → (evict (record g { order = q })).max_size ≡ g.max_size
    evict_max [] = refl
    evict_max (x ∷ q) = refl

-- Making room only forgets: what it leaves was there.
pub make_room_forgets :
    (t : TradeId) (g : IdempotencyGuard)
    → contains t g.settled ≡ false
    → contains t (make_room g).settled ≡ false
unfolding make_room
make_room_forgets t g new = elim (Bool-cases (leb g.max_size (length g.settled))) [
  | inl full ↦ rw full (evict_forgets g.order)
  | inr space ↦ rw space new
]
  where
    evict_forgets : (q : List TradeId) → contains t (evict (record g { order = q })).settled ≡ false
    evict_forgets [] = new
    evict_forgets (x ∷ q) = ground (arith, contains-set_remove x t g.settled)

record_settled-IsValid :
    (t : TradeId) (g : IdempotencyGuard)
    → IsValid g
    → contains t g.settled ≡ false
    → length g.settled < g.max_size
    → IsValid (record_settled t g)
record_settled-IsValid t g v new space = record {
  positive = v.positive;
  bounded = rw new (omega arith);
  counted = rw new (omega (arith, length-append g.order (t ∷ []), v.counted));
  settled_once = rw new (new, v.settled_once);
  queued_once = HasNoRepeats-append_one t g.order v.queued_once (ground (arith, v.same_trades t));
  same_trades = λ u. rw new (ground (arith, contains-append u g.order (t ∷ []), v.same_trades u));
}

-- Marking a trade refuses it if it is in the set, and otherwise records it once there is room.
pub mark_settled_cases :
    (D : Type 0) (t : TradeId) (g : IdempotencyGuard)
    → (contains t g.settled ≡ true)
        × (mark_settled {D = D} t g ≡ (err (trade_already_settled t), g))
      ⊎ (contains t g.settled ≡ false)
        × (mark_settled {D = D} t g ≡ (ok tt, record_settled t (make_room g)))
unfolding mark_settled
mark_settled_cases D t g = elim (Bool-cases (contains t g.settled)) [
  | inl old ↦ inl (old, rw old)
  | inr new ↦ inr (new, rw new)
]

-- Marking a trade keeps the guard valid, whether it is accepted or refused: its set and its queue
-- hold the same trades, each once, and never more than `max_size` of them.
pub mark_settled-IsValid :
    (D : Type 0) (t : TradeId) (g : IdempotencyGuard)
    → IsValid g
    → IsValid (mark_settled {D = D} t g).1
mark_settled-IsValid D t g v = elim (mark_settled_cases D t g) [
  | inl (old, refused) ↦ rw refused v
  | inr (new, accepted) ↦ rw accepted (
      let (room, space) = make_room-IsValid g v in
      record_settled-IsValid t (make_room g) room (make_room_forgets t g new)
        (rw (make_room-max_size g) space))
]
