-- ===== src/Settlement/Idempotency/Window.antt =====
-- How long the guard of crates/openmatch-settlement/src/idempotency.rs remembers a trade.
use openmatch.Base.{
  ℕ, suc, ◌+◌, ◌≤◌, ◌<◌, ◌≡◌, refl, List, [], ◌∷◌, ◌++◌, true, false, length, contains,
  length-append, contains-append, leb, arith, Bool-cases, inl, inr, err, subst, sym, ◌∙◌, leb→le,
}
use openmatch.Types.{TradeId, trade_already_settled}
use openmatch.Settlement.Idempotency.{IdempotencyGuard, evict, make_room, mark_settled}
use openmatch.Settlement.Idempotency.Valid.{
  IsValid, make_room-max_size, mark_settled_cases, mark_settled-IsValid,
}
use mathlib.Core.List.{append_assoc}

-- `t` stands in the queue with at most `k` trades behind it.
pub record IsRecent (t : TradeId) (k : ℕ) (q : List TradeId) : Type 0 where
  pub older : List TradeId
  pub newer : List TradeId
  pub split : q ≡ older ++ (t ∷ newer)
  pub few : length newer ≤ k

module _ (D : Type 0) where
  -- The guard after marking a list of trades, each refused or recorded.
  abbrev pub mark_all : List TradeId → IdempotencyGuard → IdempotencyGuard
  mark_all [] g = g
  mark_all (u ∷ us) g = mark_all us (mark_settled {D = D} u g).1

pub mark_all-IsValid :
    (D : Type 0) (us : List TradeId) (g : IdempotencyGuard) → IsValid g → IsValid (mark_all D us g)
mark_all-IsValid D [] g v = v
mark_all-IsValid D (u ∷ us) g v =
    mark_all-IsValid D us (mark_settled {D = D} u g).1 (mark_settled-IsValid D u g v)

IsRecent-push :
    (t u : TradeId) (k : ℕ) (q : List TradeId) → IsRecent t k q → IsRecent t (suc k) (q ++ u ∷ [])
IsRecent-push t u k q r = record {
  older = r.older;
  newer = r.newer ++ u ∷ [];
  split = rw (r.split) (append_assoc r.older (t ∷ r.newer) (u ∷ []));
  few = omega (arith, length-append r.newer (u ∷ []), r.few);
}

evict_split :
    (t : TradeId) (k : ℕ) (s older newer : List TradeId) (n : ℕ)
    → length newer ≤ k
    → suc k < n
    → length (older ++ (t ∷ newer)) ≡ n
    → IsRecent t k
        (evict (record { settled = s; order = older ++ (t ∷ newer); max_size = n })).order
evict_split t k s [] newer n few small full = absurd (omega arith)
evict_split t k s (x ∷ older) newer n few small full = record {
  older = older;
  newer = newer;
  split = refl;
  few = few;
}

-- Making room leaves a recent trade alone while the queue is longer than what stands behind it.
IsRecent-make_room :
    (t : TradeId) (k : ℕ) (g : IdempotencyGuard)
    → IsValid g
    → IsRecent t k g.order
    → suc k < g.max_size
    → IsRecent t k (make_room g).order
unfolding make_room
IsRecent-make_room t k g v r small = elim (Bool-cases (leb g.max_size (length g.settled))) [
  | inl full ↦ rw full (
      subst (λ q. IsRecent t k (evict (record g { order = q })).order) (sym r.split)
        (evict_split t k g.settled r.older r.newer g.max_size r.few small
          (rw r.split at (queue_full (leb→le g.max_size (length g.settled) full)))))
  | inr space ↦ rw space r
]
  where
    queue_full : g.max_size ≤ length g.settled → length g.order ≡ g.max_size
    queue_full h = omega (arith, v.counted, v.bounded)

mark_settled-max_size :
    (D : Type 0) (t : TradeId) (g : IdempotencyGuard)
    → (mark_settled {D = D} t g).1.max_size ≡ g.max_size
mark_settled-max_size D t g = elim (mark_settled_cases D t g) [
  | inl (old, refused) ↦ rw refused
  | inr (new, accepted) ↦ rw accepted (make_room-max_size g)
]

mark_settled-IsRecent :
    (D : Type 0) (t u : TradeId) (k : ℕ) (g : IdempotencyGuard)
    → IsValid g
    → IsRecent t k g.order
    → suc k < g.max_size
    → IsRecent t (suc k) (mark_settled {D = D} u g).1.order
mark_settled-IsRecent D t u k g v r small = elim (mark_settled_cases D u g) [
  | inl (old, refused) ↦
      rw refused
        (record { older = r.older; newer = r.newer; split = r.split; few = omega (arith, r.few) })
  | inr (new, accepted) ↦
      rw accepted (IsRecent-push t u k (make_room g).order (IsRecent-make_room t k g v r small))
]

IsRecent-contains : (t : TradeId) (k : ℕ) (q : List TradeId) → IsRecent t k q → contains t q ≡ true
IsRecent-contains t k q r = rw r.split (rw (contains-append t r.older (t ∷ r.newer)) (ground arith))

mark_all-contains :
    (D : Type 0) (t : TradeId) (k : ℕ) (us : List TradeId) (g : IdempotencyGuard)
    → IsValid g
    → IsRecent t k g.order
    → k + length us < g.max_size
    → contains t (mark_all D us g).settled ≡ true
mark_all-contains D t k [] g v r small = sym (v.same_trades t) ∙ IsRecent-contains t k g.order r
mark_all-contains D t k (u ∷ us) g v r small =
    mark_all-contains D t (suc k) us (mark_settled {D = D} u g).1 (mark_settled-IsValid D u g v)
      (mark_settled-IsRecent D t u k g v r (omega arith))
      (rw (mark_settled-max_size D u g) (omega arith))

-- From a valid guard that does not hold the trade `t`: once `t` is marked, a second attempt to mark
-- it is refused with `trade_already_settled` and changes nothing, after any further marks that are
-- fewer than `max_size`, whether those are accepted or not.
pub no_double_settlement :
    (D : Type 0) (t : TradeId) (us : List TradeId) (g : IdempotencyGuard)
    → IsValid g
    → contains t g.settled ≡ false
    → length us < g.max_size
    → let g' = mark_all D us (mark_settled {D = D} t g).1 in
      mark_settled {D = D} t g' ≡ (err (trade_already_settled t), g')
no_double_settlement D t us g v new few = elim (mark_settled_cases D t g') [
  | inl (old, refused) ↦ refused
  | inr (fresh, accepted) ↦ absurd (cc (still, fresh))
]
  where
    g' : IdempotencyGuard
    g' = mark_all D us (mark_settled {D = D} t g).1

    marked : IsRecent t 0 (mark_settled {D = D} t g).1.order
    marked = elim (mark_settled_cases D t g) [
      | inl (old, refused) ↦ absurd (cc (old, new))
      | inr (fresh, accepted) ↦
          rw accepted
            (record { older = (make_room g).order; newer = []; split = refl; few = omega arith })
    ]

    still : contains t g'.settled ≡ true
    still =
        mark_all-contains D t 0 us (mark_settled {D = D} t g).1 (mark_settled-IsValid D t g v)
          marked (rw (mark_settled-max_size D t g) (omega arith))
