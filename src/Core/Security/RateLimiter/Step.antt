-- ===== src/Core/Security/RateLimiter/Step.antt =====
-- What one check of the limiter of crates/openmatch-core/src/security.rs does to the window of a user.
use openmatch.Base.{
  ℕ, suc, ◌+◌, ◌-◌, ◌≤◌, ◌<◌, ◌≡◌, ◌⊎◌, refl, sym, List, [], ◌∷◌, ◌++◌, Bool, true, false, arith,
  length, leb, Bool-cases, inl, inr, nat_eq, ◌=?◌, ◌&&◌, if◌then◌else◌,
}
use openmatch.Map.{lookup-insert}
use openmatch.Types.{UserId}
use openmatch.Core.Security.RateLimiter.{
  OrderRateLimiter, epoch_count, window_of, prune, set_count, set_window, check_and_record, is_ok,
}

-- The number of times from `a` on.
abbrev count_from : ℕ → List ℕ → ℕ
count_from a [] = 0
count_from a (t ∷ ts) = let n = count_from a ts in if leb a t then suc n else n

-- The number of times from `a` to `b`.
abbrev pub count_between : ℕ → ℕ → List ℕ → ℕ
count_between a b [] = 0
count_between a b (t ∷ ts) = let n = count_between a b ts in if leb a t && leb t b then suc n else n

count_from-append :
    (a : ℕ) (xs ys : List ℕ) → count_from a (xs ++ ys) ≡ count_from a xs + count_from a ys
count_from-append a [] ys = omega arith
count_from-append a (x ∷ xs) ys = ground (arith, count_from-append a xs ys)

count_between_le : (a b : ℕ) (ts : List ℕ) → count_between a b ts ≤ count_from a ts
count_between_le a b [] = omega arith
count_between_le a b (t ∷ ts) = ground (arith, count_between_le a b ts)

count_from_le : (a : ℕ) (ts : List ℕ) → count_from a ts ≤ length ts
count_from_le a [] = omega arith
count_from_le a (t ∷ ts) = ground (arith, count_from_le a ts)

-- Pruning drops only times before the cutoff.
count_from-prune :
    (a cutoff : ℕ) (ts : List ℕ) → cutoff ≤ a → count_from a (prune cutoff ts) ≡ count_from a ts
count_from-prune a cutoff [] h = refl
count_from-prune a cutoff (t ∷ ts) h = ground (arith, count_from-prune a cutoff ts h)

-- Checks are run with no decimal in their errors.
abbrev pub checked : UserId → ℕ → OrderRateLimiter → OrderRateLimiter
checked user now l = (check_and_record {D = Unit {0}} user now l).1

abbrev pub accepts : UserId → ℕ → OrderRateLimiter → Bool
accepts user now l = is_ok (check_and_record {D = Unit {0}} user now l).0

abbrev pub pruned : UserId → ℕ → OrderRateLimiter → List ℕ
pruned user now l = prune (now - l.window_ms) (window_of user l)

pub check_cases :
    (user : UserId) (now : ℕ) (l : OrderRateLimiter)
    → ((accepts user now l ≡ false) × (checked user now l ≡ set_count user (epoch_count user l) l))
      ⊎ ((accepts user now l ≡ false)
          × (checked user now l
              ≡ set_window user (pruned user now l) (set_count user (epoch_count user l) l)))
      ⊎ ((accepts user now l ≡ true)
          × (leb l.max_per_epoch (epoch_count user l) ≡ false)
          × (leb l.max_per_window (length (pruned user now l)) ≡ false)
          × (checked user now l
              ≡ set_count user (suc (epoch_count user l)) (
                  set_window user
                    (pruned user now l ++ now ∷ [])
                    (set_count user (epoch_count user l) l))))
unfolding check_and_record
check_cases user now l = elim (Bool-cases (leb l.max_per_epoch (epoch_count user l))) [
  | inl flood ↦ inl (rw (flood, checked, accepts, check_and_record) (refl, refl))
  | inr space ↦ inr (elim (Bool-cases (leb l.max_per_window (length (pruned user now l)))) [
    | inl full ↦ inl (rw (space, full, checked, accepts, pruned, check_and_record) (refl, refl))
    | inr room ↦
        inr (rw (space, room, checked, accepts, pruned, check_and_record) (refl, refl, refl, refl))
  ])
]

window_of-set_window :
    (user other : UserId) (w : List ℕ) (l : OrderRateLimiter)
    → window_of user (set_window other w l) ≡ (if other =? user then w else window_of user l)
window_of-set_window user other w l = ground (arith, lookup-insert user other w l.windows)

-- `times` are the accepted times of a user up to `now`: no window holds too many, and those that
-- the next window holds are still in the user's queue.
pub record Tracks (user : UserId) (times : List ℕ) (now : ℕ) (l : OrderRateLimiter) : Type 0 where
  pub few : (a : ℕ) → count_between a (a + l.window_ms) times ≤ l.max_per_window
  pub known : (a : ℕ) → now - l.window_ms ≤ a → count_from a times ≤ count_from a (window_of user l)

pub later-Tracks :
    (user : UserId) (times : List ℕ) (now : ℕ) (l : OrderRateLimiter) (t : ℕ)
    → now ≤ t
    → Tracks user times now l
    → Tracks user times t l
later-Tracks user times now l t h k = record { few = k.few; known = λ a g. k.known a (omega arith) }

module _ (user other : UserId) (times : List ℕ) (now : ℕ) (l : OrderRateLimiter) where
  set_count-Tracks : (n : ℕ) → Tracks user times now l → Tracks user times now (set_count other n l)
  set_count-Tracks n k = record { few = k.few; known = k.known }

  prune-Tracks :
      Tracks user times now l → Tracks user times now (set_window other (pruned other now l) l)
  prune-Tracks k = record {
    few = k.few;
    known = λ a g. rw (window_of-set_window user other (pruned other now l) l) (
        ground (
          arith,
          k.known a g,
          count_from-prune a (now - l.window_ms) (window_of other l) g,
          nat_eq.beq_iff other user,
        ));
  }

  -- An accepted order has room in every window that it falls into.
  room_left :
      (a : ℕ)
      → Tracks user times now l
      → length (pruned user now l) < l.max_per_window
      → count_between a (a + l.window_ms) (now ∷ times) ≤ l.max_per_window
  room_left a k room = ground (
    arith,
    k.few a,
    k.known a,
    count_between_le a (a + l.window_ms) times,
    count_from-prune a (now - l.window_ms) (window_of user l),
    count_from_le a (pruned user now l),
  )

  still_known :
      (a : ℕ)
      → now - l.window_ms ≤ a
      → Tracks user times now l
      → count_from a (now ∷ times) ≤ count_from a (pruned user now l ++ now ∷ [])
  still_known a g k = ground (
    arith,
    k.known a,
    count_from-append a (pruned user now l) (now ∷ []),
    count_from-prune a (now - l.window_ms) (window_of user l),
  )

  accept-Tracks :
      Tracks user times now l
      → length (pruned other now l) < l.max_per_window
      → Tracks user
          (if other =? user then now ∷ times else times)
          now
          (set_window other (pruned other now l ++ now ∷ []) l)
  accept-Tracks k room = elim (Bool-cases (other =? user)) [
    | inl own ↦
        let same = (nat_eq.beq_iff other user).0 own in
        rw own (record {
          few = λ a. room_left a k (rw (sym same) room);
          known = λ a g.
              rw (window_of-set_window user other (pruned other now l ++ now ∷ []) l, own, same)
                (still_known a g k);
        })
    | inr foreign ↦ rw foreign (record {
      few = k.few;
      known = λ a g.
          rw (window_of-set_window user other (pruned other now l ++ now ∷ []) l, foreign)
            (k.known a g);
    })
  ]

-- The accepted times of `user` after one more check.
abbrev pub noted : UserId → UserId → ℕ → List ℕ → OrderRateLimiter → List ℕ
noted user other now times l = if accepts other now l && other =? user then now ∷ times else times

pub check-Tracks :
    (user other : UserId) (times : List ℕ) (now : ℕ) (l : OrderRateLimiter)
    → Tracks user times now l
    → Tracks user (noted user other now times l) now (checked other now l)
check-Tracks user other times now l k =
    let counted = set_count other (epoch_count other l) l in
    let k1 = set_count-Tracks user other times now l (epoch_count other l) k in
    elim (check_cases other now l) [
      | inl (refused, state) ↦ rw (noted, refused, state) k1
      | inr (inl (refused, state)) ↦
          rw (noted, refused, state) (prune-Tracks user other times now counted k1)
      | inr (inr (accepted, space, room, state)) ↦
          rw (noted, accepted, state)
            (set_count-Tracks user other (if other =? user then now ∷ times else times) now
              (set_window other (pruned other now l ++ now ∷ []) counted)
              (suc (epoch_count other l))
              (accept-Tracks user other times now counted k1 (ground arith)))
    ]
