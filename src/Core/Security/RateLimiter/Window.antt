-- ===== src/Core/Security/RateLimiter/Window.antt =====
-- How many orders the limiter of crates/openmatch-core/src/security.rs lets through.
use openmatch.Base.{ℕ, ◌+◌, ◌≤◌, ◌≡◌, refl, List, [], ◌∷◌, arith, inl, inr, nat_eq}
use openmatch.Types.{UserId}
use openmatch.Core.Security.RateLimiter.{OrderRateLimiter, window_of, Submission, accepted_times}
use openmatch.Core.Security.RateLimiter.Step.{
  count_between, Tracks, noted, checked, check_cases, check-Tracks, later-Tracks,
}

-- Submissions in the order of their times, none before `now`.
abbrev InOrder : ℕ → List Submission → Type 0
InOrder now [] = Unit
InOrder now ((user, t) ∷ ss) = (now ≤ t) × InOrder t ss

pub checked-limits :
    (other : UserId) (now : ℕ) (l : OrderRateLimiter)
    → let l2 = checked other now l in
      (l2.window_ms ≡ l.window_ms)
      × (l2.max_per_window ≡ l.max_per_window)
      × (l2.max_per_epoch ≡ l.max_per_epoch)
checked-limits other now l = elim (check_cases other now l) [
  | inl (refused, state) ↦ rw state (refl, refl, refl)
  | inr (inl (refused, state)) ↦ rw state (refl, refl, refl)
  | inr (inr (accepted, space, room, state)) ↦ rw state (refl, refl, refl)
]

window_limit_from :
    (user : UserId) (a : ℕ) (ss : List Submission) (times : List ℕ) (now : ℕ) (l : OrderRateLimiter)
    → Tracks user times now l
    → InOrder now ss
    → count_between a (a + l.window_ms) times
        + count_between a (a + l.window_ms) (accepted_times user ss l)
      ≤ l.max_per_window
unfolding accepted_times
window_limit_from user a [] times now l k o = ground (arith, k.few a)
window_limit_from user a ((other, t) ∷ ss) times now l k (h, o) = ground (
  arith,
  window_limit_from user a ss (noted user other t times l) t (checked other t l)
      (check-Tracks user other times t l (later-Tracks user times now l t h k)) o,
  checked-limits other t l,
)

-- Orders submitted in the order of their times to a limiter that has no times of a user: in no
-- window of `window_ms` milliseconds, wherever it begins, are more than `max_per_window` orders
-- of the user accepted.
pub window_limit :
    (user : UserId) (ss : List Submission) (l : OrderRateLimiter) (a : ℕ)
    → window_of user l ≡ []
    → InOrder 0 ss
    → count_between a (a + l.window_ms) (accepted_times user ss l) ≤ l.max_per_window
window_limit user ss l a empty o = ground (
  arith,
  window_limit_from user a ss [] 0 l (record { few = λ b. omega arith; known = λ b g. omega arith })
      o,
)
