-- ===== src/Core/Security/RateLimiter.antt =====
-- `OrderRateLimiter` of crates/openmatch-core/src/security.rs: a cap per epoch and a sliding window
-- per user. `or_insert(0)` and `or_default()` create the user's entries even if the order is then
-- refused, and expired times are dropped from the window in either case.
pub mod Step
pub mod Window
pub mod Cap
use openmatch.Base.{
  ℕ, suc, ◌-◌, Bool, true, false, List, [], ◌∷◌, ◌++◌, Result, ok, err, length, ltb, leb, nat_eq,
  ◌=?◌, ◌&&◌, if◌then◌else◌,
}
use openmatch.Map.{Map, lookup_or, insert}
use openmatch.Types.{UserId, OpenmatchError, Reason, order_flood_detected, rate_limit_exceeded}

pub record OrderRateLimiter : Type 0 where
  -- front = oldest
  pub windows : Map UserId (List ℕ)
  pub window_ms : ℕ
  pub max_per_window : ℕ
  pub max_per_epoch : ℕ
  pub epoch_counts : Map UserId ℕ

abbrev pub new_limiter : ℕ → ℕ → ℕ → OrderRateLimiter
new_limiter window_ms max_per_window max_per_epoch = record {
  windows = [];
  window_ms = window_ms;
  max_per_window = max_per_window;
  max_per_epoch = max_per_epoch;
  epoch_counts = [];
}

unfoldable pub epoch_count : UserId → OrderRateLimiter → ℕ
epoch_count user l = lookup_or 0 user l.epoch_counts

-- the times in the user's window
abbrev pub window_of : UserId → OrderRateLimiter → List ℕ
window_of user l = lookup_or [] user l.windows

-- `while let Some(&front) = window.front() { if front < cutoff { pop_front } else { break } }`
abbrev pub prune : ℕ → List ℕ → List ℕ
prune cutoff [] = []
prune cutoff (front ∷ rest) =
    let pruned = prune cutoff rest in if ltb front cutoff then pruned else front ∷ rest

abbrev pub set_count : UserId → ℕ → OrderRateLimiter → OrderRateLimiter
set_count user n l = record l { epoch_counts = insert user n l.epoch_counts }

abbrev pub set_window : UserId → List ℕ → OrderRateLimiter → OrderRateLimiter
set_window user w l = record l { windows = insert user w l.windows }

unfoldable pub check_and_record :
    {D : Type 0}
    → UserId
    → ℕ
    → OrderRateLimiter
    → Result (OpenmatchError D) (Unit {0}) × OrderRateLimiter
unfolding epoch_count
check_and_record user now_ms l =
    let count = epoch_count user l in
    let l1 = set_count user count l in
    if leb l.max_per_epoch count
    then (err (order_flood_detected count 0), l1)
    else let window = prune (now_ms - l.window_ms) (window_of user l) in
      if leb l.max_per_window (length window)
      then (
        err (rate_limit_exceeded (Reason.window_full (length window) l.window_ms l.max_per_window)),
        set_window user window l1,
      )
      else (ok tt, set_count user (suc count) (set_window user (window ++ now_ms ∷ []) l1))

unfoldable reset_epoch : OrderRateLimiter → OrderRateLimiter
reset_epoch l = record l { epoch_counts = []; windows = [] }

-- An order: who submits it, and when.
abbrev pub Submission : Type 0
Submission = UserId × ℕ

unfoldable pub submit_all : List Submission → OrderRateLimiter → OrderRateLimiter
submit_all [] l = l
submit_all ((user, now) ∷ ss) l = submit_all ss (check_and_record {D = Unit {0}} user now l).1

abbrev pub is_ok : {E A : Type 0} → Result E A → Bool
is_ok (ok a) = true
is_ok (err e) = false

-- The times at which orders of a user are accepted.
unfoldable pub accepted_times : UserId → List Submission → OrderRateLimiter → List ℕ
accepted_times user [] l = []
accepted_times user ((other, now) ∷ ss) l =
    let r = check_and_record {D = Unit {0}} other now l in
    let later = accepted_times user ss r.1 in
    if is_ok r.0 && other =? user then now ∷ later else later
