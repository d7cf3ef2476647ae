-- ===== src/Core/Security/RateLimiter/Cap.antt =====
-- The cap per epoch of the limiter of crates/openmatch-core/src/security.rs.
use openmatch.Base.{
  ℕ, suc, ◌+◌, ◌≤◌, ◌<◌, ◌≡◌, refl, List, [], ◌∷◌, ◌++◌, true, arith, length, inl, inr, nat_eq,
  ◌=?◌, ◌&&◌, if◌then◌else◌,
}
use openmatch.Map.{lookup-insert}
use openmatch.Types.{UserId}
use openmatch.Core.Security.RateLimiter.{
  OrderRateLimiter, epoch_count, set_count, set_window, Submission, submit_all, accepted_times,
}
use openmatch.Core.Security.RateLimiter.Step.{checked, accepts, pruned, check_cases}
use openmatch.Core.Security.RateLimiter.Window.{checked-limits}

epoch_count-set_count :
    (user other : UserId) (n : ℕ) (l : OrderRateLimiter)
    → epoch_count user (set_count other n l) ≡ (if other =? user then n else epoch_count user l)
unfolding epoch_count
epoch_count-set_count user other n l = ground (arith, lookup-insert user other n l.epoch_counts)

epoch_count-set_count_self :
    (user other : UserId) (l : OrderRateLimiter)
    → epoch_count user (set_count other (epoch_count other l) l) ≡ epoch_count user l
epoch_count-set_count_self user other l =
    ground
      (arith, epoch_count-set_count user other (epoch_count other l) l, nat_eq.beq_iff other user)

epoch_count-set_window :
    (user other : UserId) (w : List ℕ) (l : OrderRateLimiter)
    → epoch_count user (set_window other w l) ≡ epoch_count user l
unfolding epoch_count
epoch_count-set_window user other w l = refl

-- A check counts an accepted order for its user, who is below the cap.
check_counts :
    (user other : UserId) (now : ℕ) (l : OrderRateLimiter)
    → (epoch_count user (checked other now l) ≡ (
        if accepts other now l && other =? user
        then suc (epoch_count user l)
        else epoch_count user l))
      × (accepts other now l ≡ true → epoch_count other l < l.max_per_epoch)
check_counts user other now l =
    let self = epoch_count-set_count_self user other l in
    let counted = set_count other (epoch_count other l) l in
    elim (check_cases other now l) [
      | inl (refused, state) ↦ rw (refused, state) (self, λ h. cc)
      | inr (inl (refused, state)) ↦
          rw (refused, state)
            (rw (epoch_count-set_window user other (pruned other now l) counted) self, λ h. cc)
      | inr (inr (accepted, space, room, state)) ↦
          let queued = pruned other now l ++ now ∷ [] in
          rw (accepted, state)
            (
              ground (
                arith,
                self,
                epoch_count-set_count user other (suc (epoch_count other l))
                    (set_window other queued counted),
                epoch_count-set_window user other queued counted,
                nat_eq.beq_iff other user,
              ),
              λ h. ground arith,
            )
    ]

-- The count of a user grows by one for each order of the user that is accepted, and never exceeds
-- the cap of the epoch if it did not before.
pub epoch_limit :
    (user : UserId) (ss : List Submission) (l : OrderRateLimiter)
    → epoch_count user l ≤ l.max_per_epoch
    → (epoch_count user (submit_all ss l) ≡ epoch_count user l + length (accepted_times user ss l))
      × (epoch_count user (submit_all ss l) ≤ l.max_per_epoch)
unfolding submit_all accepted_times
epoch_limit user [] l h = ground arith
epoch_limit user ((other, now) ∷ ss) l h = ground (
  arith,
  epoch_limit user ss (checked other now l),
  check_counts user other now l,
  checked-limits other now l,
  nat_eq.beq_iff other user,
)
