-- ===== src/Settlement/WithdrawLock/Cycle.antt =====
-- The lock of crates/openmatch-settlement/src/withdraw_lock.rs over the cycle of the phases.
use openmatch.Base.{ℕ, zero, suc, ◌%◌, ◌≡◌, refl, ◌∙◌, ap, ok, err, ltb, ◌==◌, if◌then◌else◌, arith}
use openmatch.Types.{
  EpochPhase, collect, seal, match, finalize, next_phase, withdraw_locked_during_settle,
}
use openmatch.Settlement.WithdrawLock.{
  WithdrawLock, new_lock, set_phase, withdrawals_allowed, check_withdraw,
}

-- A lock that follows the phases, after `n` of them have ended.
abbrev pub advance : ℕ → WithdrawLock → WithdrawLock
advance zero l = l
advance (suc n) l = set_phase (next_phase (advance n l).current_phase) (advance n l)

abbrev phase_number : ℕ → EpochPhase
phase_number k =
    if k == 0 then collect else if k == 1 then seal else if k == 2 then match else finalize

next-phase_number : (n : ℕ) → next_phase (phase_number (n % 4)) ≡ phase_number (suc n % 4)
unfolding next_phase
next-phase_number n = ground arith

advance_phase : (n : ℕ) → (advance n new_lock).current_phase ≡ phase_number (n % 4)
unfolding set_phase
advance_phase zero = refl
advance_phase (suc n) = ap next_phase (advance_phase n) ∙ next-phase_number n

-- A new lock that follows the phases of the epochs lets withdrawals through in the first two phases
-- of every four, collect and seal, and refuses them in the other two.
pub check_withdraw_cycle :
    (D : Type 0) (n : ℕ)
    → check_withdraw {D = D} (advance n new_lock)
      ≡ (if ltb (n % 4) 2 then ok tt else err withdraw_locked_during_settle)
unfolding check_withdraw withdrawals_allowed
check_withdraw_cycle D n = rw (advance_phase n) (ground arith)
