-- ===== src/Batch/WorkUnit/Conformance.antt =====
-- Work units against the lifecycle that their status declares.
use roboflow.Batch.WorkUnit.{
  WorkUnit, can_transition_to, cancel_unit, claim, complete, complete_unit, fail_unit,
  is_claimable_status, is_terminal, lifecycle, processing,
}
use roboflow.Batch.WorkUnit.Claims.{Inv, UnitOp, cancels, claims, completes, fails, step}
use roboflow.Bytes.{Bytes}
use roboflow.Lifecycle.{IsLawful}
use roboflow.Prelude.{arith, false, true, ℕ, ◌≡◌, ◌≢◌, ◌⊎◌}

-- The states of a work unit keep the promises of the trait's documentation: a state may stay as it is,
-- a terminal one leads to no other, and a claimable one is not terminal.
unit_lifecycle-IsLawful : IsLawful lifecycle
unfolding is_terminal is_claimable_status can_transition_to
unit_lifecycle-IsLawful = record {
  self_allowed = λ s. ground arith;
  terminal_stays = λ s t h k. ground arith;
  claimable_lives = λ s h. ground arith;
}

-- A claim is always a transition that the lifecycle allows, and so is the end of an attempt that is
-- going on, whether the unit is completed, fails or is cancelled.
pub step-can_transition_to :
    (u : WorkUnit) (o : UnitOp)
    → Inv u
    → ((w : Bytes) × (now : ℕ) × (o ≡ claims w now)) ⊎ (u.status ≡ processing)
    → can_transition_to u.status (step u o).status ≡ true
unfolding step claim complete_unit fail_unit cancel_unit can_transition_to
step-can_transition_to u (claims w now) h c = ground arith
step-can_transition_to u (completes now) h c = ground arith
step-can_transition_to u (fails e now) h c = ground arith
step-can_transition_to u (cancels now) h c = ground arith

-- `complete_unit` has no guard: a unit that is not being processed is completed all the same,
-- though the lifecycle allows that of a unit that is complete already only.
pub complete_unit_unguarded :
    (u : WorkUnit) (now : ℕ)
    → u.status ≢ processing
    → u.status ≢ complete
    → ((complete_unit u now).status ≡ complete)
      × (can_transition_to u.status (complete_unit u now).status ≡ false)
unfolding complete_unit can_transition_to
complete_unit_unguarded u now h k = ground arith
