-- ===== src/Batch/Controller/Phases.antt =====
-- How the controller moves a batch from phase to phase.
use roboflow.Batch.Controller.{Tally, apply_tally, reconcile_discovering, reconcile_pending}
use roboflow.Batch.Spec.{BatchSpec}
use roboflow.Batch.Status.{
  BatchPhase, BatchStatus, can_transition_to, discovering, failed, pending, running, u32,
}
use roboflow.Prelude.{
  arith, if◌then◌else◌, inl, inr, ltb, true, ℕ, ◌&&◌, ◌+◌, ◌<◌, ◌==◌, ◌^◌, ◌||◌, ◌≡◌, ◌⊎◌,
}
use roboflow.Slots.{total}

-- The phase of a running or failed batch after its units were counted, by the counts alone.
unfoldable running_outcome : ℕ → Tally → BatchPhase → ℕ → BatchPhase
running_outcome backoff_limit t p total =
    if ltb backoff_limit t.failed_units
    then failed
    else if ltb 0 t.failed_units && ltb 0 total && (u32 (t.completed + t.failed_units) == total)
    then failed
    else if (t.failed_units == 0) && (ltb 0 t.completed || ltb 0 t.active)
    then running
    else p

-- The total that the status shows afterwards.
abbrev total_after : Tally → BatchStatus → ℕ
total_after t s =
    let n = u32 (t.completed + t.failed_units + t.active) in
    if ltb 0 n then n else s.work_units_total

apply_tally-outcome :
    (backoff_limit : ℕ) (t : Tally) (s : BatchStatus) (now : ℕ)
    → (s.phase ≡ running) ⊎ (s.phase ≡ failed)
    → (apply_tally backoff_limit t s now).phase
      ≡ running_outcome backoff_limit t s.phase (total_after t s)
unfolding apply_tally running_outcome
apply_tally-outcome backoff_limit t s now (inl p) = ground arith
apply_tally-outcome backoff_limit t s now (inr p) = ground arith

-- The phase by what the scan saw: units that failed or are dead, that are complete, and that are
-- being processed. Units that wait or were cancelled are not among them.
abbrev pub phase_by_counts : ℕ → Tally → BatchPhase → BatchPhase
phase_by_counts backoff_limit t p =
    if ltb backoff_limit t.failed_units
    then failed
    else if ltb 0 t.failed_units
    then (if t.active == 0 then failed else p)
    else if ltb 0 t.completed || ltb 0 t.active
    then running
    else p

-- Counting fewer than 2^32 units of a running or failed batch makes it failed when more have failed
-- than the limit, or when some failed and none is being processed, although others may still wait
-- to be claimed; it makes a failed batch running again when none has failed and one is complete or
-- being processed; otherwise the phase stays.
pub apply_tally-phase :
    (backoff_limit : ℕ) (t : Tally) (s : BatchStatus) (now : ℕ)
    → t.completed + t.failed_units + t.active < 2 ^ 32
    → (s.phase ≡ running) ⊎ (s.phase ≡ failed)
    → (apply_tally backoff_limit t s now).phase ≡ phase_by_counts backoff_limit t s.phase
unfolding running_outcome
apply_tally-phase backoff_limit t s now few h =
    ground (arith, apply_tally-outcome backoff_limit t s now h)

-- Where a reconciliation of a phase may end.
abbrev pub Follows : BatchPhase → BatchPhase → Type 0
Follows p q = (can_transition_to p q ≡ true) ⊎ ((p ≡ failed) × (q ≡ running))

apply_tally-Follows :
    (backoff_limit : ℕ) (t : Tally) (s : BatchStatus) (now : ℕ)
    → (s.phase ≡ running) ⊎ (s.phase ≡ failed)
    → Follows s.phase (apply_tally backoff_limit t s now).phase
unfolding running_outcome can_transition_to
apply_tally-Follows backoff_limit t s now h =
    ground (arith, apply_tally-outcome backoff_limit t s now h)

reconcile_pending-Follows :
    (spec : BatchSpec) (s : BatchStatus) (now : ℕ)
    → s.phase ≡ pending
    → Follows s.phase (reconcile_pending spec s now).phase
unfolding reconcile_pending can_transition_to
reconcile_pending-Follows spec s now p = ground arith

reconcile_discovering-Follows :
    (timeout_secs : ℕ) (spec : BatchSpec) (s : BatchStatus) (now : ℕ)
    → s.phase ≡ discovering
    → Follows s.phase (reconcile_discovering timeout_secs spec s now).phase
unfolding reconcile_discovering can_transition_to
reconcile_discovering-Follows timeout_secs spec s now p = ground arith
