-- ===== src/Batch/WorkUnit/Claims.antt =====
-- How often and when a work unit is claimed.
use roboflow.Batch.WorkUnit.{
  ClaimResult, WorkFile, WorkUnit, cancel_unit, claim, claim_refused, claimed_unit, complete_unit,
  dead, fail_unit, failed, is_claimable_status, max_attempts_exceeded, not_claimable, processing,
  with_id,
}
use roboflow.Bytes.{Bytes}
use roboflow.Prelude.{
  List, [], arith, false, none, refl, some, true, ℕ, ◌+◌, ◌<◌, ◌^◌, ◌∙◌, ◌∷◌, ◌≡◌, ◌≢◌, ◌≤◌, ◌⊎◌,
}

-- What a result of `claim` says of the unit: why it was granted and what it changed, or why not.
abbrev pub ClaimSpec : WorkUnit → Bytes → ℕ → ClaimResult → Type 0
ClaimSpec u worker now (claimed_unit v) =
    (is_claimable_status u.status ≡ true)
    × (u.attempts < u.max_attempts)
    × (v ≡ record u {
      status = processing;
      owner = some worker;
      attempts = u.attempts + 1;
      updated_at = now;
    })
ClaimSpec u worker now (claim_refused (not_claimable s i)) =
    (s ≡ u.status)
    × (i ≡ u.id)
    × ((is_claimable_status u.status ≡ false) ⊎ (u.max_attempts ≤ u.attempts))
ClaimSpec u worker now (claim_refused (max_attempts_exceeded i n)) = ⊥

-- A claim is granted exactly to a pending or failed unit with an attempt left, and then hands it to
-- the worker with one attempt more and nothing else changed but the time; otherwise the unit is
-- reported not claimable. `max_attempts_exceeded` is never reported. (`max_attempts` is a u32.)
pub claim-ClaimSpec :
    (u : WorkUnit) (worker : Bytes) (now : ℕ)
    → u.max_attempts < 2 ^ 32
    → ClaimSpec u worker now (claim u worker now)
unfolding claim
claim-ClaimSpec u worker now b = ground arith

-- What the controller and the reaper do with a unit, at a time.
pub data UnitOp : Type 0 where
  claims : Bytes → ℕ → UnitOp
  completes : ℕ → UnitOp
  fails : Bytes → ℕ → UnitOp
  cancels : ℕ → UnitOp

abbrev unit_after : WorkUnit → ClaimResult → WorkUnit
unit_after u (claimed_unit v) = v
unit_after u (claim_refused e) = u

unfoldable pub step : WorkUnit → UnitOp → WorkUnit
step u (claims worker now) = unit_after u (claim u worker now)
step u (completes now) = complete_unit u now
step u (fails e now) = fail_unit u e now
step u (cancels now) = cancel_unit u now

unfoldable pub run : WorkUnit → List UnitOp → WorkUnit
run u [] = u
run u (o ∷ os) = run (step u o) os

pub record Inv (u : WorkUnit) : Type 0 where
  pub capped : u.attempts ≤ u.max_attempts
  pub bounded : u.max_attempts < 2 ^ 32
  pub owned : u.status ≡ processing → u.owner ≢ none
  pub released : u.status ≢ processing → u.owner ≡ none
  pub started : u.status ≡ processing → 0 < u.attempts
  pub retryable : u.status ≡ failed → u.attempts < u.max_attempts
  pub exhausted : u.status ≡ dead → u.attempts ≡ u.max_attempts

step-Inv : (u : WorkUnit) (o : UnitOp) → Inv u → Inv (step u o)
unfolding step claim complete_unit fail_unit cancel_unit
step-Inv u (claims worker now) h = ground arith
step-Inv u (completes now) h = ground arith
step-Inv u (fails e now) h = ground arith
step-Inv u (cancels now) h = ground arith

run_from-Inv : (u : WorkUnit) (os : List UnitOp) → Inv u → Inv (run u os)
unfolding run
run_from-Inv u [] h = h
run_from-Inv u (o ∷ os) h = run_from-Inv (step u o) os (step-Inv u o h)

with_id-Inv :
    (id batch : Bytes) (files : List WorkFile) (out config : Bytes) (now : ℕ)
    → Inv (with_id id batch files out config now)
unfolding with_id
with_id-Inv id batch files out config now = ground arith

-- After any operations in any order, a unit made by `with_id` has made at most `max_attempts`
-- attempts; it has an owner exactly while it is processing, and then at least one attempt; while
-- failed it has an attempt left; and when dead it has used them all.
pub unit_run-Inv :
    (id batch : Bytes) (files : List WorkFile) (out config : Bytes) (now : ℕ) (os : List UnitOp)
    → Inv (run (with_id id batch files out config now) os)
unit_run-Inv id batch files out config now os =
    run_from-Inv (with_id id batch files out config now) os
      (with_id-Inv id batch files out config now)

abbrev was_granted : ClaimResult → ℕ
was_granted (claimed_unit v) = 1
was_granted (claim_refused e) = 0

abbrev grants : WorkUnit → UnitOp → ℕ
grants u (claims worker now) = was_granted (claim u worker now)
grants u _ = 0

-- How many claims of a history are granted.
unfoldable pub granted : WorkUnit → List UnitOp → ℕ
granted u [] = 0
granted u (o ∷ os) = grants u o + granted (step u o) os

step-attempts : (u : WorkUnit) (o : UnitOp) → Inv u → (step u o).attempts ≡ u.attempts + grants u o
unfolding step claim complete_unit fail_unit cancel_unit
step-attempts u (claims worker now) h = ground arith
step-attempts u (completes now) h = omega arith
step-attempts u (fails e now) h = omega arith
step-attempts u (cancels now) h = omega arith

run-attempts :
    (u : WorkUnit) (os : List UnitOp) → Inv u → (run u os).attempts ≡ u.attempts + granted u os
unfolding run granted
run-attempts u [] h = omega arith
run-attempts u (o ∷ os) h =
    omega (arith, step-attempts u o h, run-attempts (step u o) os (step-Inv u o h))

step-max_attempts : (u : WorkUnit) (o : UnitOp) → (step u o).max_attempts ≡ u.max_attempts
unfolding step claim complete_unit fail_unit cancel_unit
step-max_attempts u (claims worker now) = ground arith
step-max_attempts u (completes now) = refl
step-max_attempts u (fails e now) = refl
step-max_attempts u (cancels now) = refl

run-max_attempts : (u : WorkUnit) (os : List UnitOp) → (run u os).max_attempts ≡ u.max_attempts
unfolding run
run-max_attempts u [] = refl
run-max_attempts u (o ∷ os) = run-max_attempts (step u o) os ∙ step-max_attempts u o

-- However workers, failures, completions and cancellations follow one another, no unit made by
-- `with_id` is handed out more than three times, and `attempts` counts how often it was.
pub granted_bounded :
    (id batch : Bytes) (files : List WorkFile) (out config : Bytes) (now : ℕ) (os : List UnitOp)
    → let u = with_id id batch files out config now in
      (granted u os ≤ 3) × ((run u os).attempts ≡ granted u os)
granted_bounded id batch files out config now os =
    let u = with_id id batch files out config now in
    let start : (u.attempts ≡ 0) × (u.max_attempts ≡ 3) = unfold with_id in (refl, refl) in
    let e = run-attempts u os (with_id-Inv id batch files out config now) in
    let b = unit_run-Inv id batch files out config now os in
    let m = run-max_attempts u os in (omega arith, omega arith)
