-- ===== src/Batch/Examples.antt =====
-- The data of a batch at concrete inputs.
use roboflow.Batch.Controller.{Tally, apply_tally, empty_tally, tally_from}
use roboflow.Batch.Controller.Counts.{pending_units_uncounted}
use roboflow.Batch.Controller.Phases.{apply_tally-phase, phase_by_counts}
use roboflow.Batch.Spec.{BatchSpec}
use roboflow.Batch.Status.{BatchPhase, BatchStatus, increment_active, is_complete, new}
use roboflow.Batch.Status.Counts.{
  Accounts, Reports, Reports-is_complete, here, next, starts, units_counted,
}
use roboflow.Batch.WorkUnit.{WorkUnit, claim, complete, with_id}
use roboflow.Batch.WorkUnit.Claims.{
  ClaimSpec, UnitOp, cancels, claim-ClaimSpec, claims, fails, granted, granted_bounded, run, step,
  unit_run-Inv,
}
use roboflow.Bytes.{codes}
use roboflow.Prelude.{List, [], arith, inl, none, refl, true, ◌++◌, ◌+◌, ◌∷◌, ◌≡◌, ◌≤◌}
use roboflow.Samples.{batch, in_progress, unit_id, units, waiting, worker}
use roboflow.Tikv.Store.{Store}
use roboflow.Batch.WorkUnit.Claims as Claims

abbrev history : List UnitOp
history = claims worker 10 ∷ fails (codes "disk") 11 ∷ claims worker 12 ∷ []

granted_bounded_example :
    let u = with_id unit_id batch [] [] [] 3 in
    (granted u history ≤ 3) × ((run u history).attempts ≡ granted u history)
granted_bounded_example = granted_bounded unit_id batch [] [] [] 3 history

unit_run-Inv_example : Claims.Inv (run (with_id unit_id batch [] [] [] 3) history)
unit_run-Inv_example = unit_run-Inv unit_id batch [] [] [] 3 history

claim-ClaimSpec_example : ClaimSpec waiting worker 1000 (claim waiting worker 1000)
claim-ClaimSpec_example = claim-ClaimSpec waiting worker 1000 (omega arith)

in_progress-Inv : Claims.Inv in_progress
in_progress-Inv = ground arith

abbrev two_units : BatchStatus
two_units = record (new 5) { work_units_total = 2 }

two_units-Accounts : Accounts two_units
unfolding new
two_units-Accounts = ground arith

abbrev one_started : BatchStatus
one_started = increment_active two_units 1 6

one_started-Reports : Reports two_units 1 one_started
unfolding new
one_started-Reports = next here (starts two_units 1 6)

Reports-is_complete_example :
    (units_counted one_started ≡ units_counted two_units + 1)
    × Accounts one_started
    × (is_complete one_started ≡ true
        → one_started.work_units_active + 2 ≡ units_counted two_units + 1)
unfolding new
Reports-is_complete_example =
    Reports-is_complete two_units-Accounts one_started-Reports (omega arith)

abbrev done : WorkUnit
done = record waiting { status = complete }

-- A unit that is complete and one that waits.
abbrev scanned : Store
scanned = ([], 1 ∷ []) ∷ []

pending_units_uncounted_example :
    let s' =
      apply_tally 3
        (tally_from (units done waiting) empty_tally (scanned ++ ([], 2 ∷ []) ∷ []))
        two_units
        7 in
    (is_complete s' ≡ true) × (s'.phase ≡ two_units.phase)
unfolding new
pending_units_uncounted_example =
    pending_units_uncounted (units done waiting) scanned (([], 2 ∷ []) ∷ []) two_units 3 7
      (omega arith) ((waiting, refl, refl), tt) (omega arith) refl refl (λ e. ground arith)

abbrev one_failed : Tally
one_failed = record empty_tally { completed = 1; failed_units = 1 }

abbrev running_batch : BatchStatus
running_batch = record two_units { phase = BatchPhase.running }

apply_tally-phase_example :
    (apply_tally 3 one_failed running_batch 7).phase
    ≡ phase_by_counts 3 one_failed BatchPhase.running
apply_tally-phase_example = apply_tally-phase 3 one_failed running_batch 7 (omega arith) (inl refl)

abbrev spec : BatchSpec
spec = record {
  name = codes "a";
  display_name = none;
  namespace = codes "jobs";
  created_at = 0;
  sources = record { url = codes "s3://in/a.bag"; filter = none; max_size = none } ∷ [];
  output = codes "file:///out";
  backoff_limit = 3;
}
