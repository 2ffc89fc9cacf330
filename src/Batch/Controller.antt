-- ===== src/Batch/Controller.antt =====
-- The reconciliation of a batch: crates/roboflow-distributed/src/batch/controller.rs. Texts that the
-- code builds by `format!` are their literal parts.
pub mod Counts
pub mod Phases
use roboflow.Batch.Spec.{BatchSpec, BatchSpecError, batch_id_from_spec, validate}
use roboflow.Batch.Status.{
  BatchPhase, BatchStatus, DiscoveryStatus, FailedWorkUnit, discovering, failed, is_complete,
  new_discovery, pending, phase_eq, running, set_files_total, set_work_units_total, should_fail,
  transition_to, u32,
}
use roboflow.Batch.WorkUnit.{WorkUnit, WorkUnitStatus, dead, primary_source, processing}
use roboflow.Bytes.{Bytes, codes}
use roboflow.Codec.{Codec}
use roboflow.Lifecycle.{attempts}
use roboflow.Prelude.{
  List, Option, [], if◌then◌else◌, length, ltb, none, some, ℕ, ◌&&◌, ◌++◌, ◌+◌, ◌-◌, ◌==◌, ◌||◌,
  ◌∷◌,
}
use roboflow.Tikv.Client.{scan}
use roboflow.Tikv.Key.{batch_prefix}
use roboflow.Tikv.Store.{Store, entries}
use roboflow.Tikv.World.{M, read_now, return, ◌>>=◌, ◌>>◌}

-- What the scan of a batch's units has counted; the counters are u32.
pub record Tally : Type 0 where
  pub completed : ℕ
  pub failed_units : ℕ
  pub active : ℕ
  pub failures : List FailedWorkUnit

abbrev pub empty_tally : Tally
empty_tally = record { completed = 0; failed_units = 0; active = 0; failures = [] }

abbrev unwrap_or : Bytes → Option Bytes → Bytes
unwrap_or d none = d
unwrap_or d (some b) = b

unfoldable pub describe_failure : WorkUnit → FailedWorkUnit
unfolding primary_source
describe_failure u = record {
  id = u.id;
  source_file = unwrap_or (codes "unknown") (primary_source u);
  error = unwrap_or (codes "Unknown error") u.error;
  retries = u.attempts;
  failed_at = u.updated_at;
}

abbrev add_failure : WorkUnit → Tally → Tally
add_failure u t = record t {
  failed_units = u32 (t.failed_units + 1);
  failures = t.failures ++ describe_failure u ∷ [];
}

abbrev count_as : WorkUnitStatus → WorkUnit → Tally → Tally
count_as WorkUnitStatus.complete u t = record t { completed = u32 (t.completed + 1) }
count_as WorkUnitStatus.failed u t = add_failure u t
count_as WorkUnitStatus.dead u t = add_failure u t
count_as WorkUnitStatus.processing u t = record t { active = u32 (t.active + 1) }
count_as WorkUnitStatus.pending u t = t
count_as WorkUnitStatus.cancelled u t = t

unfoldable pub count_unit : WorkUnit → Tally → Tally
count_unit u t = count_as u.status u t

-- The loop over the scanned entries, from the counts so far; a value that does not deserialize is
-- skipped.
abbrev pub count_entry : Option WorkUnit → Tally → Tally
count_entry none t = t
count_entry (some u) t = count_unit u t

unfoldable pub tally_from : Codec WorkUnit → Tally → Store → Tally
tally_from c t [] = t
tally_from c t ((k, v) ∷ es) = tally_from c (count_entry (c.deserialize v) t) es

abbrev nonempty_total : ℕ → BatchStatus → ℕ → BatchStatus
nonempty_total total s now =
    if ltb 0 total then set_files_total (set_work_units_total s total now) total now else s

-- The counts of the scan, written into the status.
unfoldable pub with_counts : Tally → BatchStatus → ℕ → BatchStatus
unfolding set_files_total set_work_units_total
with_counts t s now =
    let scan_total = u32 (t.completed + t.failed_units + t.active) in
    record (nonempty_total scan_total s now) {
      work_units_completed = t.completed;
      work_units_failed = t.failed_units;
      work_units_active = t.active;
      files_completed = t.completed;
      files_failed = t.failed_units;
      files_active = t.active;
      failed_work_units = t.failures;
    }

-- A failed batch whose units were retried by hand goes back to running.
unfoldable pub revive : Tally → BatchStatus → ℕ → BatchStatus
unfolding transition_to
revive t s now =
    if phase_eq s.phase failed && (t.failed_units == 0) && (ltb 0 t.completed || ltb 0 t.active)
    then transition_to (record s { error = none; failed_work_units = []; completed_at = none })
        running now
    else s

abbrev fail_batch : BatchStatus → Bytes → ℕ → BatchStatus
fail_batch s error now = record (transition_to s failed now) { error = some error }

unfoldable pub decide_failure : ℕ → BatchStatus → ℕ → BatchStatus
unfolding transition_to should_fail is_complete
decide_failure backoff_limit s now =
    if should_fail s backoff_limit
    then fail_batch s (codes "Backoff limit exceeded") now
    else if is_complete s && ltb 0 s.work_units_failed
    then fail_batch s (codes "work units failed") now
    else s

unfoldable pub apply_tally : ℕ → Tally → BatchStatus → ℕ → BatchStatus
unfolding with_counts revive decide_failure
apply_tally backoff_limit t s now =
    decide_failure backoff_limit (revive t (with_counts t s now) now) now

unfoldable pub reconcile_running : Codec WorkUnit → BatchSpec → BatchStatus → M BatchStatus
unfolding scan tally_from apply_tally batch_id_from_spec
reconcile_running c spec s = do
  entries ← scan (batch_prefix (batch_id_from_spec spec)) 10000
  now ← read_now
  return (apply_tally spec.backoff_limit (tally_from c empty_tally entries) s now)

abbrev or_new_discovery : BatchSpec → Option DiscoveryStatus → Option DiscoveryStatus
or_new_discovery spec none = some (new_discovery (u32 (length spec.sources)))
or_new_discovery spec (some d) = some d

-- `|updated_at - now|`, in seconds.
abbrev age_secs : ℕ → ℕ → ℕ
age_secs updated_at now = (updated_at - now) + (now - updated_at)

unfoldable pub reconcile_discovering : ℕ → BatchSpec → BatchStatus → ℕ → BatchStatus
unfolding transition_to new_discovery
reconcile_discovering timeout_secs spec s now =
    let s' = record s { discovery_status = or_new_discovery spec s.discovery_status } in
    if ltb timeout_secs (age_secs s'.updated_at now)
    then fail_batch s' (codes "Discovery timeout") now
    else s'

abbrev start_discovery : BatchSpec → BatchStatus → ℕ → Option BatchSpecError → BatchStatus
start_discovery spec s now (some e) = fail_batch s (codes "Validation failed") now
start_discovery spec s now none = record (transition_to s discovering now) {
  discovery_status = some (new_discovery (u32 (length spec.sources)));
}

unfoldable pub reconcile_pending : BatchSpec → BatchStatus → ℕ → BatchStatus
unfolding transition_to validate new_discovery
reconcile_pending spec s now = start_discovery spec s now (validate spec)

-- The `match` of `reconcile_phase` on the phase of the status.
reconcile_in : BatchPhase → Codec WorkUnit → ℕ → BatchSpec → BatchStatus → M BatchStatus
unfolding reconcile_running reconcile_discovering reconcile_pending
reconcile_in pending c timeout_secs spec s = do
  now ← read_now
  return (reconcile_pending spec s now)
reconcile_in discovering c timeout_secs spec s = do
  now ← read_now
  return (reconcile_discovering timeout_secs spec s now)
reconcile_in running c timeout_secs spec s = reconcile_running c spec s
reconcile_in failed c timeout_secs spec s = reconcile_running c spec s
reconcile_in _ c timeout_secs spec s = return s

unfoldable pub reconcile_phase : Codec WorkUnit → ℕ → BatchSpec → BatchStatus → M BatchStatus
unfolding reconcile_in
reconcile_phase c timeout_secs spec s = reconcile_in s.phase c timeout_secs spec s
