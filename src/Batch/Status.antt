-- ===== src/Batch/Status.antt =====
-- The status of a batch job: crates/roboflow-distributed/src/batch/status.rs. The estimates in
-- floating point (progress, remaining time) are left out. A method that reads the clock is given
-- what it reads, in seconds.
pub mod Counts
use roboflow.Bytes.{Bytes}
use roboflow.Lifecycle.{StateLifecycle}
use roboflow.Prelude.{
  Bool, List, Option, [], false, if◌then◌else◌, ltb, none, some, true, ℕ, ◌%◌, ◌&&◌, ◌++◌, ◌+◌, ◌-◌,
  ◌==◌, ◌^◌, ◌∷◌,
}

pub data BatchPhase : Type 0 where
  pending discovering running merging complete failed cancelled suspending suspended : BatchPhase

unfoldable pub is_terminal : BatchPhase → Bool
is_terminal complete = true
is_terminal failed = true
is_terminal cancelled = true
is_terminal _ = false

unfoldable pub is_active : BatchPhase → Bool
is_active discovering = true
is_active running = true
is_active merging = true
is_active _ = false

-- Batches are not claimed.
unfoldable pub is_claimable : BatchPhase → Bool
is_claimable p = false

pub BatchPhase-discrete : Discrete BatchPhase
BatchPhase-discrete = hlevel

abbrev allowed : BatchPhase → BatchPhase → Bool
allowed pending discovering = true
allowed pending failed = true
allowed pending cancelled = true
allowed discovering running = true
allowed discovering failed = true
allowed discovering cancelled = true
allowed running merging = true
allowed running failed = true
allowed running suspending = true
allowed running cancelled = true
allowed merging complete = true
allowed merging failed = true
allowed suspending suspended = true
allowed suspending failed = true
allowed suspending cancelled = true
allowed suspended running = true
allowed suspended failed = true
allowed suspended cancelled = true
allowed _ _ = false

abbrev pub phase_eq : BatchPhase → BatchPhase → Bool
phase_eq pending pending = true
phase_eq discovering discovering = true
phase_eq running running = true
phase_eq merging merging = true
phase_eq complete complete = true
phase_eq failed failed = true
phase_eq cancelled cancelled = true
phase_eq suspending suspending = true
phase_eq suspended suspended = true
phase_eq _ _ = false

unfoldable pub can_transition_to : BatchPhase → BatchPhase → Bool
can_transition_to p q = if phase_eq p q then true else allowed p q

abbrev pub lifecycle : StateLifecycle BatchPhase
lifecycle = record {
  is_terminal = is_terminal;
  is_claimable = is_claimable;
  can_transition_to = can_transition_to;
}

pub record DiscoveryStatus : Type 0 where
  pub sources_scanned : ℕ  -- u32
  pub total_sources : ℕ  -- u32
  pub files_found : ℕ  -- u32
  pub last_error : Option Bytes

unfoldable pub new_discovery : ℕ → DiscoveryStatus
new_discovery total_sources = record {
  sources_scanned = 0;
  total_sources = total_sources;
  files_found = 0;
  last_error = none;
}

pub record FailedWorkUnit : Type 0 where
  pub id : Bytes
  pub source_file : Bytes
  pub error : Bytes
  pub retries : ℕ  -- u32
  pub failed_at : ℕ

-- The counters are u32.
pub record BatchStatus : Type 0 where
  pub phase : BatchPhase
  pub files_total : ℕ
  pub files_completed : ℕ
  pub files_failed : ℕ
  pub files_active : ℕ
  pub work_units_total : ℕ
  pub work_units_completed : ℕ
  pub work_units_failed : ℕ
  pub work_units_active : ℕ
  pub started_at : Option ℕ
  pub completed_at : Option ℕ
  pub error : Option Bytes
  pub updated_at : ℕ
  pub discovery_status : Option DiscoveryStatus
  pub failed_work_units : List FailedWorkUnit

unfoldable pub new : ℕ → BatchStatus
new now = record {
  phase = pending;
  files_total = 0;
  files_completed = 0;
  files_failed = 0;
  files_active = 0;
  work_units_total = 0;
  work_units_completed = 0;
  work_units_failed = 0;
  work_units_active = 0;
  started_at = none;
  completed_at = none;
  error = none;
  updated_at = now;
  discovery_status = none;
  failed_work_units = [];
}

abbrev pub u32 : ℕ → ℕ
u32 n = n % 2 ^ 32

unfoldable pub should_fail : BatchStatus → ℕ → Bool
should_fail s backoff_limit = ltb backoff_limit s.work_units_failed

unfoldable pub is_complete : BatchStatus → Bool
is_complete s =
    ltb 0 s.work_units_total
    && (u32 (s.work_units_completed + s.work_units_failed) == s.work_units_total)

-- A time that is set keeps its value.
abbrev or_now : ℕ → Option ℕ → Option ℕ
or_now now none = some now
or_now now (some t) = some t

abbrev stamp : BatchPhase → ℕ → BatchStatus → BatchStatus
stamp discovering now s = record s { started_at = or_now now s.started_at }
stamp running now s = record s { started_at = or_now now s.started_at }
stamp complete now s = record s { completed_at = or_now now s.completed_at }
stamp failed now s = record s { completed_at = or_now now s.completed_at }
stamp cancelled now s = record s { completed_at = or_now now s.completed_at }
stamp _ now s = s

-- Sets the phase, whatever the lifecycle allows.
unfoldable pub transition_to : BatchStatus → BatchPhase → ℕ → BatchStatus
transition_to s phase now = stamp phase now (record s { phase = phase; updated_at = now })

unfoldable pub record_completion : BatchStatus → ℕ → ℕ → BatchStatus
record_completion s count now = record s {
  work_units_completed = u32 (s.work_units_completed + count);
  files_completed = u32 (s.files_completed + count);
  files_active = s.files_active - count;
  work_units_active = s.work_units_active - count;
  updated_at = now;
}

unfoldable pub record_failure : BatchStatus → FailedWorkUnit → ℕ → BatchStatus
record_failure s unit now = record s {
  work_units_failed = u32 (s.work_units_failed + 1);
  files_failed = u32 (s.files_failed + 1);
  files_active = s.files_active - 1;
  work_units_active = s.work_units_active - 1;
  failed_work_units = s.failed_work_units ++ unit ∷ [];
  updated_at = now;
}

unfoldable pub increment_active : BatchStatus → ℕ → ℕ → BatchStatus
increment_active s count now = record s {
  work_units_active = u32 (s.work_units_active + count);
  files_active = u32 (s.files_active + count);
  updated_at = now;
}

unfoldable pub set_files_total : BatchStatus → ℕ → ℕ → BatchStatus
set_files_total s total now = record s { files_total = total; updated_at = now }

unfoldable pub set_work_units_total : BatchStatus → ℕ → ℕ → BatchStatus
set_work_units_total s total now = record s { work_units_total = total; updated_at = now }
