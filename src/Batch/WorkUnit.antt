-- ===== src/Batch/WorkUnit.antt =====
-- Work units: crates/roboflow-distributed/src/batch/work_unit.rs. Times are in seconds, and a method
-- that reads the clock is given what it reads.
pub mod Claims
pub mod Conformance
use roboflow.Bytes.{Bytes}
use roboflow.Lifecycle.{StateLifecycle}
use roboflow.Prelude.{
  Bool, List, Option, [], false, if◌then◌else◌, leb, length, ltb, none, not, some, true, ℕ, ◌%◌,
  ◌&&◌, ◌+◌, ◌^◌, ◌∷◌,
}

pub data WorkUnitStatus : Type 0 where
  pending processing complete failed dead cancelled : WorkUnitStatus

pub record WorkFile : Type 0 where
  pub url : Bytes
  pub size : ℕ  -- u64
  pub modified_at : Option ℕ
  pub checksum : Option Bytes

pub record WorkUnit : Type 0 where
  pub id : Bytes
  pub batch_id : Bytes
  pub files : List WorkFile
  pub output_path : Bytes
  pub config_hash : Bytes
  pub status : WorkUnitStatus
  pub owner : Option Bytes
  pub attempts : ℕ  -- u32
  pub max_attempts : ℕ  -- u32
  pub created_at : ℕ
  pub updated_at : ℕ
  pub error : Option Bytes
  pub priority : ℕ  -- i32, by its bit pattern

abbrev pub default_max_attempts : ℕ
default_max_attempts = 3

unfoldable pub is_terminal : WorkUnitStatus → Bool
is_terminal complete = true
is_terminal dead = true
is_terminal cancelled = true
is_terminal _ = false

unfoldable pub is_claimable_status : WorkUnitStatus → Bool
is_claimable_status pending = true
is_claimable_status failed = true
is_claimable_status _ = false

pub WorkUnitStatus-discrete : Discrete WorkUnitStatus
WorkUnitStatus-discrete = hlevel

-- The `match` on the pair of states, with the test for equal states first.
unfoldable pub can_transition_to : WorkUnitStatus → WorkUnitStatus → Bool
can_transition_to pending pending = true
can_transition_to pending processing = true
can_transition_to pending failed = true
can_transition_to pending cancelled = true
can_transition_to processing processing = true
can_transition_to processing complete = true
can_transition_to processing failed = true
can_transition_to processing dead = true
can_transition_to processing cancelled = true
can_transition_to failed failed = true
can_transition_to failed processing = true
can_transition_to failed cancelled = true
can_transition_to complete complete = true
can_transition_to dead dead = true
can_transition_to cancelled cancelled = true
can_transition_to _ _ = false

abbrev pub lifecycle : StateLifecycle WorkUnitStatus
lifecycle = record {
  is_terminal = is_terminal;
  is_claimable = is_claimable_status;
  can_transition_to = can_transition_to;
}

pub data WorkUnitError : Type 0 where
  not_claimable : WorkUnitStatus → Bytes → WorkUnitError
  max_attempts_exceeded : Bytes → ℕ → WorkUnitError

pub data ClaimResult : Type 0 where
  claimed_unit : WorkUnit → ClaimResult
  claim_refused : WorkUnitError → ClaimResult

unfoldable pub with_id : Bytes → Bytes → List WorkFile → Bytes → Bytes → ℕ → WorkUnit
with_id id batch_id files output_path config_hash now = record {
  id = id;
  batch_id = batch_id;
  files = files;
  output_path = output_path;
  config_hash = config_hash;
  status = pending;
  owner = none;
  attempts = 0;
  max_attempts = default_max_attempts;
  created_at = now;
  updated_at = now;
  error = none;
  priority = 0;
}

unfoldable pub is_claimable : WorkUnit → Bool
unfolding is_claimable_status
is_claimable u = is_claimable_status u.status && ltb u.attempts u.max_attempts

-- `attempts += 1` on a u32.
unfoldable pub claim : WorkUnit → Bytes → ℕ → ClaimResult
unfolding is_claimable
claim u worker_id now =
    if not (is_claimable u)
    then claim_refused (not_claimable u.status u.id)
    else if leb u.max_attempts u.attempts
    then claim_refused (max_attempts_exceeded u.id u.max_attempts)
    else claimed_unit (record u {
      status = processing;
      owner = some worker_id;
      attempts = (u.attempts + 1) % 2 ^ 32;
      updated_at = now;
    })

unfoldable pub complete_unit : WorkUnit → ℕ → WorkUnit
complete_unit u now = record u { status = complete; owner = none; updated_at = now }

unfoldable pub fail_unit : WorkUnit → Bytes → ℕ → WorkUnit
fail_unit u error now = record u {
  status = if leb u.max_attempts u.attempts then dead else failed;
  owner = none;
  error = some error;
  updated_at = now;
}

unfoldable pub cancel_unit : WorkUnit → ℕ → WorkUnit
cancel_unit u now = record u { status = cancelled; owner = none; updated_at = now }

unfoldable pub sum_sizes : ℕ → List WorkFile → ℕ
sum_sizes total [] = total
sum_sizes total (f ∷ fs) = sum_sizes ((total + f.size) % 2 ^ 64) fs

unfoldable pub total_size : WorkUnit → ℕ
unfolding sum_sizes
total_size u = sum_sizes 0 u.files

unfoldable pub primary_source : WorkUnit → Option Bytes
primary_source u = elim u.files [ [] ↦ none | f ∷ fs ↦ some f.url ]

pub record WorkUnitSummary : Type 0 where
  pub id : Bytes
  pub batch_id : Bytes
  pub status : WorkUnitStatus
  pub file_count : ℕ
  pub total_size : ℕ
  pub attempts : ℕ

unfoldable pub summary : WorkUnit → WorkUnitSummary
unfolding total_size
summary u = record {
  id = u.id;
  batch_id = u.batch_id;
  status = u.status;
  file_count = length u.files;
  total_size = total_size u;
  attempts = u.attempts;
}
