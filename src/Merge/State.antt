-- ===== src/Merge/State.antt =====
-- The state of a merge: crates/roboflow-distributed/src/merge/schema.rs. A method that reads the
-- clock is given what it reads, in seconds.
use roboflow.Bytes.{Bytes, insert_entry}
use roboflow.Prelude.{
  Bool, List, Option, [], false, if◌then◌else◌, leb, length, none, some, true, ℕ, ◌%◌, ◌&&◌, ◌+◌,
  ◌^◌,
}

pub data MergeStatus : Type 0 where
  pending in_progress complete failed : MergeStatus

pub record MergeState : Type 0 where
  pub job_id : Bytes
  pub status : MergeStatus
  pub expected_workers : ℕ
  pub completed_workers : ℕ
  pub staging_paths : List (Bytes × Bytes)
  pub total_frames : ℕ
  pub merged_frames : ℕ
  pub output_path : Bytes
  pub created_at : ℕ
  pub updated_at : ℕ
  pub error : Option Bytes
  pub merge_worker : Option Bytes

unfoldable pub new_state : ℕ → Bytes → ℕ → Bytes → MergeState
new_state now job_id expected_workers output_path = record {
  job_id = job_id;
  status = pending;
  expected_workers = expected_workers;
  completed_workers = 0;
  staging_paths = [];
  total_frames = 0;
  merged_frames = 0;
  output_path = output_path;
  created_at = now;
  updated_at = now;
  error = none;
  merge_worker = none;
}

abbrev pub is_pending : MergeStatus → Bool
is_pending pending = true
is_pending _ = false

unfoldable pub is_ready : MergeState → Bool
is_ready s = leb s.expected_workers s.completed_workers && is_pending s.status

unfoldable pub merge_is_complete : MergeStatus → Bool
merge_is_complete complete = true
merge_is_complete _ = false

unfoldable pub is_failed : MergeStatus → Bool
is_failed failed = true
is_failed _ = false

unfoldable pub add_worker : ℕ → Bytes → Bytes → ℕ → MergeState → MergeState
unfolding insert_entry
add_worker now worker_id staging_path frame_count s =
    let paths = insert_entry worker_id staging_path s.staging_paths in
    record s {
      staging_paths = paths;
      completed_workers = length paths;
      total_frames = (s.total_frames + frame_count) % 2 ^ 64;
      updated_at = now;
    }

-- `none` stands for the error "Cannot start merge: not all workers complete".
unfoldable pub start_merge : ℕ → Bytes → MergeState → Option MergeState
unfolding is_ready
start_merge now merge_worker s =
    if is_ready s
    then some
        (record s { status = in_progress; merge_worker = some merge_worker; updated_at = now })
    else none

unfoldable pub complete_state : ℕ → MergeState → MergeState
complete_state now s = record s { status = complete; updated_at = now }

unfoldable pub fail_state : ℕ → Bytes → MergeState → MergeState
fail_state now error s = record s { status = failed; error = some error; updated_at = now }
