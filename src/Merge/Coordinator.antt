-- ===== src/Merge/Coordinator.antt =====
-- The merge coordinator: crates/roboflow-distributed/src/merge/coordinator.rs. Its semaphore is
-- passed along beside the client's state. The executor that merges the files is a parameter, as are
-- the fresh name of the merging worker and the text of an error.
use roboflow.Batch.Operations.{Codecs, get_batch_status, or_fail, update_phase_index}
use roboflow.Batch.Status.{
  BatchPhase, BatchStatus, is_complete, merging, phase_eq, running, transition_to,
}
use roboflow.Bytes.{Bytes, codes, strip_prefix}
use roboflow.Codec.{Codec}
use roboflow.Merge.Semaphore.{
  MergeSemaphore, record_merge, release_permit, try_acquire_merge_permit,
}
use roboflow.Merge.State.{
  MergeState, add_worker, complete_state, fail_state, is_ready, new_state, start_merge,
}
use roboflow.Prelude.{
  Bool, Option, [], false, if◌then◌else◌, length, none, not, some, suc, true, zero, ℕ, ◌&&◌, ◌++◌,
  ◌==◌,
}
use roboflow.Tikv.Client.{delete, get, put}
use roboflow.Tikv.Error.{
  Result, TikvError, deserialization, err, key_not_found, ok, other, serialization,
}
use roboflow.Tikv.Key.{status_key}
use roboflow.Tikv.World.{M, World, fail, read_now, return, ◌>>=◌, ◌>>◌}

abbrev pub attempt : {A : Type 0} → M A → M (Result A)
attempt m w = (ok (m w).0, (m w).1)

-- `let _ =`.
abbrev pub ignore : {A : Type 0} → M A → M (Unit {0})
ignore m w = (ok tt, (m w).1)

unfoldable pub merge_state_key : Bytes → Bytes
merge_state_key job_id = codes "/roboflow/v1/merge/" ++ job_id

-- `trim_start_matches` with a text, which is at least one byte long: `fuel` is the length.
unfoldable pub trim_text : ℕ → Bytes → Bytes → Bytes
trim_text zero p s = s
trim_text (suc fuel) p s = elim (strip_prefix p s) [ none ↦ s | some rest ↦ trim_text fuel p rest ]

-- What `transition_to_merging` takes for the batch's name.
unfoldable pub index_name : Bytes → Bytes
unfolding trim_text
index_name key = trim_text (length key) (codes "/roboflow/v1/batch/") key

pub data MergeResult : Type 0 where
  not_found not_claimed not_ready : MergeResult
  success : Bytes → ℕ → MergeResult
  failed : Bytes → MergeResult

abbrev pub bincode : Bytes
bincode = codes "bincode"

unfoldable pub ensure_merge_ready : ℕ → ℕ → Bytes → MergeState → Bool × MergeState
unfolding is_ready add_worker
ensure_merge_ready now expected_workers output_path s =
    if is_ready s
    then (true, s)
    else if (s.completed_workers == 0) && (expected_workers == 1)
    then (true, add_worker now (codes "direct") output_path 0 s)
    else (false, s)

-- The parts of the coordinator that the methods share.
module _ (c : Codecs) (states : Codec MergeState) where
  unfoldable pub load_status : TikvError → Option Bytes → M BatchStatus
  load_status missing none = fail missing
  load_status missing (some b) =
      or_fail (deserialization (codes "batch status")) (c.statuses.deserialize b)

  unfoldable pub store_status : Bytes → BatchStatus → M (Unit {0})
  store_status key s = do
    data_ ← or_fail (serialization bincode) (c.statuses.serialize s)
    put key data_

  abbrev pub save_state : Bytes → MergeState → M (Unit {0})
  save_state job_id state = do
    data_ ← or_fail (serialization bincode) (states.serialize state)
    put (merge_state_key job_id) data_

  abbrev pub load_state : Bytes → M MergeState
  load_state b = or_fail (serialization (codes "merge state")) (states.deserialize b)

  unfoldable pub register_staging_complete : Bytes → Bytes → Bytes → ℕ → M (Unit {0})
  unfolding merge_state_key
  register_staging_complete job_id worker_id staging_path frame_count = do
    entry ← get (merge_state_key job_id)
    now ← read_now
    state ← elim entry [ none ↦ return (new_state now job_id 1 []) | some b ↦ load_state b ]
    save_state job_id (add_worker now worker_id staging_path frame_count state)

  unfoldable pub transition_to_merging : Bytes → BatchStatus → M (Unit {0})
  unfolding store_status index_name
  transition_to_merging key s = do
    now ← read_now
    store_status key (transition_to s merging now)
    update_phase_index c (index_name key) running merging

  unfoldable pub verify_cas_won : Bytes → M Bool
  verify_cas_won key = do entry ← get key; return (elim entry [ none ↦ false | some b ↦ true ])

  unfoldable pub get_or_create_merge_state : Bytes → ℕ → Bytes → M MergeState
  unfolding merge_state_key
  get_or_create_merge_state job_id expected_workers output_path = do
    entry ← get (merge_state_key job_id)
    now ← read_now
    elim entry [
      | none ↦ return (new_state now job_id expected_workers output_path)
      | some b ↦ do
        state ← load_state b
        return (record state { expected_workers = expected_workers; output_path = output_path })
    ]

  -- The end of both outcomes: the stored merge state is changed, if there is one.
  unfoldable pub mark_state : Bytes → (MergeState → MergeState) → M (Unit {0})
  unfolding merge_state_key
  mark_state job_id f = do
    entry ← get (merge_state_key job_id)
    elim entry [
      | none ↦ return tt
      | some b ↦ do
        state ← load_state b
        data_ ← or_fail (serialization bincode) (states.serialize (f state))
        ignore (put (merge_state_key job_id) data_)
    ]

  abbrev pub missing_status : TikvError
  missing_status = key_not_found (codes "Batch status not entry")

  unfoldable pub fail_merge_with_status : Bytes → Bytes → M (Unit {0})
  unfolding load_status store_status mark_state
  fail_merge_with_status job_id error = do
    entry ← get (status_key job_id)
    s ← load_status missing_status entry
    now ← read_now
    store_status (status_key job_id)
        (record (transition_to s BatchPhase.failed now) { error = some error })
    ignore (update_phase_index c job_id s.phase BatchPhase.failed)
    mark_state job_id (fail_state now error)

  unfoldable pub complete_merge_with_status : Bytes → ℕ → M (Unit {0})
  unfolding load_status store_status mark_state
  complete_merge_with_status job_id total_frames = do
    entry ← get (status_key job_id)
    s ← load_status missing_status entry
    now ← read_now
    store_status (status_key job_id) (transition_to s BatchPhase.complete now)
    ignore (update_phase_index c job_id merging BatchPhase.complete)
    mark_state job_id (λ state. complete_state now (record state { total_frames = total_frames }))

  -- Best effort, and a deletion.
  unfoldable pub rollback_to_running : Bytes → M (Unit {0})
  rollback_to_running key = ignore (delete key)

  module _ (show : TikvError → Bytes) (execute_merge : MergeState → Result ℕ)
      (merge_worker : Bytes) where
    abbrev pub give_up_merge : Bytes → Bytes → M MergeResult
    give_up_merge job_id error = do
      ignore (fail_merge_with_status job_id error)
      return (MergeResult.failed error)

    unfoldable pub finish_merge : Bytes → MergeState → M MergeResult
    unfolding complete_merge_with_status fail_merge_with_status
    finish_merge job_id state = elim (execute_merge state) [
      | err e ↦ give_up_merge job_id (show e)
      | ok frames ↦ do
        completed ← attempt (complete_merge_with_status job_id frames)
        elim completed [
          | err e ↦ return (MergeResult.failed (show e))
          | ok done ↦ return (success state.output_path frames)
        ]
    ]

    abbrev pub start_from : Bytes → Option MergeState → M MergeResult
    unfolding fail_merge_with_status finish_merge
    start_from job_id none =
        give_up_merge job_id (codes "Cannot start merge: not all workers complete")
    start_from job_id (some started) = do save_state job_id started; finish_merge job_id started

    -- By whether the merge can start.
    unfoldable pub merge_when : Bytes → ℕ → Bool × MergeState → M MergeResult
    unfolding rollback_to_running start_merge
    merge_when job_id now (false, state) = do
      rollback_to_running (status_key job_id)
      return not_ready
    merge_when job_id now (true, state) = start_from job_id (start_merge now merge_worker state)

    unfoldable pub prepare_and_execute_merge : Bytes → ℕ → Bytes → M MergeResult
    unfolding get_or_create_merge_state ensure_merge_ready merge_when
    prepare_and_execute_merge job_id expected_workers output_path = do
      state ← get_or_create_merge_state job_id expected_workers output_path
      now ← read_now
      merge_when job_id now (ensure_merge_ready now expected_workers output_path state)

    abbrev pub when_won : Bytes → ℕ → Bytes → Bool → M MergeResult
    unfolding prepare_and_execute_merge
    when_won job_id expected_workers output_path false = return not_claimed
    when_won job_id expected_workers output_path true =
        prepare_and_execute_merge job_id expected_workers output_path

    unfoldable pub claim_running : Bytes → ℕ → Bytes → BatchStatus → M MergeResult
    unfolding transition_to_merging verify_cas_won prepare_and_execute_merge
    claim_running job_id expected_workers output_path s = do
      transition_to_merging (status_key job_id) s
      won ← verify_cas_won (status_key job_id)
      when_won job_id expected_workers output_path won

    -- `try_claim_merge` from the status that was read.
    unfoldable pub claim_from : Bytes → ℕ → Bytes → Option BatchStatus → M MergeResult
    unfolding claim_running is_complete
    claim_from job_id expected_workers output_path none = return not_found
    claim_from job_id expected_workers output_path (some s) =
        if not (phase_eq s.phase running)
        then return not_claimed
        else if not (is_complete s)
        then return not_ready
        else claim_running job_id expected_workers output_path s

    abbrev pub count_success : Result MergeResult → MergeSemaphore → MergeSemaphore
    count_success (ok (success output_path frames)) s = record_merge s
    count_success _ s = s

    -- The permit is dropped at the end, however the claim ends.
    unfoldable pub try_claim_merge :
        Bytes → ℕ → Bytes → MergeSemaphore → World → (Result MergeResult × MergeSemaphore) × World
    unfolding claim_from try_acquire_merge_permit release_permit
    try_claim_merge job_id expected_workers output_path sem w =
        let (got, sem') = try_acquire_merge_permit job_id sem in
        if got
        then (let (r, w') =
              (get_batch_status c job_id >>= claim_from job_id expected_workers output_path) w in
            ((r, release_permit (count_success r sem')), w'))
        else ((err (other (codes "No merge permits available")), sem'), w)
