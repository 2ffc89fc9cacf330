-- ===== src/Merge/Results.antt =====
-- What a claim of a running and complete batch leads to: `try_claim_merge` and
-- `prepare_and_execute_merge` of crates/roboflow-distributed/src/merge/coordinator.rs, with a
-- client that nothing stands in the way of. A single worker is expected, as the finalizer asks for.
use roboflow.Batch.Operations.{Codecs}
use roboflow.Batch.Status.{BatchPhase, BatchStatus, merging, transition_to}
use roboflow.Bytes.{Bytes, beq_refl, codes, insert_entry}
use roboflow.Codec.{Codec}
use roboflow.Merge.Claims.{
  merge_state-merging_store, merging_store, status-merging_store, transition_to_merging-IsHealthy,
}
use roboflow.Merge.Coordinator.{
  MergeResult, claim_running, complete_merge_with_status, ensure_merge_ready,
  fail_merge_with_status, finish_merge, get_or_create_merge_state, merge_state_key, merge_when,
  not_ready, prepare_and_execute_merge, rollback_to_running, success, verify_cas_won,
}
use roboflow.Merge.Outcomes.{complete_merge-IsHealthy, fail_merge-IsHealthy, status-ended_store}
use roboflow.Merge.State.{
  MergeState, add_worker, complete_state, fail_state, in_progress, is_pending, is_ready, new_state,
  start_merge,
}
use roboflow.Merge.Stores.{lookup-insert-same, status-insert}
use roboflow.Prelude.{arith, false, none, refl, some, ℕ, ◌∙◌, ◌≡◌, ◌≢◌}
use roboflow.Tikv.Client.Healthy.{IsHealthy-write, delete-IsHealthy, get-IsHealthy, put-IsHealthy}
use roboflow.Tikv.Error.{Result, TikvError, err, ok}
use roboflow.Tikv.Key.{status_key}
use roboflow.Tikv.Store.{insert, lookup, lookup-remove, remove}
use roboflow.Tikv.World.{IsHealthy, M, World}

-- The state that a merge starts from when no worker has registered.
abbrev pub direct_state : ℕ → Bytes → Bytes → Bytes → MergeState
direct_state now job_id output_path merge_worker =
    record (add_worker now (codes "direct") output_path 0 (new_state now job_id 1 output_path)) {
      status = in_progress;
      merge_worker = some merge_worker;
      updated_at = now;
    }

-- A stored state that no merge starts from: it is not pending any more, though a worker has
-- registered.
abbrev pub Spent : MergeState → Type 0
Spent state = (state.completed_workers ≢ 0) × (is_pending state.status ≡ false)

ensure_merge_ready-Spent :
    (now : ℕ) (output_path : Bytes) (state : MergeState)
    → Spent state
    → ensure_merge_ready now 1 output_path state ≡ (false, state)
unfolding ensure_merge_ready is_ready
ensure_merge_ready-Spent now output_path state h = rw h.1 (ground arith)

module _ (c : Codecs) (states : Codec MergeState) (show : TikvError → Bytes)
    (execute_merge : MergeState → Result ℕ) (merge_worker job_id output_path : Bytes) where
  abbrev pub claim_one : BatchStatus → M MergeResult
  claim_one s = claim_running c states show execute_merge merge_worker job_id 1 output_path s

  abbrev prepare : M MergeResult
  prepare = prepare_and_execute_merge c states show execute_merge merge_worker job_id 1 output_path

  claim_one-IsHealthy :
      (d : Bytes) (s : BatchStatus) (w : World)
      → IsHealthy w
      → c.statuses.serialize (transition_to s merging w.now) ≡ some d
      → claim_one s w ≡ prepare (record w { store = merging_store job_id d w.store })
  unfolding claim_running verify_cas_won
  claim_one-IsHealthy d s w h e = simp (
    transition_to_merging-IsHealthy c states job_id d s w h e,
    get-IsHealthy (status_key job_id) (record w { store = merging_store job_id d w.store })
        (IsHealthy-write w _ h),
    status-merging_store job_id d w.store,
  )

  -- In the store after the transition to merging, a merge finds no state and starts its own.
  prepare_direct :
      (b : Bytes) (w : World)
      → IsHealthy w
      → lookup (merge_state_key job_id) w.store ≡ none
      → states.serialize (direct_state w.now job_id output_path merge_worker) ≡ some b
      → prepare w
        ≡ finish_merge c states show execute_merge merge_worker job_id
            (direct_state w.now job_id output_path merge_worker)
            (record w { store = insert (merge_state_key job_id) b w.store })
  unfolding prepare_and_execute_merge get_or_create_merge_state ensure_merge_ready merge_when
      start_merge is_ready new_state add_worker insert_entry finish_merge
  prepare_direct b w h unregistered e = simp (
    get-IsHealthy (merge_state_key job_id) w h,
    unregistered,
    e,
    put-IsHealthy (merge_state_key job_id) b w h,
  )

  prepare-Spent :
      (b : Bytes) (state : MergeState) (w : World)
      → IsHealthy w
      → lookup (merge_state_key job_id) w.store ≡ some b
      → states.deserialize b ≡ some state
      → Spent state
      → prepare w ≡ (ok not_ready, record w { store = remove (status_key job_id) w.store })
  unfolding prepare_and_execute_merge get_or_create_merge_state merge_when rollback_to_running
  prepare-Spent b state w h stored e spent = simp (
    get-IsHealthy (merge_state_key job_id) w h,
    stored,
    e,
    ensure_merge_ready-Spent w.now output_path
        (record state { expected_workers = 1; output_path = output_path }) spent,
    delete-IsHealthy (status_key job_id) w h,
  )

  -- A running and complete batch whose stored merge state is spent, with a client that nothing
  -- stands in the way of and a status that can be written: the claim answers that the merge is not
  -- ready, and the status of the batch is gone from the store.
  pub claim_loses_status :
      (b d : Bytes) (s : BatchStatus) (state : MergeState) (w : World)
      → IsHealthy w
      → c.statuses.serialize (transition_to s merging w.now) ≡ some d
      → lookup (merge_state_key job_id) w.store ≡ some b
      → states.deserialize b ≡ some state
      → Spent state
      → ((claim_one s w).0 ≡ ok not_ready)
        × (lookup (status_key job_id) (claim_one s w).1.store ≡ none)
  claim_loses_status b d s state w h e stored f spent =
      let m = merging_store job_id d w.store in
      rw
        (
          claim_one-IsHealthy d s w h e,
          prepare-Spent b state (record w { store = m }) (IsHealthy-write w m h)
              (merge_state-merging_store job_id d w.store ∙ stored) f spent,
        )
        (
          refl,
          lookup-remove (status_key job_id) (status_key job_id) m
              ∙ rw (beq_refl (status_key job_id)) refl,
        )

  finish_completed :
      (frames : ℕ) (state : MergeState) (v w : World)
      → execute_merge state ≡ ok frames
      → complete_merge_with_status c states job_id frames v ≡ (ok tt, w)
      → finish_merge c states show execute_merge merge_worker job_id state v
        ≡ (ok (success state.output_path frames), w)
  unfolding finish_merge
  finish_completed frames state v w run e = rw (run, finish_merge) (rw e refl)

  finish_failed :
      (error : TikvError) (state : MergeState) (v w : World)
      → execute_merge state ≡ err error
      → fail_merge_with_status c states job_id (show error) v ≡ (ok tt, w)
      → finish_merge c states show execute_merge merge_worker job_id state v
        ≡ (ok (MergeResult.failed (show error)), w)
  unfolding finish_merge
  finish_failed error state v w run e = rw (run, finish_merge) (rw e refl)

  -- A running and complete batch that nothing is stored for yet, with a client that nothing stands
  -- in the way of and values that can be written, when the files are merged to so many frames: the
  -- claim answers with them, the stored status is complete, and so is the stored state of the merge.
  pub merge_completes :
      (frames : ℕ) (d d' b b' : Bytes) (s : BatchStatus) (w : World)
      → IsHealthy w
      → lookup (merge_state_key job_id) w.store ≡ none
      → c.statuses.serialize (transition_to s merging w.now) ≡ some d
      → states.serialize (direct_state w.now job_id output_path merge_worker) ≡ some b
      → execute_merge (direct_state w.now job_id output_path merge_worker) ≡ ok frames
      → c.statuses.serialize
          (transition_to (transition_to s merging w.now) BatchPhase.complete w.now)
        ≡ some d'
      → states.serialize (
          complete_state w.now
            (record (direct_state w.now job_id output_path merge_worker) { total_frames = frames }))
        ≡ some b'
      → ((claim_one s w).0 ≡ ok (success output_path frames))
        × (lookup (status_key job_id) (claim_one s w).1.store ≡ some d')
        × (lookup (merge_state_key job_id) (claim_one s w).1.store ≡ some b')
  unfolding add_worker new_state
  merge_completes frames d d' b b' s w h unregistered e f run e' f' =
      let m = merging_store job_id d w.store in
      let state = direct_state w.now job_id output_path merge_worker in
      let m1 = insert (merge_state_key job_id) b m in
      let started = claim_one-IsHealthy d s w h e in
      let direct =
        prepare_direct b (record w { store = m }) (IsHealthy-write w m h)
          (merge_state-merging_store job_id d w.store ∙ unregistered) f in
      let completed =
        complete_merge-IsHealthy c states job_id d d' b b' (transition_to s merging w.now) state
          frames (record w { store = m1 }) (IsHealthy-write w m1 h)
          (status-insert job_id job_id b m ∙ status-merging_store job_id d w.store)
          (c.statuses.deserialize-serialize (transition_to s merging w.now) d e) e'
          (lookup-insert-same (merge_state_key job_id) b m) (states.deserialize-serialize state b f)
          f' in
      rw (started, direct, finish_completed frames state (record w { store = m1 }) _ run completed)
        (
          refl,
          status-ended_store c states merging BatchPhase.complete job_id d' b' m1,
          lookup-insert-same (merge_state_key job_id) b' _,
        )

  -- A running and complete batch that nothing is stored for yet, with a client that nothing stands
  -- in the way of and values that can be written, when the merge of the files ends in an error: the
  -- claim answers with the text of the error, the stored status has failed with that text, and so
  -- has the stored state of the merge.
  pub merge_fails :
      (error : TikvError) (d d' b b' : Bytes) (s : BatchStatus) (w : World)
      → IsHealthy w
      → lookup (merge_state_key job_id) w.store ≡ none
      → c.statuses.serialize (transition_to s merging w.now) ≡ some d
      → states.serialize (direct_state w.now job_id output_path merge_worker) ≡ some b
      → execute_merge (direct_state w.now job_id output_path merge_worker) ≡ err error
      → c.statuses.serialize
          (record (transition_to (transition_to s merging w.now) BatchPhase.failed w.now) {
            error = some (show error);
          })
        ≡ some d'
      → states.serialize
          (fail_state w.now (show error) (direct_state w.now job_id output_path merge_worker))
        ≡ some b'
      → ((claim_one s w).0 ≡ ok (MergeResult.failed (show error)))
        × (lookup (status_key job_id) (claim_one s w).1.store ≡ some d')
        × (lookup (merge_state_key job_id) (claim_one s w).1.store ≡ some b')
  merge_fails error d d' b b' s w h unregistered e f run e' f' =
      let m = merging_store job_id d w.store in
      let state = direct_state w.now job_id output_path merge_worker in
      let m1 = insert (merge_state_key job_id) b m in
      let started = claim_one-IsHealthy d s w h e in
      let direct =
        prepare_direct b (record w { store = m }) (IsHealthy-write w m h)
          (merge_state-merging_store job_id d w.store ∙ unregistered) f in
      let ended =
        fail_merge-IsHealthy c states job_id (show error) d d' b b' (transition_to s merging w.now)
          state (record w { store = m1 }) (IsHealthy-write w m1 h)
          (status-insert job_id job_id b m ∙ status-merging_store job_id d w.store)
          (c.statuses.deserialize-serialize (transition_to s merging w.now) d e) e'
          (lookup-insert-same (merge_state_key job_id) b m) (states.deserialize-serialize state b f)
          f' in
      rw (started, direct, finish_failed error state (record w { store = m1 }) _ run ended)
        (
          refl,
          status-ended_store c states _ BatchPhase.failed job_id d' b' m1,
          lookup-insert-same (merge_state_key job_id) b' _,
        )
