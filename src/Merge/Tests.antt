-- ===== src/Merge/Tests.antt =====
-- The merge at concrete inputs.
use native.Mathlib.Decide.{ℕ_discrete}
use roboflow.Batch.Operations.{Codecs}
use roboflow.Batch.Status.{BatchPhase, BatchStatus, merging, new, running, transition_to}
use roboflow.Bytes.{Bytes, beq, bytes_ltb, codes, insert_entry}
use roboflow.Codec.{Codec}
use roboflow.Codec.Table.{refusing, table, table_writes_first, table_writes_second}
use roboflow.Merge.Claims.{claim_unexclusive, merging_store}
use roboflow.Merge.Coordinator.{
  MergeResult, merge_state_key, not_ready, success, transition_to_merging, verify_cas_won,
}
use roboflow.Merge.Finalizer.{finalize_found, no_permit_fails}
use roboflow.Merge.Permits.{drop_permit, permit_run, permits_bounded, request}
use roboflow.Merge.Results.{
  claim_loses_status, claim_one, direct_state, merge_completes, merge_fails,
}
use roboflow.Merge.Semaphore.{
  MergeSemaphore, dequeue_pending, new_semaphore, try_acquire_merge_permit, try_acquire_permit,
}
use roboflow.Merge.State.{MergeState, add_worker, complete_state, fail_state, new_state}
use roboflow.Prelude.{
  [], arith, false, ltb, none, refl, some, true, ℕ, ◌%◌, ◌+◌, ◌^◌, ◌∷◌, ◌≡◌, ◌≢◌,
}
use roboflow.Samples.{batch, healthy, healthy-IsHealthy, worker}
use roboflow.Tikv.Error.{Result, TikvError, err, ok, other}
use roboflow.Tikv.Key.{status_key}
use roboflow.Tikv.Store.{Store, insert, lookup}
use roboflow.Tikv.World.{◌>>◌}

abbrev done_batch : BatchStatus
done_batch = record (new 0) { phase = running; work_units_total = 2; work_units_completed = 2 }

abbrev merging_batch : BatchStatus
merging_batch = transition_to done_batch merging 1000

abbrev merged_batch : BatchStatus
merged_batch = transition_to merging_batch BatchPhase.complete 1000

abbrev output : Bytes
output = codes "s3://out/a"

abbrev direct : MergeState
direct = direct_state 1000 batch output worker

abbrev finished : MergeState
finished = complete_state 1000 (record direct { total_frames = 7 })

BatchStatus-discrete : Discrete BatchStatus
BatchStatus-discrete = hlevel (ℕ_discrete)

MergeState-discrete : Discrete MergeState
MergeState-discrete = hlevel (ℕ_discrete)

merged-ne-merging : merged_batch ≢ merging_batch
unfolding transition_to
merged-ne-merging e = ground arith

finished-ne-direct : finished ≢ direct
unfolding complete_state new_state add_worker
finished-ne-direct e = ground arith

abbrev codecs : BatchStatus → BatchStatus → Codecs
codecs a b = record {
  units = refusing;
  statuses = table BatchStatus-discrete a b;
  specs = refusing;
}

abbrev states : Codec MergeState
states = table MergeState-discrete direct finished

abbrev show : TikvError → Bytes
show e = codes "error"

abbrev seven_frames : MergeState → Result ℕ
seven_frames state = ok 7

-- Two requests on one permit.
second_waits :
    (try_acquire_merge_permit batch (permit_run (request batch ∷ []) (new_semaphore 1, 0)).0).0
    ≡ false
unfolding try_acquire_merge_permit try_acquire_permit dequeue_pending new_semaphore
second_waits = refl

permits_bounded_example :
    let x = permit_run (request batch ∷ request batch ∷ drop_permit ∷ []) (new_semaphore 1, 0) in
    (x.0.available + x.1 ≡ 1 % 2 ^ 32)
    × ((try_acquire_merge_permit batch x.0).0 ≡ ltb x.1 (1 % 2 ^ 32))
permits_bounded_example = permits_bounded 1 (request batch ∷ request batch ∷ drop_permit ∷ []) batch

-- The status is stored as that of a batch that is being merged.
abbrev taken : Store
taken = insert (status_key batch) (1 ∷ []) []

claim_unexclusive_example :
    let c = codecs merging_batch merged_batch in
    (transition_to_merging c states (status_key batch) done_batch
        >> verify_cas_won c states (status_key batch))
      (healthy taken)
    ≡ (ok true, record (healthy taken) { store = merging_store batch (1 ∷ []) taken })
claim_unexclusive_example =
    claim_unexclusive (codecs merging_batch merged_batch) states batch (1 ∷ []) done_batch
      (healthy taken) (healthy-IsHealthy taken)
      (table_writes_first BatchStatus-discrete merging_batch merged_batch)

merge_completes_example :
    let (r, w') =
      claim_one
        (codecs merging_batch merged_batch)
        states
        show
        seven_frames
        worker
        batch
        output
        done_batch
        (healthy []) in
    (r ≡ ok (success output 7))
    × (lookup (status_key batch) w'.store ≡ some (2 ∷ []))
    × (lookup (merge_state_key batch) w'.store ≡ some (2 ∷ []))
unfolding lookup
merge_completes_example =
    merge_completes (codecs merging_batch merged_batch) states show seven_frames worker batch output
      7 (1 ∷ []) (2 ∷ []) (1 ∷ []) (2 ∷ []) done_batch (healthy []) (healthy-IsHealthy []) refl
      (table_writes_first BatchStatus-discrete merging_batch merged_batch)
      (table_writes_first MergeState-discrete direct finished) refl
      (table_writes_second BatchStatus-discrete merging_batch merged_batch merged-ne-merging)
      (table_writes_second MergeState-discrete direct finished finished-ne-direct)

abbrev broken : TikvError
broken = other (codes "x")

abbrev no_frames : MergeState → Result ℕ
no_frames state = err broken

abbrev unmerged_batch : BatchStatus
unmerged_batch = record (transition_to merging_batch BatchPhase.failed 1000) {
  error = some (codes "error");
}

abbrev abandoned : MergeState
abandoned = fail_state 1000 (codes "error") direct

unmerged-ne-merging : unmerged_batch ≢ merging_batch
unfolding transition_to
unmerged-ne-merging e = ground arith

abandoned-ne-direct : abandoned ≢ direct
unfolding fail_state new_state add_worker
abandoned-ne-direct e = ground arith

merge_fails_example :
    let (r, w') =
      claim_one
        (codecs merging_batch unmerged_batch)
        (table MergeState-discrete direct abandoned)
        show
        no_frames
        worker
        batch
        output
        done_batch
        (healthy []) in
    (r ≡ ok (MergeResult.failed (codes "error")))
    × (lookup (status_key batch) w'.store ≡ some (2 ∷ []))
    × (lookup (merge_state_key batch) w'.store ≡ some (2 ∷ []))
unfolding lookup
merge_fails_example =
    merge_fails (codecs merging_batch unmerged_batch) (table MergeState-discrete direct abandoned)
      show no_frames worker batch output broken (1 ∷ []) (2 ∷ []) (1 ∷ []) (2 ∷ []) done_batch
      (healthy []) (healthy-IsHealthy []) refl
      (table_writes_first BatchStatus-discrete merging_batch unmerged_batch)
      (table_writes_first MergeState-discrete direct abandoned) refl
      (table_writes_second BatchStatus-discrete merging_batch unmerged_batch unmerged-ne-merging)
      (table_writes_second MergeState-discrete direct abandoned abandoned-ne-direct)

-- A merge of the batch has ended before.
abbrev spent_store : Store
spent_store = insert (merge_state_key batch) (2 ∷ []) taken

claim_loses_status_example :
    let (r, w') =
      claim_one
        (codecs merging_batch merged_batch)
        states
        show
        seven_frames
        worker
        batch
        output
        done_batch
        (healthy spent_store) in
    (r ≡ ok not_ready) × (lookup (status_key batch) w'.store ≡ none)
unfolding lookup insert beq bytes_ltb merge_state_key status_key complete_state add_worker new_state
    insert_entry
claim_loses_status_example =
    claim_loses_status (codecs merging_batch merged_batch) states show seven_frames worker batch
      output (2 ∷ []) (1 ∷ []) done_batch finished (healthy spent_store)
      (healthy-IsHealthy spent_store)
      (table_writes_first BatchStatus-discrete merging_batch merged_batch) refl refl
      (λ e. ground arith, refl)

abbrev failed_batch : BatchStatus
failed_batch = record (transition_to done_batch BatchPhase.failed 1000) {
  error = some (codes "Finalization failed: error");
}

failed-ne-done : failed_batch ≢ done_batch
unfolding transition_to
failed-ne-done e = ground arith

-- The only permit is held.
abbrev exhausted : MergeSemaphore
exhausted = (try_acquire_merge_permit batch (new_semaphore 1)).1

no_permit_fails_example :
    lookup
      (status_key batch)
      (finalize_found
        (codecs done_batch failed_batch)
        states
        show
        seven_frames
        worker
        batch
        output
        exhausted
        (healthy taken)).1.store
    ≡ some (2 ∷ [])
unfolding lookup insert beq status_key new_semaphore try_acquire_merge_permit try_acquire_permit
    dequeue_pending
no_permit_fails_example =
    no_permit_fails (codecs done_batch failed_batch) states show seven_frames worker batch output
      (1 ∷ []) (2 ∷ []) done_batch exhausted (healthy taken) refl (healthy-IsHealthy taken) refl
      refl (table_writes_second BatchStatus-discrete done_batch failed_batch failed-ne-done)
