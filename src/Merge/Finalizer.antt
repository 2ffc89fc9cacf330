-- ===== src/Merge/Finalizer.antt =====
-- The finalizer: crates/roboflow-distributed/src/finalizer/mod.rs, without a storage for metadata
-- and without a collector of statistics, as `Finalizer::new` makes it. What `run` does with a batch
-- that it has found is `finalize_found`.
use roboflow.Batch.Operations.{Codecs, get_batch_status, update_phase_index}
use roboflow.Batch.Status.{BatchPhase, BatchStatus, transition_to}
use roboflow.Bytes.{Bytes, codes}
use roboflow.Codec.{Codec}
use roboflow.Merge.Coordinator.{
  MergeResult, claim_from, count_success, load_status, not_claimed, not_found, not_ready,
  store_status, success, try_claim_merge,
}
use roboflow.Merge.Permits.{acquired, release_restores, unavailable}
use roboflow.Merge.Semaphore.{
  MergeSemaphore, record_merge, try_acquire_merge_permit, try_acquire_permit,
}
use roboflow.Merge.State.{MergeState}
use roboflow.Merge.Stores.{
  after_index, lookup-insert-same, status-after_index, update_phase_index-IsHealthy,
}
use roboflow.Prelude.{
  Bool, Bool-cases, false, inl, inr, ltb, refl, some, true, ℕ, ◌%◌, ◌++◌, ◌^◌, ◌∙◌, ◌≡◌, ◌≤◌,
}
use roboflow.Tikv.Client.{get}
use roboflow.Tikv.Client.Healthy.{IsHealthy-write, get-IsHealthy, put-IsHealthy}
use roboflow.Tikv.Error.{Result, TikvError, err, ok, other}
use roboflow.Tikv.Key.{status_key}
use roboflow.Tikv.Store.{insert, lookup}
use roboflow.Tikv.World.{IsHealthy, M, World, fail, read_now, return, ◌>>=◌, ◌>>◌}

module _ (c : Codecs) (states : Codec MergeState) where
  abbrev no_status : TikvError
  no_status = other (codes "Batch status not found")

  unfoldable pub mark_batch_complete : Bytes → M (Unit {0})
  unfolding load_status store_status
  mark_batch_complete batch_id = do
    entry ← get (status_key batch_id)
    s ← load_status c states no_status entry
    now ← read_now
    store_status c states (status_key batch_id) (transition_to s BatchPhase.complete now)
    update_phase_index c batch_id s.phase BatchPhase.complete

  unfoldable pub mark_batch_failed : Bytes → Bytes → M (Unit {0})
  unfolding load_status store_status
  mark_batch_failed batch_id error = do
    entry ← get (status_key batch_id)
    s ← load_status c states no_status entry
    now ← read_now
    store_status c states (status_key batch_id)
        (record (transition_to s BatchPhase.failed now) { error = some error })
    update_phase_index c batch_id s.phase BatchPhase.failed

  -- The `match` on the result of the merge.
  abbrev pub after_merge : Bytes → Result MergeResult → M Bool
  unfolding mark_batch_complete
  after_merge batch_id (err e) = fail e
  after_merge batch_id (ok (success output_path frames)) = do
    mark_batch_complete batch_id
    return true
  after_merge batch_id (ok not_found) = return false
  after_merge batch_id (ok not_claimed) = return false
  after_merge batch_id (ok not_ready) = return false
  after_merge batch_id (ok (MergeResult.failed error)) =
      fail (other (codes "Merge failed: " ++ error))

  module _ (show : TikvError → Bytes) (execute_merge : MergeState → Result ℕ)
      (merge_worker batch_id output_path : Bytes) where
    unfoldable pub finalize_batch : MergeSemaphore → World → (Result Bool × MergeSemaphore) × World
    unfolding try_claim_merge mark_batch_complete
    finalize_batch sem w =
        let ((r, sem'), w') =
          try_claim_merge c states show execute_merge merge_worker batch_id 1 output_path sem w in
        let (result, w'') = after_merge batch_id r w' in ((result, sem'), w'')

    abbrev pub after_finalize : Result Bool → World → World
    unfolding mark_batch_failed
    after_finalize (ok done) w = w
    after_finalize (err e) w =
        (mark_batch_failed batch_id (codes "Finalization failed: " ++ show e) w).1

    unfoldable pub finalize_found : MergeSemaphore → World → MergeSemaphore × World
    unfolding finalize_batch mark_batch_failed
    finalize_found sem w =
        let ((result, sem'), w') = finalize_batch sem w in (sem', after_finalize result w')

    mark_batch_failed-IsHealthy :
        (error d d' : Bytes) (s : BatchStatus) (w : World)
        → IsHealthy w
        → lookup (status_key batch_id) w.store ≡ some d
        → c.statuses.deserialize d ≡ some s
        → c.statuses.serialize
            (record (transition_to s BatchPhase.failed w.now) { error = some error })
          ≡ some d'
        → mark_batch_failed batch_id error w ≡ (
          ok tt,
          record w {
            store =
                after_index s.phase BatchPhase.failed batch_id
                  (insert (status_key batch_id) d' w.store);
          },
        )
    unfolding mark_batch_failed load_status store_status
    mark_batch_failed-IsHealthy error d d' s w h at_status e e' =
        let m = insert (status_key batch_id) d' w.store in
        simp (
          get-IsHealthy (status_key batch_id) w h,
          at_status,
          e,
          e',
          put-IsHealthy (status_key batch_id) d' w h,
          update_phase_index-IsHealthy c batch_id s.phase BatchPhase.failed (record w { store = m })
              (IsHealthy-write w m h),
        )

    no_permit-failed :
        (sem : MergeSemaphore) (w : World)
        → sem.available ≡ 0
        → ((finalize_batch sem w).0.0 ≡ err (other (codes "No merge permits available")))
          × ((finalize_batch sem w).1 ≡ w)
    unfolding finalize_batch try_claim_merge try_acquire_merge_permit try_acquire_permit
    no_permit-failed sem w none_left = rw none_left (refl, refl)

    -- A batch that the finalizer has found while all permits are taken, with a client that nothing
    -- stands in the way of, a stored status and a failed one that can be written: the batch has
    -- failed afterwards, with the missing permit as its error, though nothing was wrong with it.
    pub no_permit_fails :
        (d d' : Bytes) (s : BatchStatus) (sem : MergeSemaphore) (w : World)
        → sem.available ≡ 0
        → IsHealthy w
        → lookup (status_key batch_id) w.store ≡ some d
        → c.statuses.deserialize d ≡ some s
        → c.statuses.serialize (record (transition_to s BatchPhase.failed w.now) {
          error =
              some (
                codes "Finalization failed: " ++ show (other (codes "No merge permits available")));
        })
          ≡ some d'
        → lookup (status_key batch_id) (finalize_found sem w).1.store ≡ some d'
    unfolding finalize_found
    no_permit_fails d d' s sem w none_left h at_status e e' =
        let refused = no_permit-failed sem w none_left in
        let error =
          codes "Finalization failed: " ++ show (other (codes "No merge permits available")) in
        rw
          (
            refused.0,
            refused.1,
            after_finalize,
            mark_batch_failed-IsHealthy error d d' s w h at_status e e',
          )
          (status-after_index s.phase BatchPhase.failed batch_id batch_id
              (insert (status_key batch_id) d' w.store)
            ∙ lookup-insert-same (status_key batch_id) d' w.store)

    abbrev claimed_result : World → Result MergeResult
    claimed_result w =
        ((get_batch_status c batch_id
            >>= claim_from c states show execute_merge merge_worker batch_id 1 output_path)
          w).0

    counted_same :
        (r : Result MergeResult) (s : MergeSemaphore)
        → let counted = count_success c states show execute_merge merge_worker r s in
          (counted.available ≡ s.available) × (counted.max_permits ≡ s.max_permits)
    unfolding record_merge
    counted_same (err e) s = (refl, refl)
    counted_same (ok (success output frames)) s = (refl, refl)
    counted_same (ok not_found) s = (refl, refl)
    counted_same (ok not_claimed) s = (refl, refl)
    counted_same (ok not_ready) s = (refl, refl)
    counted_same (ok (MergeResult.failed error)) s = (refl, refl)

    -- A claim gives its permit back however it ends: as many are free as before.
    pub finalize_returns_permit :
        (sem : MergeSemaphore) (w : World)
        → sem.available ≤ sem.max_permits % 2 ^ 32
        → (finalize_found sem w).0.available ≡ sem.available
    unfolding finalize_found finalize_batch try_claim_merge
    finalize_returns_permit sem w h = elim (Bool-cases (ltb 0 sem.available)) [
      | inr e ↦
          let k = unavailable batch_id sem e in
          rw (k.0, finalize_found, finalize_batch, try_claim_merge) k.1
      | inl e ↦
          let (got, one_less, same_max) = acquired batch_id sem e in
          let r = claimed_result w in
          let counted = counted_same r (try_acquire_merge_permit batch_id sem).1 in
          rw (got, finalize_found, finalize_batch, try_claim_merge)
            (release_restores
              (count_success c states show execute_merge merge_worker r
                (try_acquire_merge_permit batch_id sem).1)
              sem.available (rw counted.0 one_less) (rw (counted.1, same_max) h))
    ]
