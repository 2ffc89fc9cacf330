-- ===== src/Merge/Claims.antt =====
-- Who may merge a batch: `try_claim_merge` of
-- crates/roboflow-distributed/src/merge/coordinator.rs up to the merge itself.
use roboflow.Batch.Operations.{Codecs}
use roboflow.Batch.Status.{BatchStatus, merging, running, transition_to}
use roboflow.Bytes.{Bytes, codes, strip_prefix}
use roboflow.Codec.{Codec}
use roboflow.Merge.Coordinator.{
  index_name, merge_state_key, store_status, transition_to_merging, trim_text, verify_cas_won,
}
use roboflow.Merge.State.{MergeState}
use roboflow.Merge.Stores.{
  after_index, lookup-insert-same, merge_state-after_index, merge_state-insert, status-after_index,
  update_phase_index-IsHealthy,
}
use roboflow.Prelude.{refl, some, true, ◌++◌, ◌∙◌, ◌≡◌}
use roboflow.Tikv.Client.Healthy.{IsHealthy-write, get-IsHealthy, put-IsHealthy}
use roboflow.Tikv.Error.{ok}
use roboflow.Tikv.Key.{build, build_with_prefix, status_key}
use roboflow.Tikv.Store.{Store, insert, lookup}
use roboflow.Tikv.World.{IsHealthy, World, ◌>>◌}

-- The phase index is kept under a name that still has a part of the key before the batch's.
pub index_name-status_key :
    (job_id : Bytes) → index_name (status_key job_id) ≡ codes "statuses/" ++ job_id
unfolding index_name trim_text status_key build build_with_prefix strip_prefix
index_name-status_key job_id = refl

-- The store after the transition to merging, where the status is stored as `d`.
abbrev pub merging_store : Bytes → Bytes → Store → Store
merging_store job_id d m =
    after_index running merging (index_name (status_key job_id)) (insert (status_key job_id) d m)

pub status-merging_store :
    (job_id d : Bytes) (m : Store) → lookup (status_key job_id) (merging_store job_id d m) ≡ some d
status-merging_store job_id d m =
    status-after_index running merging (index_name (status_key job_id)) job_id
      (insert (status_key job_id) d m)
    ∙ lookup-insert-same (status_key job_id) d m

pub merge_state-merging_store :
    (job_id d : Bytes) (m : Store)
    → lookup (merge_state_key job_id) (merging_store job_id d m) ≡ lookup (merge_state_key job_id) m
merge_state-merging_store job_id d m =
    merge_state-after_index running merging (index_name (status_key job_id)) job_id
      (insert (status_key job_id) d m)
    ∙ merge_state-insert job_id job_id d m

module _ (c : Codecs) (states : Codec MergeState) where
  store_status-IsHealthy :
      (key d : Bytes) (s : BatchStatus) (w : World)
      → IsHealthy w
      → c.statuses.serialize s ≡ some d
      → store_status c states key s w ≡ (ok tt, record w { store = insert key d w.store })
  unfolding store_status
  store_status-IsHealthy key d s w h e = simp (e, put-IsHealthy key d w h)

  pub transition_to_merging-IsHealthy :
      (job_id d : Bytes) (s : BatchStatus) (w : World)
      → IsHealthy w
      → c.statuses.serialize (transition_to s merging w.now) ≡ some d
      → transition_to_merging c states (status_key job_id) s w
        ≡ (ok tt, record w { store = merging_store job_id d w.store })
  unfolding transition_to_merging
  transition_to_merging-IsHealthy job_id d s w h e = simp (
    store_status-IsHealthy (status_key job_id) d (transition_to s merging w.now) w h e,
    update_phase_index-IsHealthy c (index_name (status_key job_id)) running merging
        (record w { store = insert (status_key job_id) d w.store }) (IsHealthy-write w _ h),
  )

  -- With a client that nothing stands in the way of, a coordinator that has once read a running
  -- status moves it to merging and takes itself for the winner, whatever the store holds by then:
  -- the status of a batch that another merges already, has completed or has lost.
  pub claim_unexclusive :
      (job_id d : Bytes) (s : BatchStatus) (w : World)
      → IsHealthy w
      → c.statuses.serialize (transition_to s merging w.now) ≡ some d
      → (transition_to_merging c states (status_key job_id) s
            >> verify_cas_won c states (status_key job_id))
          w
        ≡ (ok true, record w { store = merging_store job_id d w.store })
  unfolding verify_cas_won
  claim_unexclusive job_id d s w h e = simp (
    transition_to_merging-IsHealthy job_id d s w h e,
    get-IsHealthy (status_key job_id) (record w { store = merging_store job_id d w.store })
        (IsHealthy-write w _ h),
    status-merging_store job_id d w.store,
  )
