-- ===== src/Merge/Outcomes.antt =====
-- How a merge ends: `prepare_and_execute_merge` and what follows it in
-- crates/roboflow-distributed/src/merge/coordinator.rs, with a client that nothing stands in the
-- way of.
use roboflow.Batch.Operations.{Codecs}
use roboflow.Batch.Status.{BatchPhase, BatchStatus, merging, transition_to}
use roboflow.Bytes.{Bytes}
use roboflow.Codec.{Codec}
use roboflow.Merge.Coordinator.{
  complete_merge_with_status, fail_merge_with_status, load_status, mark_state, merge_state_key,
  store_status,
}
use roboflow.Merge.State.{MergeState, complete_state, fail_state}
use roboflow.Merge.Stores.{
  after_index, lookup-insert-same, merge_state-after_index, merge_state-insert, status-after_index,
  status-insert, update_phase_index-IsHealthy,
}
use roboflow.Prelude.{some, ℕ, ◌∙◌, ◌≡◌}
use roboflow.Tikv.Client.Healthy.{IsHealthy-write, get-IsHealthy, put-IsHealthy}
use roboflow.Tikv.Error.{ok}
use roboflow.Tikv.Key.{status_key}
use roboflow.Tikv.Store.{Store, insert, lookup}
use roboflow.Tikv.World.{IsHealthy, World}

module _ (c : Codecs) (states : Codec MergeState) where
  mark_state-IsHealthy :
      (job_id b b' : Bytes) (f : MergeState → MergeState) (state : MergeState) (w : World)
      → IsHealthy w
      → lookup (merge_state_key job_id) w.store ≡ some b
      → states.deserialize b ≡ some state
      → states.serialize (f state) ≡ some b'
      → mark_state c states job_id f w
        ≡ (ok tt, record w { store = insert (merge_state_key job_id) b' w.store })
  unfolding mark_state
  mark_state-IsHealthy job_id b b' f state w h stored e s = simp (
    get-IsHealthy (merge_state_key job_id) w h,
    stored,
    e,
    s,
    put-IsHealthy (merge_state_key job_id) b' w h,
  )

  -- The store after the end of a merge: its status, the phase index and its state.
  abbrev pub ended_store : BatchPhase → BatchPhase → Bytes → Bytes → Bytes → Store → Store
  ended_store p q job_id d b m =
      insert (merge_state_key job_id) b (after_index p q job_id (insert (status_key job_id) d m))

  pub status-ended_store :
      (p q : BatchPhase) (job_id d b : Bytes) (m : Store)
      → lookup (status_key job_id) (ended_store p q job_id d b m) ≡ some d
  status-ended_store p q job_id d b m =
      status-insert job_id job_id b (after_index p q job_id (insert (status_key job_id) d m))
      ∙ status-after_index p q job_id job_id (insert (status_key job_id) d m)
      ∙ lookup-insert-same (status_key job_id) d m

  merge_state-here :
      (p q : BatchPhase) (job_id d : Bytes) (m : Store)
      → lookup (merge_state_key job_id) (after_index p q job_id (insert (status_key job_id) d m))
        ≡ lookup (merge_state_key job_id) m
  merge_state-here p q job_id d m =
      merge_state-after_index p q job_id job_id (insert (status_key job_id) d m)
      ∙ merge_state-insert job_id job_id d m

  pub complete_merge-IsHealthy :
      (job_id d d' b b' : Bytes) (s : BatchStatus) (state : MergeState) (frames : ℕ) (w : World)
      → IsHealthy w
      → lookup (status_key job_id) w.store ≡ some d
      → c.statuses.deserialize d ≡ some s
      → c.statuses.serialize (transition_to s BatchPhase.complete w.now) ≡ some d'
      → lookup (merge_state_key job_id) w.store ≡ some b
      → states.deserialize b ≡ some state
      → states.serialize (complete_state w.now (record state { total_frames = frames })) ≡ some b'
      → complete_merge_with_status c states job_id frames w
        ≡ (ok tt, record w { store = ended_store merging BatchPhase.complete job_id d' b' w.store })
  unfolding complete_merge_with_status load_status store_status
  complete_merge-IsHealthy job_id d d' b b' s state frames w h at_status e es at_state f fs =
      let m1 = insert (status_key job_id) d' w.store in
      let m2 = after_index merging BatchPhase.complete job_id m1 in
      simp (
        get-IsHealthy (status_key job_id) w h,
        at_status,
        e,
        es,
        put-IsHealthy (status_key job_id) d' w h,
        update_phase_index-IsHealthy c job_id merging BatchPhase.complete (record w { store = m1 })
            (IsHealthy-write w m1 h),
        mark_state-IsHealthy job_id b b'
            (λ x. complete_state w.now (record x { total_frames = frames })) state
            (record w { store = m2 }) (IsHealthy-write w m2 h)
            (merge_state-here merging BatchPhase.complete job_id d' w.store ∙ at_state) f fs,
      )

  pub fail_merge-IsHealthy :
      (job_id error d d' b b' : Bytes) (s : BatchStatus) (state : MergeState) (w : World)
      → IsHealthy w
      → lookup (status_key job_id) w.store ≡ some d
      → c.statuses.deserialize d ≡ some s
      → c.statuses.serialize
          (record (transition_to s BatchPhase.failed w.now) { error = some error })
        ≡ some d'
      → lookup (merge_state_key job_id) w.store ≡ some b
      → states.deserialize b ≡ some state
      → states.serialize (fail_state w.now error state) ≡ some b'
      → fail_merge_with_status c states job_id error w
        ≡ (ok tt, record w { store = ended_store s.phase BatchPhase.failed job_id d' b' w.store })
  unfolding fail_merge_with_status load_status store_status
  fail_merge-IsHealthy job_id error d d' b b' s state w h at_status e es at_state f fs =
      let m1 = insert (status_key job_id) d' w.store in
      let m2 = after_index s.phase BatchPhase.failed job_id m1 in
      simp (
        get-IsHealthy (status_key job_id) w h,
        at_status,
        e,
        es,
        put-IsHealthy (status_key job_id) d' w h,
        update_phase_index-IsHealthy c job_id s.phase BatchPhase.failed (record w { store = m1 })
            (IsHealthy-write w m1 h),
        mark_state-IsHealthy job_id b b' (fail_state w.now error) state (record w { store = m2 })
            (IsHealthy-write w m2 h)
            (merge_state-here s.phase BatchPhase.failed job_id d' w.store ∙ at_state) f fs,
      )
