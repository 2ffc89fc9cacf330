-- ===== src/Merge/Stores.antt =====
-- What the steps of a merge do to the store of a client that nothing stands in the way of, and
-- which keys they leave alone.
use roboflow.Batch.Operations.{Codecs, phase_key, update_phase_index}
use roboflow.Batch.Status.{BatchPhase, phase_eq}
use roboflow.Bytes.{Bytes, beq, beq_refl}
use roboflow.Merge.Coordinator.{merge_state_key}
use roboflow.Prelude.{Bool-cases, [], false, if◌then◌else◌, inl, inr, refl, some, ◌≡◌}
use roboflow.Tikv.Client.Healthy.{IsHealthy-write, delete-IsHealthy, put-IsHealthy}
use roboflow.Tikv.Error.{ok}
use roboflow.Tikv.Key.{build, status_key}
use roboflow.Tikv.Store.{Store, insert, lookup, lookup-insert, lookup-remove, remove}
use roboflow.Tikv.World.{IsHealthy, World}

-- The store after `update_phase_index`.
abbrev pub after_index : BatchPhase → BatchPhase → Bytes → Store → Store
after_index p q batch_id m =
    if phase_eq p q then m else remove (phase_key p batch_id) (insert (phase_key q batch_id) [] m)

pub update_phase_index-IsHealthy :
    (c : Codecs) (batch_id : Bytes) (p q : BatchPhase) (w : World)
    → IsHealthy w
    → update_phase_index c batch_id p q w
      ≡ (ok tt, record w { store = after_index p q batch_id w.store })
unfolding update_phase_index
update_phase_index-IsHealthy c batch_id p q w h = elim (Bool-cases (phase_eq p q)) [
  | inl e ↦ rw e refl
  | inr e ↦ rw e (
      simp (
        put-IsHealthy (phase_key q batch_id) [] w h,
        delete-IsHealthy (phase_key p batch_id)
            (record w { store = insert (phase_key q batch_id) [] w.store }) (IsHealthy-write w _ h),
      ))
]

status_key-ne-phase_key :
    (p : BatchPhase) (batch_id n : Bytes) → beq (phase_key p n) (status_key batch_id) ≡ false
unfolding phase_key status_key beq
status_key-ne-phase_key p batch_id n = refl

merge_state_key-ne-phase_key :
    (p : BatchPhase) (job_id n : Bytes) → beq (phase_key p n) (merge_state_key job_id) ≡ false
unfolding phase_key merge_state_key beq build
merge_state_key-ne-phase_key p job_id n = refl

pub merge_state_key-ne-status_key :
    (job_id n : Bytes)
    → (beq (status_key n) (merge_state_key job_id) ≡ false)
      × (beq (merge_state_key job_id) (status_key n) ≡ false)
unfolding status_key merge_state_key beq
merge_state_key-ne-status_key job_id n = (refl, refl)

-- The index of phases is apart from the statuses and the states of merges.
pub lookup-after_index :
    (p q : BatchPhase) (n k : Bytes) (m : Store)
    → ((r : BatchPhase) → beq (phase_key r n) k ≡ false)
    → lookup k (after_index p q n m) ≡ lookup k m
lookup-after_index p q n k m apart = elim (Bool-cases (phase_eq p q)) [
  | inl e ↦ rw e refl
  | inr e ↦
      rw
        (
          e,
          lookup-remove (phase_key p n) k (insert (phase_key q n) [] m),
          apart p,
          lookup-insert (phase_key q n) k [] m,
          apart q,
        )
        refl
]

pub status-after_index :
    (p q : BatchPhase) (n batch_id : Bytes) (m : Store)
    → lookup (status_key batch_id) (after_index p q n m) ≡ lookup (status_key batch_id) m
status-after_index p q n batch_id m =
    lookup-after_index p q n (status_key batch_id) m (λ r. status_key-ne-phase_key r batch_id n)

pub merge_state-after_index :
    (p q : BatchPhase) (n job_id : Bytes) (m : Store)
    → lookup (merge_state_key job_id) (after_index p q n m) ≡ lookup (merge_state_key job_id) m
merge_state-after_index p q n job_id m =
    lookup-after_index p q n (merge_state_key job_id) m
      (λ r. merge_state_key-ne-phase_key r job_id n)

-- What is written is read back, and one key's value does not touch the other's.
pub lookup-insert-same : (k v : Bytes) (m : Store) → lookup k (insert k v m) ≡ some v
lookup-insert-same k v m = rw (lookup-insert k k v m, beq_refl k) refl

pub status-insert :
    (batch_id job_id v : Bytes) (m : Store)
    → lookup (status_key batch_id) (insert (merge_state_key job_id) v m)
      ≡ lookup (status_key batch_id) m
status-insert batch_id job_id v m =
    rw
      (
        lookup-insert (merge_state_key job_id) (status_key batch_id) v m,
        (merge_state_key-ne-status_key job_id batch_id).1,
      )
      refl

pub merge_state-insert :
    (job_id batch_id v : Bytes) (m : Store)
    → lookup (merge_state_key job_id) (insert (status_key batch_id) v m)
      ≡ lookup (merge_state_key job_id) m
merge_state-insert job_id batch_id v m =
    rw
      (
        lookup-insert (status_key batch_id) (merge_state_key job_id) v m,
        (merge_state_key-ne-status_key job_id batch_id).0,
      )
      refl
