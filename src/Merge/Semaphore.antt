-- ===== src/Merge/Semaphore.antt =====
-- The semaphore of merges: `MergeSemaphore` of crates/roboflow-distributed/src/merge/coordinator.rs.
-- What is shared through atomics and mutexes is one record, and every method runs whole. The times
-- in the queue are left out.
use roboflow.Bytes.{Bytes, beq}
use roboflow.Prelude.{
  Bool, List, [], false, if◌then◌else◌, length, ltb, true, ℕ, ◌%◌, ◌++◌, ◌+◌, ◌-◌, ◌^◌, ◌∷◌,
}

pub record MergeSemaphoreMetrics : Type 0 where
  pub available_permits : ℕ
  pub queue_depth : ℕ
  pub total_attempts : ℕ
  pub successful_merges : ℕ

pub record MergeSemaphore : Type 0 where
  pub max_permits : ℕ
  pub available : ℕ  -- u32
  pub pending : List Bytes
  pub metrics : MergeSemaphoreMetrics

unfoldable pub new_semaphore : ℕ → MergeSemaphore
new_semaphore max_permits = record {
  max_permits = max_permits;
  available = max_permits % 2 ^ 32;
  pending = [];
  metrics = record {
    available_permits = max_permits;
    queue_depth = 0;
    total_attempts = 0;
    successful_merges = 0;
  };
}

-- `MergeSemaphore::try_acquire` around `MergeSemaphoreInner::try_acquire`: whether there is a
-- permit.
unfoldable pub try_acquire_permit : MergeSemaphore → Bool × MergeSemaphore
try_acquire_permit s =
    let attempts = s.metrics.total_attempts + 1 in
    if ltb 0 s.available
    then (
      true,
      record s {
        available = s.available - 1;
        metrics = record s.metrics {
          total_attempts = attempts;
          available_permits = s.available - 1;
        };
      },
    )
    else (
      false,
      record s { metrics = record s.metrics { total_attempts = attempts; available_permits = 0 } },
    )

-- The drop of a permit.
unfoldable pub release_permit : MergeSemaphore → MergeSemaphore
release_permit s =
    if ltb s.available (s.max_permits % 2 ^ 32) then record s { available = s.available + 1 } else s

unfoldable pub enqueue_pending : Bytes → MergeSemaphore → MergeSemaphore
enqueue_pending batch_id s =
    let queue = s.pending ++ batch_id ∷ [] in
    record s { pending = queue; metrics = record s.metrics { queue_depth = length queue } }

-- `retain`.
unfoldable pub without : Bytes → List Bytes → List Bytes
without batch_id [] = []
without batch_id (id ∷ ids) =
    if beq id batch_id then without batch_id ids else id ∷ without batch_id ids

unfoldable pub dequeue_pending : Bytes → MergeSemaphore → MergeSemaphore
unfolding without
dequeue_pending batch_id s =
    let queue = without batch_id s.pending in
    record s { pending = queue; metrics = record s.metrics { queue_depth = length queue } }

unfoldable pub record_merge : MergeSemaphore → MergeSemaphore
record_merge s = record s {
  metrics = record s.metrics { successful_merges = s.metrics.successful_merges + 1 };
}

-- `MergeCoordinator::try_acquire_merge_permit`.
unfoldable pub try_acquire_merge_permit : Bytes → MergeSemaphore → Bool × MergeSemaphore
unfolding try_acquire_permit dequeue_pending enqueue_pending
try_acquire_merge_permit job_id s =
    let (got, s') = try_acquire_permit s in
    if got then (true, dequeue_pending job_id s') else (false, enqueue_pending job_id s')
