-- ===== src/Merge/Permits.antt =====
-- How many merges may run at once: the semaphore of
-- crates/roboflow-distributed/src/merge/coordinator.rs over any requests and drops.
use roboflow.Bytes.{Bytes}
use roboflow.Merge.Semaphore.{
  MergeSemaphore, dequeue_pending, enqueue_pending, new_semaphore, release_permit,
  try_acquire_merge_permit, try_acquire_permit,
}
use roboflow.Prelude.{
  List, [], arith, false, if◌then◌else◌, ltb, suc, true, zero, ℕ, ◌%◌, ◌+◌, ◌^◌, ◌∷◌, ◌≡◌, ◌≤◌,
}

pub data PermitOp : Type 0 where
  request : Bytes → PermitOp
  drop_permit : PermitOp

-- The semaphore and how many permits are held.
abbrev pub permit_step : PermitOp → MergeSemaphore × ℕ → MergeSemaphore × ℕ
permit_step (request job_id) (s, held) =
    let (got, s') = try_acquire_merge_permit job_id s in (s', if got then held + 1 else held)
permit_step drop_permit (s, zero) = (s, zero)
permit_step drop_permit (s, suc held) = (release_permit s, held)

abbrev pub permit_run : List PermitOp → MergeSemaphore × ℕ → MergeSemaphore × ℕ
permit_run [] x = x
permit_run (op ∷ ops) x = permit_run ops (permit_step op x)

pub record Permits (max_permits : ℕ) (x : MergeSemaphore × ℕ) : Type 0 where
  pub same_max : x.0.max_permits ≡ max_permits
  pub accounted : x.0.available + x.1 ≡ max_permits % 2 ^ 32

permit_step-Permits :
    (n : ℕ) (op : PermitOp) (s : MergeSemaphore) (held : ℕ)
    → Permits n (s, held)
    → Permits n (permit_step op (s, held))
unfolding try_acquire_merge_permit try_acquire_permit dequeue_pending enqueue_pending release_permit
permit_step-Permits n (request job_id) s held h = ground arith
permit_step-Permits n drop_permit s zero h = h
permit_step-Permits n drop_permit s (suc held) h = ground arith

permit_run-Permits :
    (n : ℕ) (ops : List PermitOp) (s : MergeSemaphore) (held : ℕ)
    → Permits n (s, held)
    → Permits n (permit_run ops (s, held))
permit_run-Permits n [] s held h = h
permit_run-Permits n (op ∷ ops) s held h =
    permit_run-Permits n ops _ _ (permit_step-Permits n op s held h)

-- After any requests and drops from a new semaphore, the permits that are free and those that are
-- held add up to the maximum, as a 32-bit number, and the next request is granted exactly if fewer
-- are held.
pub permits_bounded :
    (max_permits : ℕ) (ops : List PermitOp) (job_id : Bytes)
    → let x = permit_run ops (new_semaphore max_permits, 0) in
      (x.0.available + x.1 ≡ max_permits % 2 ^ 32)
      × ((try_acquire_merge_permit job_id x.0).0 ≡ ltb x.1 (max_permits % 2 ^ 32))
unfolding try_acquire_merge_permit try_acquire_permit new_semaphore
permits_bounded max_permits ops job_id =
    let h = permit_run-Permits max_permits ops (new_semaphore max_permits) 0 (ground arith) in
    (h.accounted, ground arith)

pub acquired :
    (job_id : Bytes) (s : MergeSemaphore)
    → ltb 0 s.available ≡ true
    → ((try_acquire_merge_permit job_id s).0 ≡ true)
      × ((try_acquire_merge_permit job_id s).1.available + 1 ≡ s.available)
      × ((try_acquire_merge_permit job_id s).1.max_permits ≡ s.max_permits)
unfolding try_acquire_merge_permit try_acquire_permit dequeue_pending
acquired job_id s e = ground arith

pub unavailable :
    (job_id : Bytes) (s : MergeSemaphore)
    → ltb 0 s.available ≡ false
    → ((try_acquire_merge_permit job_id s).0 ≡ false)
      × ((try_acquire_merge_permit job_id s).1.available ≡ s.available)
unfolding try_acquire_merge_permit try_acquire_permit enqueue_pending
unavailable job_id s e = ground arith

pub release_restores :
    (s : MergeSemaphore) (n : ℕ)
    → s.available + 1 ≡ n
    → n ≤ s.max_permits % 2 ^ 32
    → (release_permit s).available ≡ n
unfolding release_permit
release_restores s n e h = ground arith
