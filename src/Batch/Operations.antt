-- ===== src/Batch/Operations.antt =====
-- What the controller does to the store: crates/roboflow-distributed/src/batch/controller.rs and
-- `update_phase_index` of crates/roboflow-distributed/src/batch/mod.rs. Texts that the code builds
-- by `format!` are their literal parts.
pub mod Claims
pub mod Units
use roboflow.Batch.Controller.{reconcile_phase}
use roboflow.Batch.Spec.{BatchSpec, batch_id_from_spec}
use roboflow.Batch.Status.{
  BatchPhase, BatchStatus, cancelled, complete, discovering, failed, is_active, merging, new,
  pending, phase_eq, running, suspended, suspending, transition_to,
}
use roboflow.Batch.WorkUnit.{
  ClaimResult, WorkUnit, WorkUnitStatus, claim, claim_refused, claimed_unit, complete_unit,
  fail_unit,
}
use roboflow.Bytes.{Bytes, codes, split_once, strip_prefix, trim_start_matches}
use roboflow.Codec.{Codec}
use roboflow.Prelude.{Bool, Option, [], false, if◌then◌else◌, none, not, some, true, ℕ, ◌&&◌, ◌∷◌}
use roboflow.Tikv.Client.{
  Claim, broken, claimed, delete, get, put, scan, transactional_claim, unclaimed,
}
use roboflow.Tikv.Error.{TikvError, deserialization, serialization}
use roboflow.Tikv.Key.{build, pending_key, pending_prefix, status_key, unit_key}
use roboflow.Tikv.Store.{Store}
use roboflow.Tikv.World.{M, fail, read_now, return, ◌>>=◌, ◌>>◌}

abbrev phase_name : BatchPhase → Bytes
phase_name pending = codes "Pending"
phase_name discovering = codes "Discovering"
phase_name running = codes "Running"
phase_name merging = codes "Merging"
phase_name complete = codes "Complete"
phase_name failed = codes "Failed"
phase_name cancelled = codes "Cancelled"
phase_name suspending = codes "Suspending"
phase_name suspended = codes "Suspended"

unfoldable pub phase_key : BatchPhase → Bytes → Bytes
phase_key p batch_id =
    build (codes "batch" ∷ codes "index" ∷ codes "phase" ∷ phase_name p ∷ batch_id ∷ [])

-- The serializers of what the controller stores.
pub record Codecs : Type 0 where
  pub units : Codec WorkUnit
  pub statuses : Codec BatchStatus
  pub specs : Codec BatchSpec

abbrev pub or_fail : {A : Type 0} → TikvError → Option A → M A
or_fail e none = fail e
or_fail e (some a) = return a

module _ (c : Codecs) where
  unfoldable pub save_status : Bytes → BatchStatus → M (Unit {0})
  save_status batch_id s = do
    bytes ← or_fail (serialization (codes "batch status")) (c.statuses.serialize s)
    put (status_key batch_id) bytes

  abbrev decode_status : Option Bytes → M (Option BatchStatus)
  decode_status none = return none
  decode_status (some b) = do
    s ← or_fail (deserialization (codes "batch status")) (c.statuses.deserialize b)
    return (some s)

  unfoldable pub get_batch_status : Bytes → M (Option BatchStatus)
  get_batch_status batch_id = do found ← get (status_key batch_id); decode_status found

  unfoldable pub update_phase_index : Bytes → BatchPhase → BatchPhase → M (Unit {0})
  update_phase_index batch_id old_phase new_phase =
      if phase_eq old_phase new_phase
      then return tt
      else (do put (phase_key new_phase batch_id) []; delete (phase_key old_phase batch_id))

  abbrev skips : BatchPhase → Bool
  skips complete = true
  skips cancelled = true
  skips _ = false

  abbrev or_new : ℕ → Option BatchStatus → BatchStatus
  or_new now none = new now
  or_new now (some s) = s

  -- `reconcile_batch`, from the status that it has read.
  unfoldable pub reconcile_from : ℕ → BatchSpec → BatchStatus → M (Unit {0})
  unfolding save_status update_phase_index
  reconcile_from timeout_secs spec s = if skips s.phase then return tt else (do
    s' ← reconcile_phase c.units timeout_secs spec s
    save_status (batch_id_from_spec spec) s'
    update_phase_index (batch_id_from_spec spec) s.phase s'.phase)

  unfoldable pub reconcile_batch : ℕ → Bytes → M (Unit {0})
  reconcile_batch timeout_secs spec_data = do
    spec ← or_fail (deserialization (codes "batch spec")) (c.specs.deserialize spec_data)
    found ← get_batch_status (batch_id_from_spec spec)
    now ← read_now
    reconcile_from timeout_secs spec (or_new now found)

  abbrev cancel_from : Bytes → Option BatchStatus → M Bool
  cancel_from batch_id none = return false
  cancel_from batch_id (some s) =
      if not (is_active s.phase) && not (phase_eq s.phase pending) then return false else (do
        now ← read_now
        save_status batch_id (transition_to s cancelled now)
        update_phase_index batch_id s.phase cancelled
        return true)

  unfoldable pub cancel_batch : Bytes → M Bool
  cancel_batch batch_id = do found ← get_batch_status batch_id; cancel_from batch_id found

  -- The batch and unit that a pending key names.
  unfoldable pub parse_pending : Bytes → Option (Bytes × Bytes)
  parse_pending key = elim (strip_prefix pending_prefix key) [
    | none ↦ none
    | some suffix ↦ split_once b'/' (trim_start_matches b'/' suffix)
  ]

  abbrev rewrite_claimed : Option Bytes → Claim
  rewrite_claimed none = broken (codes "Claim processor failed")
  rewrite_claimed (some b) = claimed b

  abbrev process_result : ClaimResult → Claim
  process_result (claim_refused e) = unclaimed
  process_result (claimed_unit u) = rewrite_claimed (c.units.serialize u)

  -- The closure that `claim_work_unit` hands to the transaction.
  unfoldable pub claim_processor : Bytes → ℕ → Bytes → Claim
  claim_processor worker_id now b = elim (c.units.deserialize b) [
    | none ↦ broken (codes "Claim processor failed")
    | some u ↦ process_result (claim u worker_id now)
  ]

  abbrev pub read_claimed : Option Bytes → M (Option WorkUnit)
  read_claimed none = return none
  read_claimed (some b) = do
    u ← or_fail (deserialization (codes "work unit")) (c.units.deserialize b)
    return (some u)

  unfoldable pub claim_named : Bytes → Bytes → Option (Bytes × Bytes) → M (Option WorkUnit)
  claim_named worker_id key none = return none
  claim_named worker_id key (some (batch_id, unit_id)) = do
    now ← read_now
    result ← transactional_claim (unit_key batch_id unit_id) key (claim_processor worker_id now)
    read_claimed result

  claim_first : Bytes → Store → M (Option WorkUnit)
  unfolding claim_named
  claim_first worker_id [] = return none
  claim_first worker_id ((key, v) ∷ es) = claim_named worker_id key (parse_pending key)

  unfoldable pub claim_work_unit : Bytes → M (Option WorkUnit)
  unfolding claim_first
  claim_work_unit worker_id = do first ← scan pending_prefix 1; claim_first worker_id first

  -- Reads the unit, changes it and writes it back; `none` when there is no such unit.
  abbrev with_unit : Bytes → (WorkUnit → M Bool) → M Bool
  with_unit key f = do
    found ← get key
    elim found [
      | none ↦ return false
      | some b ↦ or_fail (deserialization (codes "work unit")) (c.units.deserialize b) >>= f
    ]

  unfoldable pub complete_work_unit : Bytes → Bytes → M Bool
  complete_work_unit batch_id unit_id = with_unit (unit_key batch_id unit_id) λ u. do
    now ← read_now
    bytes ← or_fail (serialization (codes "work unit")) (c.units.serialize (complete_unit u now))
    put (unit_key batch_id unit_id) bytes
    return true

  -- Only a failed unit is put back into the queue; a dead one is not.
  abbrev pub requeue : Bytes → Bytes → WorkUnitStatus → M (Unit {0})
  requeue batch_id unit_id WorkUnitStatus.failed = put (pending_key batch_id unit_id) batch_id
  requeue batch_id unit_id _ = return tt

  -- The unit is saved before its pending key.
  unfoldable pub fail_work_unit : Bytes → Bytes → Bytes → M Bool
  fail_work_unit batch_id unit_id error = with_unit (unit_key batch_id unit_id) λ u. do
    now ← read_now
    bytes ← or_fail (serialization (codes "work unit")) (c.units.serialize (fail_unit u error now))
    put (unit_key batch_id unit_id) bytes
    requeue batch_id unit_id (fail_unit u error now).status
    return true
