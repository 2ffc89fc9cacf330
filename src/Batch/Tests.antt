-- ===== src/Batch/Tests.antt =====
-- The batch modules at concrete inputs.
use roboflow.Batch.Operations.{Codecs, claim_named, claim_work_unit, fail_work_unit}
use roboflow.Batch.Operations.Claims.{
  claim_excludes, claim_work_unit_blocked, claim_work_unit_granted,
}
use roboflow.Batch.Operations.Units.{after_failure, fail_work_unit_requeues}
use roboflow.Batch.WorkUnit.{WorkUnit, claim, fail_unit, is_claimable}
use roboflow.Bytes.{Bytes, Lacks, beq, bytes_ltb, codes, in_range}
use roboflow.Codec.Table.{refusing, table_writes_second}
use roboflow.Prelude.{Option, [], arith, none, refl, some, true, ◌∷◌, ◌≡◌, ◌≢◌}
use roboflow.Samples.{
  WorkUnit-discrete, batch, broken_off, healthy, healthy-IsHealthy, in_progress, unit_id, units,
  waiting, worker,
}
use roboflow.Tikv.Error.{ok}
use roboflow.Tikv.Key.{pending_key, pending_key-ne-unit_key, pending_prefix, unit_key}
use roboflow.Tikv.Store.{Store, entries, insert, lookup, remove, scan_entries}

abbrev codecs : WorkUnit → WorkUnit → Codecs
codecs a b = record { units = units a b; statuses = refusing; specs = refusing }

in_progress-ne-waiting : in_progress ≢ waiting
in_progress-ne-waiting e = ground arith

batch_named : batch ≢ []
batch_named e = ground arith

batch-Lacks : Lacks b'/' batch
batch-Lacks = omega arith

-- A unit in the queue.
abbrev queued : Store
queued = insert (pending_key batch unit_id) batch (insert (unit_key batch unit_id) (1 ∷ []) [])

claim_excludes_example :
    let c = codecs waiting in_progress in
    let named : Option (Bytes × Bytes) = some (batch, unit_id) in
    let w' = (claim_named c worker (pending_key batch unit_id) named (healthy queued)).1 in
    ((claim_named c worker (pending_key batch unit_id) named (healthy queued)).0
      ≡ ok (some in_progress))
    × (claim_named c (codes "worker-2") (pending_key batch unit_id) named w' ≡ (ok none, w'))
unfolding lookup insert beq bytes_ltb in_range pending_key unit_key claim
claim_excludes_example =
    claim_excludes (codecs waiting in_progress) (healthy queued) batch unit_id (1 ∷ []) (2 ∷ [])
      waiting in_progress worker (codes "worker-2") (pending_key batch unit_id)
      (healthy-IsHealthy queued) refl refl ((pending_key-ne-unit_key batch unit_id).0) refl
      (table_writes_second WorkUnit-discrete waiting in_progress in_progress-ne-waiting)

claim_work_unit_granted_example :
    claim_work_unit (codecs waiting in_progress) worker (healthy queued) ≡ (
      ok (some in_progress),
      record (healthy queued) {
        store =
            remove (pending_key batch unit_id) (insert (unit_key batch unit_id) (2 ∷ []) queued);
      },
    )
unfolding lookup insert beq bytes_ltb in_range pending_key unit_key claim scan_entries entries
    pending_prefix
claim_work_unit_granted_example =
    claim_work_unit_granted (codecs waiting in_progress) (healthy queued) (healthy-IsHealthy queued)
      batch unit_id (1 ∷ []) waiting refl refl worker batch (2 ∷ []) in_progress batch_named
      batch-Lacks refl refl
      (table_writes_second WorkUnit-discrete waiting in_progress in_progress-ne-waiting)

claim_work_unit_blocked_example :
    claim_work_unit (codecs in_progress waiting) (codes "worker-2") (healthy queued)
    ≡ (ok none, healthy queued)
unfolding lookup insert beq bytes_ltb in_range pending_key unit_key is_claimable scan_entries
    entries pending_prefix
claim_work_unit_blocked_example =
    claim_work_unit_blocked (codecs in_progress waiting) (healthy queued) (healthy-IsHealthy queued)
      batch unit_id (1 ∷ []) in_progress refl refl (codes "worker-2") batch batch_named batch-Lacks
      refl refl

in_progress-ne-failed : broken_off (codes "disk") ≢ in_progress
in_progress-ne-failed e = ground arith

fail_work_unit_requeues_example :
    fail_work_unit
      (codecs in_progress (broken_off (codes "disk")))
      batch
      unit_id
      (codes "disk")
      (healthy queued)
    ≡ (
      ok true,
      record (healthy queued) { store = after_failure batch unit_id (2 ∷ []) in_progress queued },
    )
unfolding lookup insert beq bytes_ltb in_range pending_key unit_key fail_unit
fail_work_unit_requeues_example =
    fail_work_unit_requeues (codecs in_progress (broken_off (codes "disk"))) batch unit_id
      (codes "disk") (1 ∷ []) (2 ∷ []) in_progress (healthy queued) (healthy-IsHealthy queued) refl
      refl
      (table_writes_second WorkUnit-discrete in_progress (broken_off (codes "disk"))
        in_progress-ne-failed)
