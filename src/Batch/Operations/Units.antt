-- ===== src/Batch/Operations/Units.antt =====
-- Work units that fail, batches that are left alone, and keys that reach too far.
use roboflow.Batch.Operations.{Codecs, fail_work_unit, reconcile_from, requeue}
use roboflow.Batch.Spec.{BatchSpec}
use roboflow.Batch.Status.{BatchStatus, cancelled, complete}
use roboflow.Batch.WorkUnit.{WorkUnit, fail_unit}
use roboflow.Bytes.{Bytes, IsText, codes, in_range-starts_with, starts_with-append}
use roboflow.Prelude.{
  Bool-cases, [], append_assoc, arith, if◌then◌else◌, inl, inr, leb, ltb, some, true, ℕ, ◌++◌, ◌∷◌,
  ◌≡◌, ◌⊎◌,
}
use roboflow.Tikv.Client.Healthy.{IsHealthy-write, get-IsHealthy, put-IsHealthy}
use roboflow.Tikv.Error.{ok}
use roboflow.Tikv.Key.{batch_prefix, pending_key, unit_key}
use roboflow.Tikv.Store.{Store, entries, insert, lookup}
use roboflow.Tikv.World.{IsHealthy, World, return, ◌>>◌}

-- The store after a unit has failed: the unit is saved, and queued again if it has an attempt left.
abbrev pub after_failure : Bytes → Bytes → Bytes → WorkUnit → Store → Store
after_failure batch_id unit_id d' u m =
    let saved = insert (unit_key batch_id unit_id) d' m in
    if ltb u.attempts u.max_attempts
    then insert (pending_key batch_id unit_id) batch_id saved
    else saved

requeued :
    (c : Codecs) (batch_id unit_id error : Bytes) (u : WorkUnit) (w : World)
    → IsHealthy w
    → (requeue c batch_id unit_id (fail_unit u error w.now).status >> return true) w ≡ (
      ok true,
      record w {
        store =
            if ltb u.attempts u.max_attempts
            then insert (pending_key batch_id unit_id) batch_id w.store
            else w.store;
      },
    )
unfolding fail_unit
requeued c batch_id unit_id error u w h = elim (Bool-cases (leb u.max_attempts u.attempts)) [
  | inl spent ↦ rw spent (ground arith)
  | inr left ↦ rw left (ground (arith, put-IsHealthy (pending_key batch_id unit_id) batch_id w h))
]

-- With a client that nothing stands in the way of, a stored unit that fails and can be written
-- back is saved and, exactly if it has an attempt left, put back into the queue; the other keys
-- stay.
pub fail_work_unit_requeues :
    (c : Codecs) (batch_id unit_id error d d' : Bytes) (u : WorkUnit) (w : World)
    → IsHealthy w
    → lookup (unit_key batch_id unit_id) w.store ≡ some d
    → c.units.deserialize d ≡ some u
    → c.units.serialize (fail_unit u error w.now) ≡ some d'
    → fail_work_unit c batch_id unit_id error w
      ≡ (ok true, record w { store = after_failure batch_id unit_id d' u w.store })
unfolding fail_work_unit
fail_work_unit_requeues c batch_id unit_id error d d' u w h stored e s =
    simp
      (
        get-IsHealthy (unit_key batch_id unit_id) w h,
        stored,
        e,
        s,
        put-IsHealthy (unit_key batch_id unit_id) d' w h,
      )
      (requeued c batch_id unit_id error u
        (record w { store = insert (unit_key batch_id unit_id) d' w.store })
        (IsHealthy-write w _ h))

-- A batch that is complete or cancelled is left alone: its status and the rest of the store stay.
pub reconcile_from_skips :
    (c : Codecs) (timeout_secs : ℕ) (spec : BatchSpec) (s : BatchStatus) (w : World)
    → (s.phase ≡ complete) ⊎ (s.phase ≡ cancelled)
    → reconcile_from c timeout_secs spec s w ≡ (ok tt, w)
unfolding reconcile_from
reconcile_from_skips c timeout_secs spec s w p = ground arith

IsText-append : (a b : Bytes) → IsText a → IsText b → IsText (a ++ b)
IsText-append [] b h k = k
IsText-append (x ∷ a) b h k = (h.0, IsText-append a b h.1 k)

unit_key-IsText :
    (batch_id unit_id : Bytes)
    → IsText batch_id
    → IsText unit_id
    → IsText (unit_key batch_id unit_id)
unfolding unit_key
unit_key-IsText batch_id unit_id h k =
    IsText-append (codes "/roboflow/v1/batch/workunits/") (batch_id ++ b'/' ∷ unit_id) (omega arith)
      (IsText-append batch_id (b'/' ∷ unit_id) h (omega arith, k))

unit_key-batch_prefix :
    (batch_id more unit_id : Bytes)
    → unit_key (batch_id ++ more) unit_id ≡ batch_prefix batch_id ++ (more ++ b'/' ∷ unit_id)
unfolding unit_key batch_prefix
unit_key-batch_prefix batch_id more unit_id = cc (append_assoc batch_id more (b'/' ∷ unit_id))

-- The prefix under which the units of a batch are scanned has no slash at its end: the scan also
-- finds every unit of every batch whose name only begins with this batch's name.
pub batch_prefix_reaches :
    (batch_id more unit_id v : Bytes) (m : Store)
    → IsText (batch_id ++ more)
    → IsText unit_id
    → entries (batch_prefix batch_id) ((unit_key (batch_id ++ more) unit_id, v) ∷ m)
      ≡ (unit_key (batch_id ++ more) unit_id, v) ∷ entries (batch_prefix batch_id) m
unfolding entries
batch_prefix_reaches batch_id more unit_id v m h k = ground (
  arith,
  in_range-starts_with (batch_prefix batch_id) (unit_key (batch_id ++ more) unit_id)
      (unit_key-IsText (batch_id ++ more) unit_id h k),
  unit_key-batch_prefix batch_id more unit_id,
  starts_with-append (batch_prefix batch_id) (more ++ b'/' ∷ unit_id),
)
