-- ===== src/Reaper/Tests.antt =====
-- The reaper at concrete inputs.
use roboflow.Batch.WorkUnit.{WorkUnit, fail_unit}
use roboflow.Bytes.{beq, bytes_ltb, codes}
use roboflow.Codec.Table.{refusing, table_writes_second}
use roboflow.Prelude.{[], arith, none, refl, some, ◌∷◌, ◌≡◌, ◌≢◌}
use roboflow.Reaper.{ReaperConfig, reclaimed, take_back}
use roboflow.Reaper.Reclaim.{take_back_not_queued}
use roboflow.Samples.{
  WorkUnit-discrete, batch, broken_off, healthy, healthy-IsHealthy, in_progress, unit_id, units,
  worker,
}
use roboflow.Tikv.Error.{ok}
use roboflow.Tikv.Key.{pending_key, unit_key}
use roboflow.Tikv.Store.{Store, insert, lookup}

abbrev config : ReaperConfig
config = record { stale_threshold = 60; max_reclaims_per_iteration = 10; max_work_unit_scan = 1000 }

abbrev claimed_store : Store
claimed_store = insert (unit_key batch unit_id) (1 ∷ []) []

abbrev lost : WorkUnit
lost = broken_off (codes "Worker died during processing")

lost-ne-in_progress : lost ≢ in_progress
lost-ne-in_progress e = ground arith

take_back_not_queued_example :
    let (r, w') =
      take_back refusing
        (units in_progress lost)
        config
        batch
        unit_id
        worker
        (healthy claimed_store) in
    (r ≡ ok reclaimed)
    × (lookup (unit_key batch unit_id) w'.store ≡ some (2 ∷ []))
    × (lookup (pending_key batch unit_id) w'.store ≡ none)
unfolding lookup insert unit_key pending_key beq bytes_ltb fail_unit
take_back_not_queued_example =
    take_back_not_queued refusing (units in_progress lost) config (healthy claimed_store) batch
      unit_id worker (1 ∷ []) (2 ∷ []) in_progress (healthy-IsHealthy claimed_store) refl refl refl
      refl (table_writes_second WorkUnit-discrete in_progress lost lost-ne-in_progress) refl
