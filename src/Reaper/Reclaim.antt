-- ===== src/Reaper/Reclaim.antt =====
-- What the reaper does to a work unit, and what it leaves undone.
use roboflow.Batch.WorkUnit.{WorkUnit, fail_unit, processing}
use roboflow.Bytes.{Bytes, beq_iff, beq_refl, codes}
use roboflow.Codec.{Codec}
use roboflow.Prelude.{Option, [], arith, none, refl, some, ℕ, ◌≡◌, ◌≢◌, ◌⊎◌}
use roboflow.Reaper.{
  ReaperConfig, reclaim, reclaim_processor, reclaim_result, reclaimed, skipped, take_back,
}
use roboflow.Tikv.Client.{Claim, claimed, unclaimed}
use roboflow.Tikv.Client.Healthy.{after_claim, transactional_claim-IsHealthy}
use roboflow.Tikv.Error.{ok}
use roboflow.Tikv.Heartbeat.{HeartbeatRecord}
use roboflow.Tikv.Key.{pending_key, pending_key-ne-unit_key, unit_key}
use roboflow.Tikv.Store.{insert, lookup, lookup-insert, lookup-remove, remove}
use roboflow.Tikv.World.{IsHealthy, World}

module _ (heartbeats : Codec HeartbeatRecord) (units : Codec WorkUnit) (config : ReaperConfig) where
  take_back_judged :
      (w : World) (batch_id unit_id owner d : Bytes) (r : Claim)
      → IsHealthy w
      → lookup (unit_key batch_id unit_id) w.store ≡ some d
      → reclaim_processor heartbeats units config owner w.now d ≡ r
      → take_back heartbeats units config batch_id unit_id owner w
        ≡ reclaim_result heartbeats units config
            (after_claim (unit_key batch_id unit_id) [] w (some (d, r)))
  unfolding take_back
  take_back_judged w batch_id unit_id owner d r h stored e = simp (
    transactional_claim-IsHealthy (unit_key batch_id unit_id) []
        (reclaim_processor heartbeats units config owner w.now) w h,
    stored,
    e,
  )

  -- A unit that is not being processed, or that another worker owns, is left alone.
  processor_skips :
      (owner d : Bytes) (now : ℕ) (u : WorkUnit)
      → units.deserialize d ≡ some u
      → (u.status ≢ processing) ⊎ (u.owner ≢ some owner)
      → reclaim_processor heartbeats units config owner now d ≡ unclaimed
  unfolding reclaim_processor
  processor_skips owner d now u e h = rw (e, reclaim_processor) (skips u.owner refl)
    where
      skips :
          (o : Option Bytes) → u.owner ≡ o → reclaim heartbeats units config owner now u ≡ unclaimed
      skips none p = ground arith
      skips (some o) p = ground (arith, beq_iff o owner)

  processor_takes :
      (owner d d' : Bytes) (now : ℕ) (u : WorkUnit)
      → units.deserialize d ≡ some u
      → u.status ≡ processing
      → u.owner ≡ some owner
      → units.serialize (fail_unit u (codes "Worker died during processing") now) ≡ some d'
      → reclaim_processor heartbeats units config owner now d ≡ claimed d'
  unfolding reclaim_processor
  processor_takes owner d d' now u e p o s =
      rw (e, reclaim_processor) (ground (arith, beq_refl owner))

  -- With a client that nothing stands in the way of, the reaper takes a stored unit only from the
  -- worker that it found stale: one that is not being processed any more, or that another worker
  -- has claimed meanwhile, it leaves with everything else in the store as it is.
  pub take_back_skips :
      (w : World) (batch_id unit_id owner d : Bytes) (u : WorkUnit)
      → IsHealthy w
      → lookup (unit_key batch_id unit_id) w.store ≡ some d
      → units.deserialize d ≡ some u
      → (u.status ≢ processing) ⊎ (u.owner ≢ some owner)
      → take_back heartbeats units config batch_id unit_id owner w ≡ (ok skipped, w)
  take_back_skips w batch_id unit_id owner d u h stored e p =
      take_back_judged w batch_id unit_id owner d unclaimed h stored
        (processor_skips owner d w.now u e p)

  -- With a client that nothing stands in the way of, a unit that is being processed by the stale
  -- worker and can be written back is stored as failed or dead, but not queued: where it had no
  -- pending key, as after a claim, it has none afterwards, whether or not it has an attempt left.
  pub take_back_not_queued :
      (w : World) (batch_id unit_id owner d d' : Bytes) (u : WorkUnit)
      → IsHealthy w
      → lookup (unit_key batch_id unit_id) w.store ≡ some d
      → units.deserialize d ≡ some u
      → u.status ≡ processing
      → u.owner ≡ some owner
      → units.serialize (fail_unit u (codes "Worker died during processing") w.now) ≡ some d'
      → lookup (pending_key batch_id unit_id) w.store ≡ none
      → let (r, w') = take_back heartbeats units config batch_id unit_id owner w in
        (r ≡ ok reclaimed)
        × (lookup (unit_key batch_id unit_id) w'.store ≡ some d')
        × (lookup (pending_key batch_id unit_id) w'.store ≡ none)
  take_back_not_queued w batch_id unit_id owner d d' u h stored e p o s queue =
      rw
        (take_back_judged w batch_id unit_id owner d (claimed d') h stored
          (processor_takes owner d d' w.now u e p o s))
        (refl, kept, absent)
    where
      k : Bytes
      k = unit_key batch_id unit_id

      j : Bytes
      j = pending_key batch_id unit_id

      kept : lookup k (remove [] (insert k d' w.store)) ≡ some d'
      kept = ground (
        arith,
        lookup-remove [] k (insert k d' w.store),
        lookup-insert k k d' w.store,
        beq_iff [] k,
        beq_refl k,
        pending_key-ne-unit_key batch_id unit_id,
      )

      absent : lookup j (remove [] (insert k d' w.store)) ≡ none
      absent = ground (
        arith,
        lookup-remove [] j (insert k d' w.store),
        lookup-insert k j d' w.store,
        beq_iff k j,
        pending_key-ne-unit_key batch_id unit_id,
      )
