-- ===== src/Reaper.antt =====
-- The zombie reaper: crates/roboflow-distributed/src/reaper.rs, without its metrics, its loop and
-- its shutdown.
mod Tests
pub mod Reclaim
use roboflow.Batch.WorkUnit.{WorkUnit, WorkUnitStatus, fail_unit, processing}
use roboflow.Bytes.{Bytes, beq, codes}
use roboflow.Codec.{Codec}
use roboflow.Prelude.{
  Bool, List, Option, [], false, if◌then◌else◌, none, not, some, take, true, ℕ, ◌&&◌, ◌+◌, ◌||◌,
  ◌∷◌,
}
use roboflow.Tikv.Client.{Claim, broken, claimed, get, scan, transactional_claim, unclaimed}
use roboflow.Tikv.Error.{Result, err, ok}
use roboflow.Tikv.Heartbeat.{HeartbeatRecord, is_stale}
use roboflow.Tikv.Key.{heartbeat_key, heartbeat_prefix, unit_key, units_prefix}
use roboflow.Tikv.Store.{Store}
use roboflow.Tikv.World.{M, World, read_now, return, ◌>>=◌, ◌>>◌}

pub record ReaperConfig : Type 0 where
  pub stale_threshold : ℕ  -- seconds
  pub max_reclaims_per_iteration : ℕ
  pub max_work_unit_scan : ℕ

pub data ReclaimResult : Type 0 where
  reclaimed not_stale not_processing reclaim_failed skipped : ReclaimResult

pub record Orphan : Type 0 where
  pub unit_id : Bytes
  pub batch_id : Bytes
  pub owner : Bytes

unfoldable pub is_among : Bytes → List Bytes → Bool
is_among b [] = false
is_among b (x ∷ xs) = beq b x || is_among b xs

abbrev is_processing : WorkUnitStatus → Bool
is_processing processing = true
is_processing _ = false

module _ (heartbeats : Codec HeartbeatRecord) (units : Codec WorkUnit) (config : ReaperConfig) where
  abbrev stale_pod : Option HeartbeatRecord → ℕ → List Bytes → List Bytes
  stale_pod none now rest = rest
  stale_pod (some r) now rest =
      if is_stale r config.stale_threshold now then r.pod_id ∷ rest else rest

  unfoldable pub stale_pods : Store → ℕ → List Bytes
  unfolding is_stale
  stale_pods [] now = []
  stale_pods ((k, v) ∷ es) now = stale_pod (heartbeats.deserialize v) now (stale_pods es now)

  unfoldable pub find_stale_workers : M (List Bytes)
  unfolding stale_pods
  find_stale_workers = do
    results ← scan heartbeat_prefix 1000
    now ← read_now
    return (stale_pods results now)

  abbrev orphan_of : List Bytes → WorkUnit → Option Bytes → List Orphan → List Orphan
  orphan_of stale u none rest = rest
  orphan_of stale u (some owner) rest =
      if is_processing u.status && is_among owner stale
      then record { unit_id = u.id; batch_id = u.batch_id; owner = owner } ∷ rest
      else rest

  abbrev orphan_in : List Bytes → Option WorkUnit → List Orphan → List Orphan
  orphan_in stale none rest = rest
  orphan_in stale (some u) rest = orphan_of stale u u.owner rest

  unfoldable pub orphans : List Bytes → Store → List Orphan
  unfolding is_among
  orphans stale [] = []
  orphans stale ((k, v) ∷ es) = orphan_in stale (units.deserialize v) (orphans stale es)

  scan_orphans : List Bytes → M (List Orphan)
  unfolding orphans
  scan_orphans [] = return []
  scan_orphans (p ∷ ps) = do
    results ← scan units_prefix config.max_work_unit_scan
    return (orphans (p ∷ ps) results)

  unfoldable pub find_orphaned_work_units : M (List Orphan)
  unfolding find_stale_workers scan_orphans
  find_orphaned_work_units = do stale ← find_stale_workers; scan_orphans stale

  abbrev owned_by : Bytes → Option Bytes → Bool
  owned_by owner none = false
  owned_by owner (some o) = beq o owner

  abbrev rewritten : Option Bytes → Claim
  rewritten none = broken (codes "Claim processor failed")
  rewritten (some b) = claimed b

  abbrev pub reclaim : Bytes → ℕ → WorkUnit → Claim
  reclaim owner now u =
      if not (is_processing u.status)
      then unclaimed
      else if not (owned_by owner u.owner)
      then unclaimed
      else rewritten (units.serialize (fail_unit u (codes "Worker died during processing") now))

  -- The closure that `reclaim_work_unit` hands to the transaction.
  unfoldable pub reclaim_processor : Bytes → ℕ → Bytes → Claim
  reclaim_processor owner now b = elim (units.deserialize b) [
    | none ↦ broken (codes "Claim processor failed")
    | some u ↦ reclaim owner now u
  ]

  -- The owner's heartbeat is read, and is not stale. A missing or unreadable one counts as stale.
  abbrev is_fresh : ℕ → Option HeartbeatRecord → Bool
  is_fresh now none = false
  is_fresh now (some r) = not (is_stale r config.stale_threshold now)

  abbrev decode_heartbeat : Option Bytes → Option HeartbeatRecord
  decode_heartbeat none = none
  decode_heartbeat (some b) = heartbeats.deserialize b

  abbrev pub reclaim_result : Result (Option Bytes) × World → Result ReclaimResult × World
  reclaim_result (ok (some b), w) = (ok reclaimed, w)
  reclaim_result (ok none, w) = (ok skipped, w)
  reclaim_result (err e, w) = (ok reclaim_failed, w)

  -- The pending key of the transaction is empty: there is none to delete.
  unfoldable pub take_back : Bytes → Bytes → Bytes → M ReclaimResult
  take_back batch_id unit_id owner w =
      reclaim_result
        (transactional_claim (unit_key batch_id unit_id) [] (reclaim_processor owner w.now) w)

  unfoldable pub reclaim_work_unit : Bytes → Bytes → Bytes → M ReclaimResult
  reclaim_work_unit batch_id unit_id owner = do
    found ← get (heartbeat_key owner)
    now ← read_now
    if is_fresh now (decode_heartbeat found)
        then return not_stale
        else take_back batch_id unit_id owner

  abbrev one_if_reclaimed : ReclaimResult → ℕ
  one_if_reclaimed reclaimed = 1
  one_if_reclaimed _ = 0

  unfoldable pub reclaim_each : List Orphan → ℕ → M ℕ
  unfolding reclaim_work_unit take_back
  reclaim_each [] count = return count
  reclaim_each (o ∷ os) count = do
    r ← reclaim_work_unit o.batch_id o.unit_id o.owner
    reclaim_each os (count + one_if_reclaimed r)

  unfoldable pub run_iteration : M ℕ
  unfolding find_orphaned_work_units reclaim_each
  run_iteration = do
    found ← find_orphaned_work_units
    reclaim_each (take config.max_reclaims_per_iteration found) 0
