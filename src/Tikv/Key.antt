-- ===== src/Tikv/Key.antt =====
-- The keys of the store: crates/roboflow-distributed/src/tikv/key.rs and
-- crates/roboflow-distributed/src/batch/key.rs.
use roboflow.Bytes.{Bytes, codes}
use roboflow.Prelude.{List, [], arith, refl, ◌++◌, ◌∷◌, ◌≡◌, ◌≢◌}

-- `KEY_PREFIX` with its last `/` trimmed.
abbrev key_prefix : Bytes
key_prefix = codes "/roboflow/v1"

unfoldable pub build_with_prefix : Bytes → List Bytes → Bytes
build_with_prefix key [] = key
build_with_prefix key (part ∷ parts) = build_with_prefix (key ++ b'/' ∷ part) parts

-- The key builder with these parts pushed.
unfoldable pub build : List Bytes → Bytes
unfolding build_with_prefix
build parts = build_with_prefix key_prefix parts

unfoldable pub lock_key : Bytes → Bytes
unfolding build
lock_key resource = build (codes "locks" ∷ resource ∷ [])

unfoldable pub heartbeat_key : Bytes → Bytes
unfolding build
heartbeat_key pod_id = build (codes "heartbeat" ∷ pod_id ∷ [])

unfoldable pub heartbeat_prefix : Bytes
heartbeat_prefix = codes "/roboflow/v1/heartbeat/"

unfoldable pub spec_key : Bytes → Bytes
unfolding build
spec_key batch_id = build (codes "batch" ∷ codes "specs" ∷ batch_id ∷ [])

unfoldable pub status_key : Bytes → Bytes
unfolding build
status_key batch_id = build (codes "batch" ∷ codes "statuses" ∷ batch_id ∷ [])

unfoldable pub unit_key : Bytes → Bytes → Bytes
unfolding build
unit_key batch_id unit_id = build (codes "batch" ∷ codes "workunits" ∷ batch_id ∷ unit_id ∷ [])

unfoldable pub batch_prefix : Bytes → Bytes
unfolding build
batch_prefix batch_id = build (codes "batch" ∷ codes "workunits" ∷ batch_id ∷ [])

unfoldable pub units_prefix : Bytes
unfolding build
units_prefix = build (codes "batch" ∷ codes "workunits" ∷ [])

unfoldable pub pending_key : Bytes → Bytes → Bytes
unfolding build
pending_key batch_id unit_id = build (codes "batch" ∷ codes "pending" ∷ batch_id ∷ unit_id ∷ [])

unfoldable pub pending_prefix : Bytes
unfolding build
pending_prefix = build (codes "batch" ∷ codes "pending" ∷ [])

-- A pending key is the prefix that is scanned for, and the batch and the unit behind slashes.
pub pending_key-prefix :
    (batch_id unit_id : Bytes)
    → pending_key batch_id unit_id ≡ pending_prefix ++ (b'/' ∷ batch_id ++ b'/' ∷ unit_id)
unfolding pending_key pending_prefix
pending_key-prefix batch_id unit_id = refl

-- A unit's pending key and its own key differ, and neither is empty.
pub pending_key-ne-unit_key :
    (batch_id unit_id : Bytes)
    → (pending_key batch_id unit_id ≢ unit_key batch_id unit_id)
      × (pending_key batch_id unit_id ≢ [])
      × (unit_key batch_id unit_id ≢ [])
unfolding pending_key unit_key
pending_key-ne-unit_key batch_id unit_id = (λ e. ground arith, λ e. cc, λ e. cc)
