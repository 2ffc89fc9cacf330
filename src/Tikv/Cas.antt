-- ===== src/Tikv/Cas.antt =====
-- Compare-and-swap: `cas` of crates/roboflow-distributed/src/tikv/client.rs. `version_of` stands for
-- serde_json: the number in the `version` field of a stored value, when there is one.
use roboflow.Bytes.{Bytes, codes}
use roboflow.Prelude.{Bool, Option, false, if◌then◌else◌, none, some, true, ℕ, ◌==◌, ◌≡◌}
use roboflow.Tikv.Client.Healthy.{check_connected-IsHealthy, tick-IsHealthy}
use roboflow.Tikv.Error.{Result, cas_failed, deserialization, err, ok}
use roboflow.Tikv.Store.{insert, lookup}
use roboflow.Tikv.World.{
  IsHealthy, M, World, check_connected, fail, read_store, return, tick, write_store, ◌>>=◌, ◌>>◌,
}

unfoldable pub cas_check : (Bytes → Option ℕ) → ℕ → Option Bytes → Result Bool
cas_check version_of expected none = ok (expected == 0)
cas_check version_of expected (some b) = elim (version_of b) [
  | none ↦ err (deserialization (codes "No version field in value"))
  | some version ↦ (if version == expected then ok true else err (cas_failed expected version))
]

unfoldable pub finish_cas : Bytes → Bytes → Result Bool → M Bool
finish_cas key new_value (err e) = fail e
finish_cas key new_value (ok false) = return false
finish_cas key new_value (ok true) = do tick; tick; write_store (insert key new_value); return true

-- One pessimistic transaction: the check and the write happen together.
unfoldable pub cas : (Bytes → Option ℕ) → Bytes → ℕ → Bytes → M Bool
cas version_of key expected new_value = do
  check_connected
  tick
  tick
  found ← read_store (lookup key)
  finish_cas key new_value (cas_check version_of expected found)

pub cas-IsHealthy :
    (version_of : Bytes → Option ℕ) (key new_value : Bytes) (expected : ℕ) (w : World)
    → IsHealthy w
    → cas_check version_of expected (lookup key w.store) ≡ ok true
    → cas version_of key expected new_value w
      ≡ (ok true, record w { store = insert key new_value w.store })
unfolding cas finish_cas
cas-IsHealthy version_of key new_value expected w h fresh =
    simp (check_connected-IsHealthy w h, tick-IsHealthy w h) (rw fresh (simp (tick-IsHealthy w h)))
