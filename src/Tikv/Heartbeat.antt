-- ===== src/Tikv/Heartbeat.antt =====
-- Worker heartbeats: `HeartbeatRecord` of crates/roboflow-distributed/src/tikv/schema.rs. Times are
-- in seconds.
use roboflow.Bytes.{Bytes}
use roboflow.Prelude.{Bool, List, Option, [], if◌then◌else◌, ltb, none, ℕ, ◌%◌, ◌+◌, ◌-◌, ◌==◌, ◌^◌}

pub data WorkerStatus : Type 0 where
  idle busy draining unhealthy : WorkerStatus

pub record HeartbeatRecord : Type 0 where
  pub pod_id : Bytes
  pub last_heartbeat : ℕ
  pub status : WorkerStatus
  pub active_jobs : ℕ  -- u32
  pub total_processed : ℕ  -- u64
  pub capabilities : List Bytes
  pub metadata : Option Bytes  -- JSON text

unfoldable pub new_heartbeat : Bytes → ℕ → HeartbeatRecord
new_heartbeat pod_id now = record {
  pod_id = pod_id;
  last_heartbeat = now;
  status = idle;
  active_jobs = 0;
  total_processed = 0;
  capabilities = [];
  metadata = none;
}

unfoldable pub beat : HeartbeatRecord → ℕ → HeartbeatRecord
beat h now = record h { last_heartbeat = now }

-- Older than the timeout; a heartbeat from the future is not.
unfoldable pub is_stale : HeartbeatRecord → ℕ → ℕ → Bool
is_stale h timeout_seconds now = ltb (h.last_heartbeat + timeout_seconds) now

unfoldable pub increment_active : HeartbeatRecord → HeartbeatRecord
increment_active h = record h { active_jobs = (h.active_jobs + 1) % 2 ^ 32; status = busy }

abbrev fewer_jobs : HeartbeatRecord → HeartbeatRecord
fewer_jobs h = if ltb 0 h.active_jobs then record h { active_jobs = h.active_jobs - 1 } else h

abbrev idle_without_jobs : HeartbeatRecord → HeartbeatRecord
idle_without_jobs h = if h.active_jobs == 0 then record h { status = idle } else h

unfoldable pub decrement_active : HeartbeatRecord → HeartbeatRecord
decrement_active h = idle_without_jobs (fewer_jobs h)

unfoldable pub increment_processed : HeartbeatRecord → HeartbeatRecord
increment_processed h = record h { total_processed = (h.total_processed + 1) % 2 ^ 64 }
