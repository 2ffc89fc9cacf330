-- ===== src/Samples.antt =====
-- Concrete values for the tests: a healthy client, work units, and their serializer.
use native.Mathlib.Decide.{ℕ_discrete}
use roboflow.Batch.WorkUnit.{WorkUnit, WorkUnitStatus}
use roboflow.Bytes.{Bytes, codes}
use roboflow.Codec.{Codec}
use roboflow.Codec.Table.{table}
use roboflow.Prelude.{[], none, refl, some, true}
use roboflow.Tikv.Circuit.{default_config, new}
use roboflow.Tikv.Store.{Store}
use roboflow.Tikv.World.{IsHealthy, World}

abbrev pub healthy : Store → World
healthy m = record {
  connected = true;
  store = m;
  breaker = new default_config 0;
  max_retries = 2;
  now = 1000;
  faults = [];
}

pub healthy-IsHealthy : (m : Store) → IsHealthy (healthy m)
unfolding new
healthy-IsHealthy m = record {
  connected = refl;
  no_faults = refl;
  breaker_closed = refl;
  no_failures = refl;
}

abbrev pub batch : Bytes
batch = codes "jobs:a"

abbrev pub unit_id : Bytes
unit_id = codes "u1"

abbrev pub worker : Bytes
worker = codes "worker-1"

abbrev pub waiting : WorkUnit
waiting = record {
  id = unit_id;
  batch_id = batch;
  files = [];
  output_path = [];
  config_hash = [];
  status = WorkUnitStatus.pending;
  owner = none;
  attempts = 0;
  max_attempts = 3;
  created_at = 900;
  updated_at = 900;
  error = none;
  priority = 0;
}

-- Claimed at the time of the healthy client.
abbrev pub in_progress : WorkUnit
in_progress = record waiting {
  status = WorkUnitStatus.processing;
  owner = some worker;
  attempts = 1;
  updated_at = 1000;
}

-- Failed at that time.
abbrev pub broken_off : Bytes → WorkUnit
broken_off reason = record in_progress {
  status = WorkUnitStatus.failed;
  owner = none;
  error = some reason;
}

pub WorkUnit-discrete : Discrete WorkUnit
WorkUnit-discrete = hlevel (ℕ_discrete)

-- Serializers that write the two units.
abbrev pub units : WorkUnit → WorkUnit → Codec WorkUnit
units = table WorkUnit-discrete
