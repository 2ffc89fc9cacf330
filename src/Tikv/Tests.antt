-- ===== src/Tikv/Tests.antt =====
-- The circuit breaker and the locks at concrete inputs.
use native.Mathlib.Decide.{ℕ_discrete}
use roboflow.Bytes.{beq, codes}
use roboflow.Codec.{Codec}
use roboflow.Codec.Table.{table}
use roboflow.Prelude.{List, [], arith, refl, true, ◌∷◌, ◌≡◌, ◌≢◌, ◌≤◌}
use roboflow.Samples.{healthy, worker}
use roboflow.Tikv.Circuit.{
  CircuitInner, begin_call, closed, default_config, finish_call, get_state, new, open_state, trip,
}
use roboflow.Tikv.Circuit.Graph.{get_state-step, next_state}
use roboflow.Tikv.Circuit.Invariant.{
  Event, Inv, IsValidConfig, begins, breaker_run-Inv, fails, run_counting, step, succeeds, trips,
}
use roboflow.Tikv.Circuit.Recovery.{call_at, fail_at, opens_exactly, recovers}
use roboflow.Tikv.Error.{is_retryable, ok, write_conflict}
use roboflow.Tikv.Key.{lock_key}
use roboflow.Tikv.Lock.{LockRecord, acquire_lock}
use roboflow.Tikv.Lock.Exclusion.{held_lock_excludes}
use roboflow.Tikv.Store.{Store, insert, lookup}

default_config-IsValidConfig : IsValidConfig default_config
unfolding default_config
default_config-IsValidConfig = ground arith

abbrev troubled : List Event
troubled = fails 3 write_conflict ∷ trips 4 ∷ begins 90 ∷ succeeds 91 ∷ []

breaker_run-Inv_example :
    let (c, n) = run_counting (new default_config 0) 0 troubled in
    Inv c × (c.state ≡ 2 → (n ≡ c.half_open_calls) × (n ≤ c.half_open_max_calls))
breaker_run-Inv_example = breaker_run-Inv default_config 0 0 troubled default_config-IsValidConfig

-- The call that makes the breaker half-open is counted.
one_let_through : (run_counting (new default_config 0) 0 troubled).1 ≡ 1
unfolding run_counting default_config new begin_call trip finish_call is_retryable
one_let_through = refl

get_state-step_example :
    get_state (step (new default_config 0) (fails 3 write_conflict))
    ≡ next_state (new default_config 0) (get_state (new default_config 0)) (fails 3 write_conflict)
unfolding new
get_state-step_example =
    get_state-step (new default_config 0) (fails 3 write_conflict) (omega arith)

opens_exactly_example :
    get_state (fail_at (1 ∷ 2 ∷ 3 ∷ 4 ∷ 5 ∷ []) (new default_config 0)) ≡ open_state
unfolding default_config
opens_exactly_example =
    opens_exactly default_config 0 (1 ∷ 2 ∷ 3 ∷ 4 ∷ 5 ∷ []) (omega arith) (omega arith)

abbrev opened : CircuitInner
opened = record (new default_config 0) { state = 1; failures = 5; last_state_change = 100 }

recovers_example :
    (get_state (call_at (130 ∷ 131 ∷ 132 ∷ []) opened) ≡ closed)
    × ((call_at (130 ∷ 131 ∷ 132 ∷ []) opened).failures ≡ 0)
unfolding get_state default_config new
recovers_example =
    recovers opened 130 (131 ∷ 132 ∷ []) refl refl (omega arith) refl (omega arith) (omega arith)
      (omega arith)

abbrev a_lock : LockRecord
a_lock = record {
  resource = codes "batch";
  owner = worker;
  version = 7;
  expires_at = 1030;
  acquired_at = 990;
}

pub LockRecord-discrete : Discrete LockRecord
LockRecord-discrete = hlevel (ℕ_discrete)

abbrev locked : Store
locked = insert (lock_key (codes "batch")) (1 ∷ []) []

abbrev locks : LockRecord → LockRecord → Codec LockRecord
locks = table LockRecord-discrete

held_lock_excludes_example :
    let x =
      acquire_lock (locks a_lock a_lock) (codes "batch") (codes "worker-2") 60 (healthy locked) in
    (x.0 ≢ ok true) × (x.1.store ≡ locked)
unfolding lookup insert lock_key beq
held_lock_excludes_example =
    held_lock_excludes (locks a_lock a_lock) (codes "batch") (codes "worker-2") (1 ∷ []) a_lock refl
      (λ e. ground arith) 60 (healthy locked) refl (omega arith)

abbrev renewed : LockRecord
renewed = record a_lock { expires_at = 1060; version = 8 }

renewed-ne-a_lock : renewed ≢ a_lock
renewed-ne-a_lock e = ground arith

abbrev lapsed : LockRecord
lapsed = record a_lock { expires_at = 999 }

abbrev taken_over : LockRecord
taken_over = record {
  resource = codes "batch";
  owner = codes "worker-2";
  version = 1;
  expires_at = 1060;
  acquired_at = 1000;
}

taken_over-ne-lapsed : taken_over ≢ lapsed
taken_over-ne-lapsed e = ground arith
