-- ===== src/Tikv/Circuit.antt =====
-- The circuit breaker in front of TiKV: crates/roboflow-distributed/src/tikv/circuit.rs.
-- The shared atomics are the fields of a record, and each method returns the new record. A method
-- reads the clock once, and is given what it reads, in seconds; durations are in nanoseconds.
pub mod Invariant
pub mod Graph
pub mod Recovery
use roboflow.Prelude.{
  ℕ, zero, suc, ◌+◌, ◌-◌, ◌*◌, ◌%◌, ◌^◌, Bool, true, false, ◌||◌, Option, none, some, leb,
  if◌then◌else◌,
}
use roboflow.Tikv.Error.{TikvError, connection_failed, circuit_open, is_retryable, Result, ok, err}

pub data CircuitState : Type 0 where
  closed open_state half_open : CircuitState

-- `state as u8`.
abbrev pub to_u8 : CircuitState → ℕ
to_u8 closed = 0
to_u8 open_state = 1
to_u8 half_open = 2

abbrev pub from_u8 : ℕ → Option CircuitState
from_u8 zero = some closed
from_u8 (suc zero) = some open_state
from_u8 (suc (suc zero)) = some half_open
from_u8 _ = none

pub record CircuitConfig : Type 0 where
  pub failure_threshold : ℕ
  pub success_threshold : ℕ
  pub open_timeout : ℕ
  pub half_open_max_calls : ℕ
  pub half_open_timeout : ℕ

pub record CircuitInner : Type 0 where
  pub state : ℕ  -- AtomicU8
  pub failures : ℕ  -- AtomicU64
  pub successes : ℕ  -- AtomicU64
  pub half_open_calls : ℕ  -- AtomicU64
  pub last_state_change : ℕ  -- AtomicU64
  pub config : CircuitConfig
  pub open config use *

-- Arithmetic on u64 wraps.
abbrev pub u64 : ℕ → ℕ
u64 n = n % 2 ^ 64

abbrev pub from_secs : ℕ → ℕ
from_secs s = s * 1000000000

unfoldable pub default_config : CircuitConfig
default_config = record {
  failure_threshold = 5;
  success_threshold = 3;
  open_timeout = from_secs 30;
  half_open_max_calls = 10;
  half_open_timeout = from_secs 5;
}

unfoldable pub new : CircuitConfig → ℕ → CircuitInner
new config now = record {
  state = to_u8 closed;
  failures = 0;
  successes = 0;
  half_open_calls = 0;
  last_state_change = now;
  config = config;
}

abbrev pub unwrap_or_closed : Option CircuitState → CircuitState
unwrap_or_closed none = closed
unwrap_or_closed (some s) = s

unfoldable pub get_state : CircuitInner → CircuitState
get_state c = unwrap_or_closed (from_u8 c.state)

abbrev reset_counters : CircuitState → CircuitInner → CircuitInner
reset_counters closed c = record c { failures = 0; successes = 0; half_open_calls = 0 }
reset_counters open_state c = record c { successes = 0 }
reset_counters half_open c = record c { half_open_calls = 0 }

unfoldable pub set_state : CircuitInner → CircuitState → ℕ → CircuitInner
set_state c s now = reset_counters s (record c { state = to_u8 s; last_state_change = now })

-- `saturating_sub` is the truncated `-`.
unfoldable pub should_attempt_reset : CircuitInner → ℕ → Bool
should_attempt_reset c now = leb c.open_timeout (from_secs (now - c.last_state_change))

unfoldable pub half_open_expired : CircuitInner → ℕ → Bool
half_open_expired c now = leb c.half_open_timeout (from_secs (now - c.last_state_change))

permitted_in : CircuitState → CircuitInner → ℕ → CircuitInner × Bool
unfolding set_state should_attempt_reset half_open_expired
permitted_in closed c now = (c, true)
permitted_in open_state c now =
    if should_attempt_reset c now then (set_state c half_open now, true) else (c, false)
permitted_in half_open c now =
    if half_open_expired c now
    then (set_state c open_state now, false)
    else if leb c.half_open_max_calls c.half_open_calls
    then (set_state c open_state now, false)
    else (c, true)

unfoldable pub is_call_permitted : CircuitInner → ℕ → CircuitInner × Bool
unfolding permitted_in get_state
is_call_permitted c now = permitted_in (get_state c) c now

success_in : CircuitState → CircuitInner → ℕ → CircuitInner
unfolding set_state
success_in closed c now = record c { failures = 0 }
success_in half_open c now =
    let d = record c { successes = u64 (c.successes + 1) } in
    if leb c.success_threshold d.successes then set_state d closed now else d
success_in open_state c now = c

unfoldable pub record_success : CircuitInner → ℕ → CircuitInner
unfolding success_in get_state
record_success c now = success_in (get_state c) c now

failure_in : CircuitState → CircuitInner → ℕ → CircuitInner
unfolding set_state
failure_in closed c now =
    if leb c.failure_threshold c.failures then set_state c open_state now else c
failure_in half_open c now = set_state c open_state now
failure_in open_state c now = c

-- The count goes up in every state; the state is read after it.
unfoldable pub record_failure : CircuitInner → ℕ → CircuitInner
unfolding failure_in get_state
record_failure c now =
    let d = record c { failures = u64 (c.failures + 1) } in failure_in (get_state d) d now

abbrev is_connection_failed : TikvError → Bool
is_connection_failed (connection_failed _) = true
is_connection_failed _ = false

-- `err.is_retryable() || matches!(err, TikvError::ConnectionFailed(_))`.
unfoldable pub counts_as_failure : TikvError → Bool
counts_as_failure e = is_retryable e || is_connection_failed e

abbrev count_half_open : CircuitState → CircuitInner → CircuitInner
count_half_open half_open c = record c { half_open_calls = u64 (c.half_open_calls + 1) }
count_half_open _ c = c

-- What `call` does before it awaits: `none` when the call is refused.
unfoldable pub begin_call : CircuitInner → ℕ → CircuitInner × Bool
unfolding is_call_permitted
begin_call c now =
    let (d, permitted) = is_call_permitted c now in
    if permitted then (count_half_open (get_state d) d, true) else (d, false)

-- What `call` does with the outcome.
unfoldable pub finish_call : {A : Type 0} → CircuitInner → ℕ → Result A → CircuitInner
unfolding record_success record_failure counts_as_failure
finish_call c now (ok a) = record_success c now
finish_call c now (err e) = if counts_as_failure e then record_failure c now else c

-- `failures as u32` truncates.
rejection : {A : Type 0} → CircuitInner → Result A
rejection c = err (circuit_open (c.failures % 2 ^ 32))

-- `f` is the awaited operation: it ends at a later time with an outcome, and other callers may have
-- used the shared breaker meanwhile.
unfoldable pub call :
    {A : Type 0}
    → CircuitInner
    → ℕ
    → (CircuitInner → CircuitInner × ℕ × Result A)
    → CircuitInner × Result A
unfolding begin_call finish_call rejection
call c now f =
    let (d, permitted) = begin_call c now in
    let (e, later, outcome) = f d in
    if permitted then (finish_call e later outcome, outcome) else (d, rejection d)

unfoldable pub reset : CircuitInner → ℕ → CircuitInner
reset c now = set_state c closed now

unfoldable pub trip : CircuitInner → ℕ → CircuitInner
trip c now = set_state c open_state now
