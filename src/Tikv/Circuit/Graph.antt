-- ===== src/Tikv/Circuit/Graph.antt =====
-- The transition diagram in the header of crates/roboflow-distributed/src/tikv/circuit.rs, with the
-- two ways out of the half-open state that it does not draw.
use roboflow.Prelude.{Bool, arith, if◌then◌else◌, leb, ℕ, ◌&&◌, ◌*◌, ◌+◌, ◌-◌, ◌||◌, ◌≡◌, ◌≤◌}
use roboflow.Tikv.Circuit.{
  CircuitInner, CircuitState, begin_call, closed, counts_as_failure, finish_call, get_state,
  half_open, half_open_expired, is_call_permitted, open_state, record_success, reset,
  should_attempt_reset, trip, u64,
}
use roboflow.Tikv.Circuit.Invariant.{Event, asks, begins, fails, resets, step, succeeds, trips}

-- So many nanoseconds or more have passed, by clocks in seconds.
abbrev pub passed : ℕ → CircuitInner → ℕ → Bool
passed time c now = leb time ((now - c.last_state_change) * 1000000000)

-- The half-open state is over: it has lasted too long, or let its calls through.
abbrev pub is_over : CircuitInner → ℕ → Bool
is_over c now = passed c.half_open_timeout c now || leb c.half_open_max_calls c.half_open_calls

-- The diagram: the next state, by the present one and what happens.
abbrev pub next_state : CircuitInner → CircuitState → Event → CircuitState
next_state c s (resets now) = closed
next_state c s (trips now) = open_state
next_state c closed (fails now e) =
    if counts_as_failure e && leb c.failure_threshold (u64 (c.failures + 1))
    then open_state
    else closed
next_state c open_state (asks now) = if passed c.open_timeout c now then half_open else open_state
next_state c open_state (begins now) = if passed c.open_timeout c now then half_open else open_state
next_state c half_open (asks now) = if is_over c now then open_state else half_open
next_state c half_open (begins now) = if is_over c now then open_state else half_open
next_state c half_open (succeeds now) =
    if leb c.success_threshold (u64 (c.successes + 1)) then closed else half_open
next_state c half_open (fails now e) = if counts_as_failure e then open_state else half_open
next_state c s e = s

-- Whatever happens to a breaker whose state is known, it goes exactly where the diagram says: closed
-- to open by a failure that counts and reaches the threshold; open to half-open by a request once
-- the timeout has passed; half-open to closed by the success that reaches the threshold, and to open
-- by a failure that counts or by a request when its time or its calls are used up; by a manual reset
-- or trip to closed or open; and nowhere else.
pub get_state-step :
    (c : CircuitInner) (e : Event)
    → c.state ≤ 2
    → get_state (step c e) ≡ next_state c (get_state c) e
unfolding step get_state is_call_permitted begin_call record_success finish_call reset trip
    should_attempt_reset half_open_expired
get_state-step c (asks now) h = ground arith
get_state-step c (begins now) h = ground arith
get_state-step c (succeeds now) h = ground arith
get_state-step c (resets now) h = ground arith
get_state-step c (trips now) h = ground arith
get_state-step c (fails now e) h = ground arith
