-- ===== src/Tikv/Circuit/Invariant.antt =====
-- What holds of the circuit breaker between the calls of its clients, in whatever order they come.
use roboflow.Prelude.{List, [], arith, if◌then◌else◌, ℕ, ◌+◌, ◌<◌, ◌==◌, ◌^◌, ◌∷◌, ◌≡◌, ◌≤◌}
use roboflow.Tikv.Circuit.{
  CircuitConfig, CircuitInner, begin_call, finish_call, is_call_permitted, new, record_failure,
  record_success, reset, trip,
}
use roboflow.Tikv.Error.{TikvError, err}

-- The thresholds are u32, and none of them is 0.
pub record IsValidConfig (c : CircuitConfig) : Type 0 where
  pub some_failures : (0 < c.failure_threshold) × (c.failure_threshold < 2 ^ 32)
  pub some_successes : (0 < c.success_threshold) × (c.success_threshold < 2 ^ 32)
  pub some_calls : (0 < c.half_open_max_calls) × (c.half_open_max_calls < 2 ^ 32)

pub record Inv (c : CircuitInner) : Type 0 where
  pub known : c.state ≤ 2
  pub closed_below : c.state ≡ 0 → c.failures < c.failure_threshold
  pub open_clean : c.state ≡ 1 → c.successes ≡ 0
  pub half_below : c.state ≡ 2 → c.successes < c.success_threshold
  pub half_calls : c.state ≡ 2 → c.half_open_calls ≤ c.half_open_max_calls

-- What a client of the breaker does, at a time: `begins` is the start of a `call`, and `asks` a
-- plain `is_call_permitted`, as the client's own operations do.
pub data Event : Type 0 where
  asks begins succeeds resets trips : ℕ → Event
  fails : ℕ → TikvError → Event

unfoldable pub step : CircuitInner → Event → CircuitInner
step c (asks now) = (is_call_permitted c now).0
step c (begins now) = (begin_call c now).0
step c (succeeds now) = record_success c now
step c (resets now) = reset c now
step c (trips now) = trip c now
step c (fails now e) = finish_call {A = ℕ} c now (err e)

new-Inv : (config : CircuitConfig) (now : ℕ) → IsValidConfig config → Inv (new config now)
unfolding new
new-Inv config now v = ground arith

is_call_permitted-Inv :
    (c : CircuitInner) (now : ℕ) → IsValidConfig c.config → Inv c → Inv (is_call_permitted c now).0
unfolding is_call_permitted
is_call_permitted-Inv c now v h = ground arith

begin_call-Inv :
    (c : CircuitInner) (now : ℕ) → IsValidConfig c.config → Inv c → Inv (begin_call c now).0
unfolding begin_call
begin_call-Inv c now v h = ground arith

record_success-Inv :
    (c : CircuitInner) (now : ℕ) → IsValidConfig c.config → Inv c → Inv (record_success c now)
unfolding record_success
record_success-Inv c now v h = ground arith

record_failure-Inv :
    (c : CircuitInner) (now : ℕ) → IsValidConfig c.config → Inv c → Inv (record_failure c now)
unfolding record_failure
record_failure-Inv c now v h = ground arith

step-config : (c : CircuitInner) (e : Event) → (step c e).config ≡ c.config
unfolding step is_call_permitted begin_call record_success finish_call reset trip
step-config c (asks now) = ground arith
step-config c (begins now) = ground arith
step-config c (succeeds now) = ground arith
step-config c (resets now) = ground arith
step-config c (trips now) = ground arith
step-config c (fails now e) = ground arith

step-Inv : (c : CircuitInner) (e : Event) → IsValidConfig c.config → Inv c → Inv (step c e)
unfolding step reset trip finish_call
step-Inv c (asks now) v h = is_call_permitted-Inv c now v h
step-Inv c (begins now) v h = begin_call-Inv c now v h
step-Inv c (succeeds now) v h = record_success-Inv c now v h
step-Inv c (resets now) v h = ground arith
step-Inv c (trips now) v h = ground arith
step-Inv c (fails now e) v h = ground (arith, record_failure-Inv c now v h)

-- The calls let through since the breaker became half-open, told from the outcomes alone. The call
-- that makes it half-open is the first one, unless it only asks.
abbrev pub let_through : CircuitInner → ℕ → Event → ℕ
let_through c n (asks now) = if c.state == 2 then n else 0
let_through c n (begins now) =
    if (begin_call c now).1 then (if c.state == 2 then n + 1 else 1) else n
let_through c n e = n

unfoldable pub run_counting : CircuitInner → ℕ → List Event → CircuitInner × ℕ
unfolding step
run_counting c n [] = (c, n)
run_counting c n (e ∷ es) = run_counting (step c e) (let_through c n e) es

-- The counter of the breaker is that of the calls let through.
abbrev Agrees : CircuitInner → ℕ → Type 0
Agrees c n = c.state ≡ 2 → n ≡ c.half_open_calls

begin_call-Agrees :
    (c : CircuitInner) (n now : ℕ)
    → IsValidConfig c.config
    → Inv c
    → Agrees c n
    → Agrees (begin_call c now).0 (let_through c n (begins now))
unfolding begin_call
begin_call-Agrees c n now v h a = ground arith

step-Agrees :
    (c : CircuitInner) (n : ℕ) (e : Event)
    → IsValidConfig c.config
    → Inv c
    → Agrees c n
    → Agrees (step c e) (let_through c n e)
unfolding step is_call_permitted record_success finish_call reset trip
step-Agrees c n (asks now) v h a = ground arith
step-Agrees c n (begins now) v h a = begin_call-Agrees c n now v h a
step-Agrees c n (succeeds now) v h a = ground arith
step-Agrees c n (resets now) v h a = ground arith
step-Agrees c n (trips now) v h a = ground arith
step-Agrees c n (fails now e) v h a = ground arith

run_from-Inv :
    (c : CircuitInner) (n : ℕ) (es : List Event)
    → IsValidConfig c.config
    → Inv c
    → Agrees c n
    → Inv (run_counting c n es).0 × Agrees (run_counting c n es).0 (run_counting c n es).1
unfolding run_counting
run_from-Inv c n [] v h a = (h, a)
run_from-Inv c n (e ∷ es) v h a =
    run_from-Inv (step c e) (let_through c n e) es (rw (step-config c e) v) (step-Inv c e v h)
      (step-Agrees c n e v h a)

-- After any sequence of calls, plain permissions, outcomes, resets and trips of its clients, in any
-- order, a breaker made with thresholds that are u32 and not 0 has a known state; while closed it
-- has counted fewer failures than open it; while open it has counted no success; while half-open it
-- has counted fewer successes than close it, and has let as many calls through since then as it has
-- counted, at most `half_open_max_calls`. (Operations that only ask for permission are not calls:
-- their number is not limited.)
pub breaker_run-Inv :
    (config : CircuitConfig) (now n : ℕ) (es : List Event)
    → IsValidConfig config
    → let (c, n') = run_counting (new config now) n es in
      Inv c × (c.state ≡ 2 → (n' ≡ c.half_open_calls) × (n' ≤ c.half_open_max_calls))
unfolding new
breaker_run-Inv config now n es v =
    let k = run_from-Inv (new config now) n es v (new-Inv config now v) (λ q. ground arith) in
    (k.0, λ q. (k.1 q, omega (arith, k.1 q, k.0.half_calls q)))
