-- ===== src/Tikv/Circuit/Recovery.antt =====
-- When the circuit breaker opens, what it does while open, and how it closes again.
use roboflow.Prelude.{
  ℕ, suc, ◌+◌, ◌-◌, ◌^◌, ◌≤◌, ◌<◌, ◌≡◌, ◌≢◌, refl, leb, true, false, arith, inl, inr, Bool-cases,
  List, [], ◌∷◌, length, ◌%◌, if◌then◌else◌,
}
use roboflow.Tikv.Error.{TikvError, circuit_open, Result, ok, err}
use roboflow.Tikv.Circuit.{
  closed, open_state, half_open, CircuitConfig, CircuitInner, new, get_state, from_secs,
  finish_call, counts_as_failure, record_failure, call,
}

-- Calls one after another that fail with an error that counts, at the given times.
unfoldable pub fail_at : List ℕ → CircuitInner → CircuitInner
fail_at [] c = c
fail_at (t ∷ ts) c = fail_at ts (record_failure c t)

record_failure_closed :
    (c : CircuitInner) (t : ℕ)
    → c.state ≡ 0
    → c.failures + 1 < c.failure_threshold
    → c.failure_threshold < 2 ^ 32
    → record_failure c t ≡ record c { failures = c.failures + 1 }
unfolding record_failure
record_failure_closed c t s h b = ground arith

record_failure_opens :
    (c : CircuitInner) (t : ℕ)
    → c.state ≡ 0
    → c.failures + 1 ≡ c.failure_threshold
    → c.failure_threshold < 2 ^ 32
    → (record_failure c t).state ≡ 1
unfolding record_failure
record_failure_opens c t s h b = ground arith

record_failure_open : (c : CircuitInner) (t : ℕ) → c.state ≡ 1 → (record_failure c t).state ≡ 1
unfolding record_failure
record_failure_open c t s = ground arith

fail_at_open : (c : CircuitInner) (ts : List ℕ) → c.state ≡ 1 → (fail_at ts c).state ≡ 1
unfolding fail_at
fail_at_open c [] s = s
fail_at_open c (t ∷ ts) s = fail_at_open (record_failure c t) ts (record_failure_open c t s)

-- The breaker's state after so many failures in the closed state.
expected : CircuitInner → ℕ → ℕ
expected c n = if leb c.failure_threshold (c.failures + n) then 1 else 0

fail_at_closed :
    (c : CircuitInner) (ts : List ℕ)
    → c.state ≡ 0
    → c.failures < c.failure_threshold
    → c.failure_threshold < 2 ^ 32
    → (fail_at ts c).state ≡ expected c (length ts)
unfolding fail_at expected
fail_at_closed c [] s h b = ground arith
fail_at_closed c (t ∷ ts) s h b = elim (Bool-cases (leb c.failure_threshold (c.failures + 1))) [
  | inl e ↦
      ground
        (arith, fail_at_open (record_failure c t) ts (record_failure_opens c t s (ground arith) b))
  | inr e ↦ ground (
    arith,
    record_failure_closed c t s (ground arith) b,
    fail_at_closed (record c { failures = c.failures + 1 }) ts s (ground arith) b,
  )
]

-- A new breaker is open after a run of failures exactly when the run is at least as long as the
-- threshold, whenever the failures come; else it is closed. The threshold is a u32 and not 0.
pub opens_exactly :
    (config : CircuitConfig) (now : ℕ) (ts : List ℕ)
    → 0 < config.failure_threshold
    → config.failure_threshold < 2 ^ 32
    → get_state (fail_at ts (new config now))
      ≡ (if leb config.failure_threshold (length ts) then open_state else closed)
unfolding new get_state expected
opens_exactly config now ts p b = ground (arith, fail_at_closed (new config now) ts refl p b)

-- Until the open timeout has passed, an open breaker refuses the call with its count of failures,
-- does not run the operation (the result is the same for any two), and stays as it is.
pub open_rejects :
    {A : Type 0} (c : CircuitInner) (now : ℕ) (f : CircuitInner → CircuitInner × ℕ × Result A)
    → get_state c ≡ open_state
    → from_secs (now - c.last_state_change) < c.open_timeout
    → call c now f ≡ (c, err (circuit_open (c.failures % 2 ^ 32)))
unfolding call get_state
open_rejects c now f s h = ground arith

-- A call whose error is neither retryable nor a failed connection leaves the breaker as it was; one
-- whose error counts opens a half-open breaker, whatever its counters.
pub finish_call_err :
    (A : Type 0) (c : CircuitInner) (now : ℕ) (e : TikvError)
    → (counts_as_failure e ≡ false → finish_call {A = A} c now (err e) ≡ c)
      × (counts_as_failure e ≡ true
          → get_state c ≡ half_open
          → (get_state (finish_call {A = A} c now (err e)) ≡ open_state)
            × ((finish_call {A = A} c now (err e)).successes ≡ 0))
unfolding finish_call get_state
finish_call_err A c now e = (λ h. rw h, λ h s. ground arith)

-- A successful operation that takes no time and in which no other caller takes part.
abbrev pub succeeds_at : ℕ → CircuitInner → CircuitInner × ℕ × Result ℕ
succeeds_at t c = (c, t, ok 0)

-- Calls one after another that succeed, at the given times.
unfoldable pub call_at : List ℕ → CircuitInner → CircuitInner
call_at [] c = c
call_at (t ∷ ts) c = call_at ts (call c t (succeeds_at t)).0

-- Every time lies before the half-open state expires.
abbrev pub InWindow : CircuitInner → ℕ → List ℕ → Type 0
InWindow c start [] = Unit {0}
InWindow c start (t ∷ ts) = (from_secs (t - start) < c.half_open_timeout) × InWindow c start ts

-- In the half-open state, `k` successes short of closing, with room for as many calls.
record Recovering (c : CircuitInner) (k : ℕ) : Type 0 where
  half : c.state ≡ 2
  short : c.successes + k ≡ c.success_threshold
  room : c.half_open_calls + k ≤ c.half_open_max_calls
  bounded : (c.success_threshold < 2 ^ 32) × (c.half_open_max_calls < 2 ^ 32)

success_half :
    (c : CircuitInner) (t k : ℕ)
    → Recovering c (suc (suc k))
    → from_secs (t - c.last_state_change) < c.half_open_timeout
    → (call c t (succeeds_at t)).0
      ≡ record c { successes = c.successes + 1; half_open_calls = c.half_open_calls + 1 }
unfolding call
success_half c t k r w = ground arith

success_last :
    (c : CircuitInner) (t : ℕ)
    → Recovering c 1
    → from_secs (t - c.last_state_change) < c.half_open_timeout
    → (call c t (succeeds_at t)).0 ≡ record c {
      state = 0;
      failures = 0;
      successes = 0;
      half_open_calls = 0;
      last_state_change = t;
    }
unfolding call
success_last c t r w = ground arith

call_at_recovers :
    (c : CircuitInner) (start : ℕ) (ts : List ℕ)
    → ts ≢ []
    → c.last_state_change ≡ start
    → Recovering c (length ts)
    → InWindow c start ts
    → ((call_at ts c).state ≡ 0) × ((call_at ts c).failures ≡ 0)
unfolding call_at
call_at_recovers c start [] n l r w = absurd (n refl)
call_at_recovers c start (t ∷ []) n l r w = ground (arith, success_last c t r (omega arith))
call_at_recovers c start (t ∷ u ∷ ts) n l r w = ground (
  arith,
  success_half c t (length ts) r (omega arith),
  call_at_recovers
      (record c { successes = c.successes + 1; half_open_calls = c.half_open_calls + 1 }) start
      (u ∷ ts) (λ e. cc) l later w.1,
)
  where
    later :
        Recovering
          (record c { successes = c.successes + 1; half_open_calls = c.half_open_calls + 1 })
          (length (u ∷ ts))
    later = ground (arith, r)

wake : (c : CircuitInner) → ℕ → CircuitInner
wake c now = record c { state = 2; half_open_calls = 0; last_state_change = now }

call_wakes :
    (c : CircuitInner) (now : ℕ)
    → c.state ≡ 1
    → c.open_timeout ≤ from_secs (now - c.last_state_change)
    → 0 < c.half_open_timeout
    → 0 < c.half_open_max_calls
    → (call c now (succeeds_at now)).0 ≡ (call (wake c now) now (succeeds_at now)).0
unfolding call wake
call_wakes c now s o w m = ground arith

-- Once the open timeout has passed, an open breaker that has counted no success is closed by
-- `success_threshold` calls that succeed one after another within the half-open timeout, if
-- that many are allowed in the half-open state; then it has counted no failure.
pub recovers :
    (c : CircuitInner) (now : ℕ) (ts : List ℕ)
    → get_state c ≡ open_state
    → c.successes ≡ 0
    → c.open_timeout ≤ from_secs (now - c.last_state_change)
    → suc (length ts) ≡ c.success_threshold
    → c.success_threshold ≤ c.half_open_max_calls
    → c.half_open_max_calls < 2 ^ 32
    → InWindow c now (now ∷ ts)
    → (get_state (call_at (now ∷ ts) c) ≡ closed) × ((call_at (now ∷ ts) c).failures ≡ 0)
unfolding get_state call_at wake
recovers c now ts s z o l m b w = ground (
  arith,
  call_wakes c now (ground arith) o (omega arith) (omega arith),
  call_at_recovers (wake c now) now (now ∷ ts) (λ e. cc) refl (ground arith) w,
)
