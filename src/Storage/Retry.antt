-- ===== src/Storage/Retry.antt =====
-- Retries with backoff: `retry_with_backoff` of crates/roboflow-core/src/retry.rs. The operation is
-- a function of the state that it acts on; waiting between two calls changes nothing here.
use roboflow.Prelude.{
  Bool, Bool-cases, Option, arith, false, inl, inr, none, refl, some, subst, suc, true, zero, ℕ,
  ◌-◌, ◌≡◌, ◌≤◌, ◌⊎◌,
}
use roboflow.Storage.Error.{Returned, failure, success}

module _ {E A S : Type 0} (retryable : E → Bool) (f : S → Returned E A × S) where
  -- The loop, with the rounds that are left. `none` stands for the panic at a missing error.
  unfoldable pub retry_loop : ℕ → Option E → S → Option (Returned E A) × S
  retry_loop zero none s = (none, s)
  retry_loop zero (some e) s = (some (failure e), s)
  retry_loop (suc rounds) last_error s = elim (f s).0 [
    | success result ↦ (some (success result), (f s).1)
    | failure e ↦ elim (retryable e) [
      | true ↦ retry_loop rounds (some e) (f s).1
      | false ↦ (some (failure e), (f s).1)
    ]
  ]

  -- Attempts 0 to `max_retries`.
  unfoldable pub retry_with_backoff : ℕ → S → Option (Returned E A) × S
  unfolding retry_loop
  retry_with_backoff max_retries s = retry_loop (suc max_retries) none s

  -- Calls from a state to another that all fail in a way that can be retried.
  abbrev pub Retried : ℕ → S → S → Type 0
  Retried zero s last = s ≡ last
  Retried (suc k) s last =
      (e : E) × ((f s).0 ≡ failure e) × (retryable e ≡ true) × Retried k (f s).1 last

  -- No further call is made after such a result, when so many retries are left.
  abbrev pub Stops : ℕ → Returned E A → Type 0
  Stops left (success result) = Unit {0}
  Stops left (failure e) = (retryable e ≡ false) ⊎ (left ≡ 0)

  Returned-cases : (o : Returned E A) → ((a : A) × (o ≡ success a)) ⊎ ((e : E) × (o ≡ failure e))
  Returned-cases (success a) = inl (a, refl)
  Returned-cases (failure e) = inr (e, refl)

  -- How a loop with so many retries left ends.
  abbrev Ends : ℕ → Option E → S → Type 0
  Ends retries last_error s =
      (k : ℕ) × (last : S) × (k ≤ retries)
      × Retried k s last
      × Stops (retries - k) (f last).0
      × (retry_loop (suc retries) last_error s ≡ (some (f last).0, (f last).1))

  loop_success :
      (retries : ℕ) (o : Option E) (s : S) (a : A) → (f s).0 ≡ success a → Ends retries o s
  unfolding retry_loop
  loop_success retries o s a e = (0, s, omega arith, refl, rw e tt, rw (e, retry_loop) refl)

  loop_refused :
      (retries : ℕ) (o : Option E) (s : S) (e : E)
      → (f s).0 ≡ failure e
      → retryable e ≡ false
      → Ends retries o s
  unfolding retry_loop
  loop_refused retries o s e q r =
      (0, s, omega arith, refl, rw q (inl r), rw (q, r, retry_loop) refl)

  loop_exhausted :
      (o : Option E) (s : S) (e : E) → (f s).0 ≡ failure e → retryable e ≡ true → Ends 0 o s
  unfolding retry_loop
  loop_exhausted o s e q r = (0, s, omega arith, refl, rw q (inr refl), rw (q, r, retry_loop) refl)

  loop_again :
      (n : ℕ) (o : Option E) (s : S) (e : E)
      → (f s).0 ≡ failure e
      → retryable e ≡ true
      → Ends n (some e) (f s).1
      → Ends (suc n) o s
  unfolding retry_loop
  loop_again n o s e q r (k, last, le, before, stops, run) = (
    suc k,
    last,
    omega arith,
    (e, q, r, before),
    subst (λ left. Stops left (f last).0) (omega arith) stops,
    rw (retry_loop, q, r) run,
  )

  loop-Ends : (retries : ℕ) (o : Option E) (s : S) → Ends retries o s
  loop-Ends zero o s = elim (Returned-cases (f s).0) [
    | inl (a, q) ↦ loop_success 0 o s a q
    | inr (e, q) ↦ elim (Bool-cases (retryable e)) [
      | inl r ↦ loop_exhausted o s e q r
      | inr r ↦ loop_refused 0 o s e q r
    ]
  ]
  loop-Ends (suc n) o s = elim (Returned-cases (f s).0) [
    | inl (a, q) ↦ loop_success (suc n) o s a q
    | inr (e, q) ↦ elim (Bool-cases (retryable e)) [
      | inl r ↦ loop_again n o s e q r (loop-Ends n (some e) (f s).1)
      | inr r ↦ loop_refused (suc n) o s e q r
    ]
  ]

  -- The retries end, and never in the panic: after `k` calls that failed in a way that can be
  -- retried, at most `max_retries` of them, one more call is the last one, and its result is the
  -- result. That call succeeded, or its error cannot be retried, or it was the call after
  -- `max_retries` retries.
  pub retry_with_backoff_ends :
      (max_retries : ℕ) (s : S)
      → (k : ℕ) × (last : S) × (k ≤ max_retries)
        × Retried k s last
        × Stops (max_retries - k) (f last).0
        × (retry_with_backoff max_retries s ≡ (some (f last).0, (f last).1))
  unfolding retry_with_backoff
  retry_with_backoff_ends max_retries s = loop-Ends max_retries none s
