-- ===== src/Tikv/Lock/Exclusion.antt =====
-- Who holds a lock.
use roboflow.Bytes.{Bytes, beq_iff}
use roboflow.Codec.{Codec}
use roboflow.Prelude.{
  Bool, arith, false, if◌then◌else◌, refl, some, suc, true, zero, ℕ, ◌∙◌, ◌≡◌, ◌≢◌, ◌≤◌,
}
use roboflow.Tikv.Error.{Result, err, is_retryable, ok}
use roboflow.Tikv.Key.{lock_key}
use roboflow.Tikv.Lock.{
  LockRecord, acquire_lock, acquire_lock_once, after_attempt, decide_acquire, finish_acquire,
  is_expired, is_owned_by, leave, retry_lock,
}
use roboflow.Tikv.Store.{lookup}
use roboflow.Tikv.World.{M, World, check_connected, continue, return, tick, ◌>>◌}

-- A call that changes neither the store nor the time.
abbrev Keeps : World → World → Type 0
Keeps w v = (v.store ≡ w.store) × (v.now ≡ w.now)

tick-Keeps : (w : World) → Keeps w ((tick w).1)
unfolding tick
tick-Keeps w = ground arith

check_connected-Keeps : (w : World) → Keeps w ((check_connected w).1)
unfolding check_connected
check_connected-Keeps w = ground arith

-- The lock was not given, and nothing changed.
abbrev Refused : World → Result Bool × World → Type 0
Refused w x = (x.0 ≢ ok true) × Keeps w (x.1)

Keeps-trans : (u v w : World) → Keeps u v → Keeps v w → Keeps u w
Keeps-trans u v w (a, b) (c, d) = (c ∙ a, d ∙ b)

after_call :
    (k : M Bool) (w : World) (x : Result (Unit {0}) × World)
    → Keeps w (x.1)
    → ((v : World) → Keeps w v → Refused w (k v))
    → Refused w (continue (λ _. k) x)
after_call k w (ok a, v) kept rest = rest v kept
after_call k w (err e, v) kept rest = (ground arith, kept)

module _ (k : M Bool) (w : World) (rest : (v : World) → Keeps w v → Refused w (k v)) where
  after_tick : (u : World) → Keeps w u → Refused w ((tick >> k) u)
  after_tick u kept = after_call k w (tick u) (Keeps-trans w u (tick u).1 kept (tick-Keeps u)) rest

  after_check : Refused w ((check_connected >> k) w)
  after_check = after_call k w (check_connected w) (check_connected-Keeps w) rest

module _ (locks : Codec LockRecord) (resource owner d : Bytes) (l : LockRecord)
    (decoded : locks.deserialize d ≡ some l) (other_owner : l.owner ≢ owner) where
  decide_acquire_held :
      (ttl now : ℕ)
      → now ≤ l.expires_at
      → decide_acquire locks resource owner ttl now (some d) ≡ leave
  unfolding decide_acquire is_owned_by is_expired
  decide_acquire_held ttl now live =
      rw (decoded, decide_acquire) (ground (arith, beq_iff l.owner owner))

  -- The lock is stored, and has not expired.
  abbrev Held : World → Type 0
  Held w = (lookup (lock_key resource) w.store ≡ some d) × (w.now ≤ l.expires_at)

  finish_leave :
      (key : Bytes) (w v : World) → Keeps w v → Refused w (finish_acquire locks key leave v)
  unfolding finish_acquire
  finish_leave key w v kept = after_tick (return false) w (λ u kept'. (ground arith, kept')) v kept

  decide_leaves :
      (ttl : ℕ) (w v : World)
      → Held w
      → Keeps w v
      → decide_acquire locks resource owner ttl v.now (lookup (lock_key resource) v.store) ≡ leave
  decide_leaves ttl w v (stored, live) (same_store, same_now) =
      rw (same_store, stored) (decide_acquire_held ttl v.now (omega arith))

  acquire_once-Refused :
      (ttl : ℕ) (w : World) → Held w → Refused w (acquire_lock_once locks resource owner ttl w)
  unfolding acquire_lock_once
  acquire_once-Refused ttl w held = after_check _ w (
      after_tick _ w (
        after_tick _ w λ v kept.
          rw (decide_leaves ttl w v held kept) (finish_leave (lock_key resource) w v kept)))

  after_refusal :
      (again : M Bool) (u : World) (x : Result Bool × World)
      → Refused u x
      → ((v : World) → Keeps u v → Refused u (again v))
      → Refused u (after_attempt locks x again)
  after_refusal again u (ok b, v) denied rest = denied
  after_refusal again u (err e, v) denied rest =
      elim (is_retryable e) as (λ b. Refused u (if b then again v else (err e, v))) [
        | true ↦ rest v denied.1
        | false ↦ denied
      ]

  keep-Held : (u w : World) → Held u → Keeps u w → Held w
  keep-Held u w held kept = ground arith

  trans-Refused : (u w : World) (x : Result Bool × World) → Keeps u w → Refused w x → Refused u x
  trans-Refused u w x kept (not_given, kept') = (not_given, Keeps-trans u w (x.1) kept kept')

  retry-Refused :
      (n ttl : ℕ) (u w : World)
      → Held u
      → Keeps u w
      → Refused u (retry_lock locks n (acquire_lock_once locks resource owner ttl) w)
  unfolding retry_lock
  retry-Refused zero ttl u w held kept =
      let once = acquire_lock_once locks resource owner ttl in
      trans-Refused u w (once w) kept (acquire_once-Refused ttl w (keep-Held u w held kept))
  retry-Refused (suc n) ttl u w held kept =
      let once = acquire_lock_once locks resource owner ttl in
      after_refusal (retry_lock locks n once) u (once w)
        (trans-Refused u w (once w) kept (acquire_once-Refused ttl w (keep-Held u w held kept)))
        λ v kept'. retry-Refused n ttl u v held kept'

  -- Nobody gets a lock that is stored for another owner and has not expired, however often the
  -- client tries and whatever fails on the way: the call does not answer `true`, and the store is
  -- as it was.
  pub held_lock_excludes :
      (ttl : ℕ) (w : World)
      → lookup (lock_key resource) w.store ≡ some d
      → w.now ≤ l.expires_at
      → ((acquire_lock locks resource owner ttl w).0 ≢ ok true)
        × ((acquire_lock locks resource owner ttl w).1.store ≡ w.store)
  unfolding acquire_lock
  held_lock_excludes ttl w stored live =
      let held = retry-Refused w.max_retries ttl w w (stored, live) (refl, refl) in
      (held.0, held.1.0)
