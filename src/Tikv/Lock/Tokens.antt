-- ===== src/Tikv/Lock/Tokens.antt =====
-- The fencing token that an acquired lock carries.
use roboflow.Bytes.{Bytes, beq_iff, beq_refl}
use roboflow.Codec.{Codec}
use roboflow.Prelude.{
  Bool, Option, arith, none, refl, some, suc, true, zero, ℕ, ◌%◌, ◌+◌, ◌<◌, ◌^◌, ◌∙◌, ◌≡◌, ◌≢◌,
}
use roboflow.Tikv.Client.Healthy.{check_connected-IsHealthy, tick-IsHealthy}
use roboflow.Tikv.Error.{ok}
use roboflow.Tikv.Key.{lock_key}
use roboflow.Tikv.Lock.{
  LockRecord, acquire_lock, acquire_lock_once, decide_acquire, extend, fencing_token,
  finish_acquire, is_expired, is_owned_by, new_lock, retry_lock, write, written,
}
use roboflow.Tikv.Store.{insert, lookup, lookup-insert}
use roboflow.Tikv.World.{IsHealthy, M, World}

module _ (locks : Codec LockRecord) (resource owner d : Bytes) (l : LockRecord)
    (decoded : locks.deserialize d ≡ some l) where
  decide_renewal :
      (ttl now : ℕ)
      → l.owner ≡ owner
      → decide_acquire locks resource owner ttl now (some d)
        ≡ written locks (locks.serialize (extend l ttl now))
  unfolding decide_acquire is_owned_by
  decide_renewal ttl now own = rw (decoded, decide_acquire) (ground (arith, beq_iff l.owner owner))

  decide_takeover :
      (ttl now : ℕ)
      → l.owner ≢ owner
      → l.expires_at < now
      → decide_acquire locks resource owner ttl now (some d)
        ≡ written locks (locks.serialize (new_lock resource owner ttl now))
  unfolding decide_acquire is_owned_by is_expired
  decide_takeover ttl now foreign expired =
      rw (decoded, decide_acquire) (ground (arith, beq_iff l.owner owner))

finish_write :
    (locks : Codec LockRecord) (key b : Bytes) (w : World)
    → IsHealthy w
    → finish_acquire locks key (write b) w ≡ (ok true, record w { store = insert key b w.store })
unfolding finish_acquire
finish_write locks key b w h = simp (tick-IsHealthy w h)

acquire_once-IsHealthy :
    (locks : Codec LockRecord) (resource owner : Bytes) (ttl : ℕ) (w : World)
    → IsHealthy w
    → acquire_lock_once locks resource owner ttl w
      ≡ finish_acquire locks
          (lock_key resource)
          (decide_acquire locks resource owner ttl w.now (lookup (lock_key resource) w.store))
          w
unfolding acquire_lock_once
acquire_once-IsHealthy locks resource owner ttl w h =
    simp (check_connected-IsHealthy w h, tick-IsHealthy w h)

retry_lock_ok :
    (locks : Codec LockRecord) (n : ℕ) (once : M Bool) (a : Bool) (w v : World)
    → once w ≡ (ok a, v)
    → retry_lock locks n once w ≡ (ok a, v)
unfolding retry_lock
retry_lock_ok locks zero once a w v e = e
retry_lock_ok locks (suc n) once a w v e = rw e

acquire_writes :
    (locks : Codec LockRecord) (resource owner b : Bytes) (ttl : ℕ) (w : World)
    → IsHealthy w
    → decide_acquire locks resource owner ttl w.now (lookup (lock_key resource) w.store) ≡ write b
    → acquire_lock locks resource owner ttl w
      ≡ (ok true, record w { store = insert (lock_key resource) b w.store })
unfolding acquire_lock
acquire_writes locks resource owner b ttl w h decided =
    retry_lock_ok locks w.max_retries _ true w _ (
      acquire_once-IsHealthy locks resource owner ttl w h
      ∙ rw decided (finish_write locks (lock_key resource) b w h))

abbrev pub token_in : Option LockRecord → Option ℕ
token_in none = none
token_in (some l) = some (fencing_token l)

abbrev pub token_stored : Codec LockRecord → Option Bytes → Option ℕ
token_stored locks none = none
token_stored locks (some b) = token_in (locks.deserialize b)

-- The token of the lock that the store holds on a resource.
abbrev pub current_token : Codec LockRecord → Bytes → World → Option ℕ
current_token locks resource w = token_stored locks (lookup (lock_key resource) w.store)

abbrev pub AcquiresWith : Codec LockRecord → Bytes → Bytes → ℕ → World → ℕ → Type 0
AcquiresWith locks resource owner ttl w token =
    ((acquire_lock locks resource owner ttl w).0 ≡ ok true)
    × (current_token locks resource ((acquire_lock locks resource owner ttl w).1) ≡ some token)

written_token :
    (locks : Codec LockRecord) (resource owner b : Bytes) (fresh : LockRecord) (ttl : ℕ) (w : World)
    → IsHealthy w
    → locks.serialize fresh ≡ some b
    → decide_acquire locks resource owner ttl w.now (lookup (lock_key resource) w.store)
      ≡ written locks (locks.serialize fresh)
    → AcquiresWith locks resource owner ttl w (fencing_token fresh)
written_token locks resource owner b fresh ttl w h fits decided =
    rw (acquire_writes locks resource owner b ttl w h (decided ∙ rw fits refl)) (
      refl,
      rw
          (
            lookup-insert (lock_key resource) (lock_key resource) b w.store,
            beq_refl (lock_key resource),
            locks.deserialize-serialize fresh b fits,
          )
          refl,
    )

module _ (locks : Codec LockRecord) (resource owner d b : Bytes) (l : LockRecord) (ttl : ℕ)
    (w : World) (h : IsHealthy w) (stored : lookup (lock_key resource) w.store ≡ some d)
    (decoded : locks.deserialize d ≡ some l) where
  -- With a client that nothing stands in the way of, the owner of a stored lock that acquires it
  -- again, where the new record can be written, renews it, and its token is the next one.
  pub renewal_token :
      l.owner ≡ owner
      → locks.serialize (extend l ttl w.now) ≡ some b
      → AcquiresWith locks resource owner ttl w ((fencing_token l + 1) % 2 ^ 64)
  unfolding extend fencing_token
  renewal_token own fits =
      written_token locks resource owner b (extend l ttl w.now) ttl w h fits
        (rw stored (decide_renewal locks resource owner d l decoded ttl w.now own))

  -- With a client that nothing stands in the way of, whoever acquires a stored lock of another
  -- owner that has expired, where the new record can be written, gets the token 1, whatever token
  -- the last holder had.
  pub takeover_token :
      l.owner ≢ owner
      → l.expires_at < w.now
      → locks.serialize (new_lock resource owner ttl w.now) ≡ some b
      → AcquiresWith locks resource owner ttl w 1
  unfolding new_lock fencing_token
  takeover_token foreign expired fits =
      written_token locks resource owner b (new_lock resource owner ttl w.now) ttl w h fits
        (rw stored (decide_takeover locks resource owner d l decoded ttl w.now foreign expired))
