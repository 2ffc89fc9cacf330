-- ===== src/Tikv/Lock.antt =====
-- Distributed locks: `LockRecord` of crates/roboflow-distributed/src/tikv/schema.rs, the lock
-- operations of crates/roboflow-distributed/src/tikv/client.rs, and the manager of
-- crates/roboflow-distributed/src/tikv/locks.rs without its waits and its background renewal. Times
-- are in seconds, durations in nanoseconds.
pub mod Exclusion
pub mod Tokens
use roboflow.Bytes.{Bytes, beq, codes}
use roboflow.Codec.{Codec}
use roboflow.Prelude.{
  Bool, Option, false, if◌then◌else◌, ltb, min, none, not, some, suc, true, zero, ℕ, ◌%◌, ◌&&◌, ◌+◌,
  ◌-◌, ◌/◌, ◌^◌,
}
use roboflow.Tikv.Client.{get}
use roboflow.Tikv.Error.{Result, TikvError, deserialization, err, is_retryable, ok, serialization}
use roboflow.Tikv.Key.{lock_key}
use roboflow.Tikv.Store.{insert, lookup, remove}
use roboflow.Tikv.World.{
  M, World, check_connected, fail, read_now, read_store, return, tick, write_store, ◌>>=◌, ◌>>◌,
}

pub record LockRecord : Type 0 where
  pub resource : Bytes
  pub owner : Bytes
  pub version : ℕ  -- u64
  pub expires_at : ℕ
  pub acquired_at : ℕ

unfoldable pub new_lock : Bytes → Bytes → ℕ → ℕ → LockRecord
new_lock resource owner ttl_seconds now = record {
  resource = resource;
  owner = owner;
  version = 1;
  expires_at = now + ttl_seconds;
  acquired_at = now;
}

unfoldable pub is_expired : LockRecord → ℕ → Bool
is_expired l now = ltb l.expires_at now

-- `now > expires_at - grace`, where the difference may be negative.
unfoldable pub is_expired_with_grace : LockRecord → ℕ → ℕ → Bool
is_expired_with_grace l grace_seconds now = ltb l.expires_at (now + grace_seconds)

unfoldable pub extend : LockRecord → ℕ → ℕ → LockRecord
extend l ttl_seconds now = record l {
  expires_at = now + ttl_seconds;
  version = (l.version + 1) % 2 ^ 64;
}

unfoldable pub is_owned_by : LockRecord → Bytes → Bool
is_owned_by l pod_id = beq l.owner pod_id

unfoldable pub fencing_token : LockRecord → ℕ
fencing_token l = l.version

-- What a transaction makes of the stored lock: an error, nothing, or a new value.
pub data Decision : Type 0 where
  fault : TikvError → Decision
  leave : Decision
  write : Bytes → Decision

module _ (locks : Codec LockRecord) where
  abbrev pub written : Option Bytes → Decision
  written none = fault (serialization (codes "lock"))
  written (some b) = write b

  abbrev decide_held : Bytes → Bytes → ℕ → ℕ → Option LockRecord → Decision
  decide_held resource owner ttl now none = fault (deserialization (codes "lock"))
  decide_held resource owner ttl now (some existing) =
      if is_owned_by existing owner
      then written (locks.serialize (extend existing ttl now))
      else if not (is_expired existing now)
      then leave
      else written (locks.serialize (new_lock resource owner ttl now))

  unfoldable pub decide_acquire : Bytes → Bytes → ℕ → ℕ → Option Bytes → Decision
  decide_acquire resource owner ttl now none =
      written (locks.serialize (new_lock resource owner ttl now))
  decide_acquire resource owner ttl now (some b) =
      decide_held resource owner ttl now (locks.deserialize b)

  unfoldable pub finish_acquire : Bytes → Decision → M Bool
  finish_acquire key (fault e) = fail e
  finish_acquire key leave = do tick; return false
  finish_acquire key (write b) = do tick; tick; write_store (insert key b); return true

  -- One transaction: begin, read, perhaps write, commit.
  unfoldable pub acquire_lock_once : Bytes → Bytes → ℕ → M Bool
  acquire_lock_once resource owner ttl = do
    check_connected
    tick
    tick
    found ← read_store (lookup (lock_key resource))
    now ← read_now
    finish_acquire (lock_key resource) (decide_acquire resource owner ttl now found)

  abbrev decide_release_held : Bytes → Option LockRecord → Result Bool
  decide_release_held owner none = err (deserialization (codes "lock"))
  decide_release_held owner (some existing) = ok (is_owned_by existing owner)

  -- Whether the lock is to be deleted.
  unfoldable pub decide_release : Bytes → Option Bytes → Result Bool
  decide_release owner none = ok false
  decide_release owner (some b) = decide_release_held owner (locks.deserialize b)

  unfoldable pub finish_release : Bytes → Result Bool → M Bool
  finish_release key (err e) = fail e
  finish_release key (ok false) = do tick; return false
  finish_release key (ok true) = do tick; tick; write_store (remove key); return true

  unfoldable pub release_lock_once : Bytes → Bytes → M Bool
  release_lock_once resource owner = do
    check_connected
    tick
    tick
    found ← read_store (lookup (lock_key resource))
    finish_release (lock_key resource) (decide_release owner found)

  abbrev pub after_attempt :
      Result Bool × World → (World → Result Bool × World) → Result Bool × World
  after_attempt (ok a, w) again = (ok a, w)
  after_attempt (err e, w) again = if is_retryable e then again w else (err e, w)

  -- `for attempt in 0..=max_retries`, by the attempts that are left after this one.
  unfoldable pub retry_lock : ℕ → M Bool → M Bool
  retry_lock zero once w = once w
  retry_lock (suc left) once w = after_attempt (once w) (λ w'. retry_lock left once w')

  unfoldable pub acquire_lock : Bytes → Bytes → ℕ → M Bool
  unfolding retry_lock
  acquire_lock resource owner ttl w =
      retry_lock w.max_retries (acquire_lock_once resource owner ttl) w

  unfoldable pub release_lock : Bytes → Bytes → M Bool
  unfolding retry_lock
  release_lock resource owner w = retry_lock w.max_retries (release_lock_once resource owner) w

  -- Whole seconds, one more for a rest of at least a millisecond; capped at i64::MAX.
  unfoldable pub ttl_secs : ℕ → ℕ
  ttl_secs ttl =
      min (ttl / 1000000000 + (if ltb 0 (ttl % 1000000000 / 1000000) then 1 else 0)) (2 ^ 63 - 1)

  abbrev decode_lock : Option Bytes → M (Option LockRecord)
  decode_lock none = return none
  decode_lock (some b) = elim (locks.deserialize b) [
    | none ↦ fail (deserialization (codes "lock"))
    | some l ↦ return (some l)
  ]

  unfoldable pub read_lock : Bytes → M (Option LockRecord)
  read_lock resource = do found ← get (lock_key resource); decode_lock found

  abbrev live : ℕ → Option LockRecord → Bool
  live now none = false
  live now (some l) = not (is_expired l now)

  unfoldable pub is_locked : Bytes → M Bool
  is_locked resource = do l ← read_lock resource; now ← read_now; return (live now l)

  abbrev live_owner : ℕ → Option LockRecord → Option Bytes
  live_owner now none = none
  live_owner now (some l) = if is_expired l now then none else some l.owner

  unfoldable pub get_owner : Bytes → M (Option Bytes)
  get_owner resource = do l ← read_lock resource; now ← read_now; return (live_owner now l)

  -- `true` stands for the guard that `try_acquire` returns.
  unfoldable pub try_acquire : Bytes → Bytes → ℕ → M Bool
  unfolding ttl_secs
  try_acquire owner resource ttl = acquire_lock resource owner (ttl_secs ttl)

  abbrev can_steal : ℕ → Option LockRecord → Bool
  can_steal now none = true
  can_steal now (some l) = is_expired l now

  unfoldable pub steal : Bytes → Bytes → ℕ → M Bool
  unfolding ttl_secs
  steal owner resource ttl = do
    l ← read_lock resource
    now ← read_now
    if can_steal now l then acquire_lock resource owner (ttl_secs ttl) else return false

  abbrev token_of : Bytes → ℕ → Option LockRecord → Option ℕ
  token_of owner now none = none
  token_of owner now (some l) =
      if is_owned_by l owner && not (is_expired l now) then some (fencing_token l) else none

  -- The guard's token: only while it still owns the lock.
  unfoldable pub guard_fencing_token : Bytes → Bytes → M (Option ℕ)
  guard_fencing_token owner resource = do
    l ← read_lock resource
    now ← read_now
    return (token_of owner now l)
