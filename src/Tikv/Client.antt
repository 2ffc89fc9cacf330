-- ===== src/Tikv/Client.antt =====
-- The TiKV client: crates/roboflow-distributed/src/tikv/client.rs. Waits between attempts are left
-- out.
pub mod Healthy
use roboflow.Prelude.{ℕ, zero, suc, Option, none, some, if◌then◌else◌}
use roboflow.Bytes.{Bytes}
use roboflow.Tikv.Error.{other, Result, ok, err, is_write_conflict}
use roboflow.Tikv.Store.{Store, lookup, insert, remove, scan_entries}
use roboflow.Tikv.World.{
  World, M, ◌>>=◌, ◌>>◌, return, fail, read_store, write_store, tick, guarded_tick, check_permitted,
  check_connected, note_success,
}

-- Twice through the library: a timestamp, and the read.
unfoldable pub get : Bytes → M (Option Bytes)
get key = do
  check_permitted
  check_connected
  guarded_tick
  guarded_tick
  result ← read_store (lookup key)
  note_success
  return result

-- A transaction of one write: begin, write, commit.
write_once : (Store → Store) → M (Unit {0})
write_once f = do
  check_permitted
  check_connected
  guarded_tick
  guarded_tick
  guarded_tick
  write_store f
  note_success

unfoldable pub put_once : Bytes → Bytes → M (Unit {0})
unfolding write_once
put_once key value = write_once (insert key value)

unfoldable pub delete_once : Bytes → M (Unit {0})
unfolding write_once
delete_once key = write_once (remove key)

-- Ends the attempt or makes the next one.
after_write :
    Result (Unit {0}) × World → (World → Result (Unit {0}) × World) → Result (Unit {0}) × World
after_write (ok a, w) next = (ok a, w)
after_write (err e, w) next = if is_write_conflict e then next w else (err e, w)

-- `for attempt in 0..=max_retries`, by the attempts that are left after this one.
unfoldable pub retry_write : ℕ → M (Unit {0}) → M (Unit {0})
unfolding after_write
retry_write zero once w = once w
retry_write (suc left) once w = after_write (once w) (λ w'. retry_write left once w')

unfoldable pub put : Bytes → Bytes → M (Unit {0})
unfolding retry_write
put key value w = retry_write w.max_retries (put_once key value) w

unfoldable pub delete : Bytes → M (Unit {0})
unfolding retry_write
delete key w = retry_write w.max_retries (delete_once key) w

unfoldable pub scan : Bytes → ℕ → M Store
scan prefix limit = do check_connected; tick; tick; read_store (scan_entries prefix limit)

-- What a claim processor makes of the stored value: an error, no claim, or the new value.
pub data Claim : Type 0 where
  broken : Bytes → Claim
  unclaimed : Claim
  claimed : Bytes → Claim

finish_claim : Bytes → Bytes → Claim → M (Option Bytes)
finish_claim key pending (broken msg) = fail (other msg)
finish_claim key pending unclaimed = do tick; return none
finish_claim key pending (claimed v) = do
  tick
  tick
  tick
  write_store (λ m. remove pending (insert key v m))
  return (some v)

claim_found : Bytes → Bytes → (Bytes → Claim) → Option Bytes → M (Option Bytes)
unfolding finish_claim
claim_found key pending process none = do tick; tick; write_store (remove pending); return none
claim_found key pending process (some v) = finish_claim key pending (process v)

-- One pessimistic transaction: the writes take effect together, at the commit.
unfoldable pub transactional_claim : Bytes → Bytes → (Bytes → Claim) → M (Option Bytes)
unfolding claim_found
transactional_claim key pending process = do
  check_connected
  tick
  tick
  found ← read_store (lookup key)
  claim_found key pending process found
