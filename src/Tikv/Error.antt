-- ===== src/Tikv/Error.antt =====
-- The errors of the TiKV layer: crates/roboflow-distributed/src/tikv/error.rs. Messages are bytes.
use roboflow.Prelude.{ℕ, Bool, true, false, ◌||◌}
use roboflow.Bytes.{Bytes, codes, contains}

pub data TikvError : Type 0 where
  connection_failed transaction_aborted key_not_found serialization deserialization :
      Bytes → TikvError
  cas_failed : ℕ → ℕ → TikvError
  lock_acquisition_failed invalid_config timeout : Bytes → TikvError
  write_conflict : TikvError
  client_error : Bytes → TikvError
  retryable : ℕ → ℕ → Bytes → TikvError
  other : Bytes → TikvError
  circuit_open : ℕ → TikvError

unfoldable pub is_retryable : TikvError → Bool
is_retryable write_conflict = true
is_retryable (retryable _ _ _) = true
is_retryable (timeout _) = true
is_retryable (connection_failed _) = true
is_retryable (transaction_aborted msg) =
    contains (codes "WriteConflict") msg
    || contains (codes "Write Conflict") msg
    || contains (codes "key_version") msg
is_retryable (client_error msg) =
    contains (codes "WriteConflict") msg
    || contains (codes "Write Conflict") msg
    || contains (codes "key_version") msg
    || contains (codes "PessimisticLock") msg
    || contains (codes "PessimisticRetry") msg
is_retryable (lock_acquisition_failed _) = true
is_retryable _ = false

-- `Result<T, TikvError>`.
pub data Result (A : Type 0) : Type 0 where
  ok : A → Result A
  err : TikvError → Result A

unfoldable pub is_write_conflict : TikvError → Bool
is_write_conflict write_conflict = true
is_write_conflict (client_error msg) =
    contains (codes "WriteConflict") msg || contains (codes "key_version") msg
is_write_conflict (transaction_aborted msg) =
    contains (codes "WriteConflict") msg || contains (codes "key_version") msg
is_write_conflict _ = false
