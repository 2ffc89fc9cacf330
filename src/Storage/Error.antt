-- ===== src/Storage/Error.antt =====
-- The errors of storage: crates/roboflow-storage/src/error.rs. An I/O error of the library stands
-- as its text.
use roboflow.Bytes.{Bytes}
use roboflow.Prelude.{Bool, false, true}

pub data StorageError : Type 0 where
  not_found : Bytes → StorageError
  permission_denied : Bytes → StorageError
  already_exists : Bytes → StorageError
  invalid_path : Bytes → StorageError
  network_error : Bytes → StorageError
  timed_out : Bytes → StorageError
  io_error : Bytes → StorageError
  cloud : Bytes → StorageError
  other_error : Bytes → StorageError

unfoldable pub storage_is_retryable : StorageError → Bool
storage_is_retryable (network_error e) = true
storage_is_retryable (timed_out e) = true
storage_is_retryable (cloud e) = true
storage_is_retryable e = false

-- A result with its own error type.
pub data Returned (E A : Type 0) : Type 0 where
  success : A → Returned E A
  failure : E → Returned E A
