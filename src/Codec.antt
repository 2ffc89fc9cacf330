-- ===== src/Codec.antt =====
-- What the code relies on of the serializers (bincode, serde_json, serde_yaml): a value that was
-- written reads back. Both directions may fail.
pub mod Table
use roboflow.Bytes.{Bytes}
use roboflow.Prelude.{Option, some, ◌≡◌}

pub record Codec (A : Type 0) : Type 0 where
  pub serialize : A → Option Bytes
  pub deserialize : Bytes → Option A
  pub deserialize-serialize : (a : A) (b : Bytes) → serialize a ≡ some b → deserialize b ≡ some a
