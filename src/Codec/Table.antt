-- ===== src/Codec/Table.antt =====
-- Serializers that write two values, for tests.
use roboflow.Bytes.{Bytes}
use roboflow.Codec.{Codec}
use roboflow.Prelude.{Option, [], arith, if◌then◌else◌, none, refl, some, ◌==◌, ◌∷◌, ◌≡◌, ◌≢◌}

module _ {A : Type 0} (decide : Discrete A) (a b : A) where
  abbrev or_other : (x : A) → Dec (x ≡ b) → Option Bytes
  or_other x (yes e) = some (2 ∷ [])
  or_other x (no n) = none

  abbrev write_two : (x : A) → Dec (x ≡ a) → Option Bytes
  write_two x (yes e) = some (1 ∷ [])
  write_two x (no n) = or_other x (decide x b)

  abbrev read_two : Bytes → Option A
  read_two (n ∷ []) = if n == 1 then some a else if n == 2 then some b else none
  read_two _ = none

  reads_other : (x : A) (d : Dec (x ≡ b)) (s : Bytes) → or_other x d ≡ some s → read_two s ≡ some x
  reads_other x (yes e) s w = ground arith
  reads_other x (no n) s w = ground arith

  pub reads : (x : A) (d : Dec (x ≡ a)) (s : Bytes) → write_two x d ≡ some s → read_two s ≡ some x
  reads x (yes e) s w = ground arith
  reads x (no n) s w = reads_other x (decide x b) s w

  abbrev pub table : Codec A
  table = record {
    serialize = λ x. write_two x (decide x a);
    deserialize = read_two;
    deserialize-serialize = λ x s w. reads x (decide x a) s w;
  }

  writes : (d : Dec (a ≡ a)) → write_two a d ≡ some (1 ∷ [])
  writes (yes e) = refl
  writes (no n) = absurd (n refl)

  pub table_writes_first : table.serialize a ≡ some (1 ∷ [])
  table_writes_first = writes (decide a a)

  writes_other : (d : Dec (b ≡ b)) → or_other b d ≡ some (2 ∷ [])
  writes_other (yes e) = refl
  writes_other (no n) = absurd (n refl)

  writes_second : (d : Dec (b ≡ a)) → b ≢ a → write_two b d ≡ some (2 ∷ [])
  writes_second (yes e) n = absurd (n e)
  writes_second (no m) n = writes_other (decide b b)

  pub table_writes_second : b ≢ a → table.serialize b ≡ some (2 ∷ [])
  table_writes_second n = writes_second (decide b a) n

module _ {A : Type 0} where
  pub never_written : (a : A) (b : Bytes) → none ≡ some b → none ≡ some a
  never_written a b e = ground arith

  -- A serializer that refuses everything.
  abbrev pub refusing : Codec A
  refusing = record {
    serialize = λ a. none;
    deserialize = λ b. none;
    deserialize-serialize = never_written;
  }
