-- ===== src/Storage/Multipart.antt =====
-- Uploads in parts: crates/roboflow-storage/src/multipart.rs. The upload of the object store is a
-- parameter, a state `U` with `put_part`, `complete` and `abort`. The reader stands for the file
-- that it reads without errors; times and the reports of progress are left out.
mod Tests
pub mod Content
use roboflow.Bytes.{Bytes, codes}
use roboflow.Lifecycle.{attempts}
use roboflow.Prelude.{
  Bool, Option, false, if◌then◌else◌, leb, length, ltb, min, none, some, suc, true, zero, ℕ, ◌%◌,
  ◌&&◌, ◌*◌, ◌+◌, ◌-◌, ◌/◌, ◌==◌, ◌^◌,
}
use roboflow.Storage.Error.{Returned, StorageError, cloud, failure, success}
use roboflow.Storage.Slices.{slice}
use roboflow.Tikv.Client.{put}

pub record MultipartConfig : Type 0 where
  pub part_size : ℕ
  pub threshold : ℕ
  pub max_retries : ℕ

pub record MultipartStats : Type 0 where
  pub total_bytes : ℕ
  pub total_parts : ℕ
  pub retried_parts : ℕ

abbrev pub default_multipart : MultipartConfig
default_multipart = record {
  part_size = 64 * 1024 * 1024;
  threshold = 100 * 1024 * 1024;
  max_retries = 3;
}

-- `with_part_size`, where `none` stands for the panic.
unfoldable pub with_part_size : ℕ → MultipartConfig → Option MultipartConfig
with_part_size part_size c =
    if leb (5 * 1024 * 1024) part_size && leb part_size (5 * 1024 * 1024 * 1024)
    then some (record c { part_size = part_size })
    else none

unfoldable pub part_count : MultipartConfig → ℕ → ℕ
part_count c file_size = if file_size == 0 then 0 else (file_size + c.part_size - 1) / c.part_size

-- How the attempts at one part end: it is there, perhaps after a retry, or it has failed.
pub data PartEnd : Type 0 where
  uploaded : Bool → PartEnd
  given_up : StorageError → PartEnd

abbrev pub give_up : Option StorageError → PartEnd
give_up none = given_up (cloud (codes "Part failed after retries (no error captured)"))
give_up (some e) = given_up e

module _ {U : Type 0} (put_part : Bytes → U → Returned StorageError (Unit {0}) × U)
    (complete abort : U → Returned StorageError (Unit {0}) × U) where
  -- The attempts that are left, whether one has failed, and the last error.
  unfoldable pub put_with_retry : ℕ → Bool → Option StorageError → Bytes → U → PartEnd × U
  put_with_retry zero retried last_error part u = (give_up last_error, u)
  put_with_retry (suc attempts) retried last_error part u = elim (put_part part u).0 [
    | success done ↦ (uploaded retried, (put_part part u).1)
    | failure e ↦ put_with_retry attempts true (some e) part (put_part part u).1
  ]

  -- The bytes that are read for a part.
  unfoldable pub part_at : MultipartConfig → Bytes → ℕ → Bytes
  part_at c file part_index =
      let offset = part_index * c.part_size in
      slice offset (offset + min c.part_size (length file - offset)) file

  -- The parts that are left, from an index on.
  unfoldable pub upload_parts :
      MultipartConfig → Bytes → ℕ → ℕ → ℕ → U → Returned StorageError ℕ × U
  unfolding put_with_retry part_at
  upload_parts c file zero part_index retried_parts u = (success retried_parts, u)
  upload_parts c file (suc left) part_index retried_parts u =
      let put = put_with_retry (suc c.max_retries) false none (part_at c file part_index) u in
      elim put.0 [
        | uploaded retried ↦
            upload_parts c file left (part_index + 1) (retried_parts + (if retried then 1 else 0))
              put.1
        | given_up e ↦ (failure e, (abort put.1).1)
      ]

  unfoldable pub complete_internal : ℕ → ℕ → ℕ → U → Returned StorageError MultipartStats × U
  complete_internal total_bytes total_parts retried_parts u = elim (complete u).0 [
    | success done ↦ (
      success (record {
        total_bytes = total_bytes;
        total_parts = total_parts % 2 ^ 32;
        retried_parts = retried_parts;
      }),
      (complete u).1,
    )
    | failure e ↦ (failure e, (complete u).1)
  ]

  unfoldable pub upload_small : Bytes → U → Returned StorageError MultipartStats × U
  unfolding complete_internal
  upload_small file u = elim (put_part file u).0 [
    | success done ↦ complete_internal (length file) 1 0 (put_part file u).1
    | failure e ↦ (failure e, (put_part file u).1)
  ]

  unfoldable pub upload_from_reader :
      MultipartConfig → Bytes → U → Returned StorageError MultipartStats × U
  unfolding upload_small upload_parts part_count complete_internal
  upload_from_reader c file u =
      if ltb (length file) c.threshold
      then upload_small file u
      else (let parts = upload_parts c file (part_count c (length file)) 0 0 u in
          elim parts.0 [
            | success retried_parts ↦
                complete_internal (length file) (part_count c (length file)) retried_parts parts.1
            | failure e ↦ (failure e, parts.1)
          ])
