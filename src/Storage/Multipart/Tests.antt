-- ===== src/Storage/Multipart/Tests.antt =====
-- Runs of an upload in parts, and its theorem at a concrete input.
use roboflow.Bytes.{Bytes, codes}
use roboflow.Prelude.{Bool, List, [], arith, false, refl, true, ◌++◌, ◌∷◌, ◌≡◌}
use roboflow.Storage.Error.{Returned, StorageError, failure, success, timed_out}
use roboflow.Storage.Multipart.{MultipartConfig, MultipartStats, upload_from_reader}
use roboflow.Storage.Multipart.Content.{Keeps, upload_from_reader_stores}

-- An upload with the bytes so far, and whether the next parts are refused.
abbrev Upload : Type 0
Upload = Bytes × List Bool

abbrev put : Bytes → Upload → Returned StorageError (Unit {0}) × Upload
put part (bytes, []) = (success tt, (bytes ++ part, []))
put part (bytes, true ∷ refusals) = (failure (timed_out []), (bytes, refusals))
put part (bytes, false ∷ refusals) = (success tt, (bytes ++ part, refusals))

abbrev finish : Upload → Returned StorageError (Unit {0}) × Upload
finish u = (success tt, u)

abbrev contents : Upload → Bytes
contents u = u.0

abbrev four_bytes : MultipartConfig
four_bytes = record { part_size = 4; threshold = 6; max_retries = 2 }

abbrev shaky : Upload
shaky = ([], false ∷ true ∷ true ∷ [])

abbrev ten_bytes : Bytes
ten_bytes = codes "abcdefghij"

abbrev three_parts : MultipartStats
three_parts = record { total_bytes = 10; total_parts = 3; retried_parts = 1 }

uploaded_with_retries :
    upload_from_reader put finish finish four_bytes ten_bytes shaky
    ≡ (success three_parts, (ten_bytes, []))
unfolding upload_from_reader
uploaded_with_retries = refl

too_many_refusals :
    (upload_from_reader put finish finish four_bytes ten_bytes ([], true ∷ true ∷ true ∷ [])).0
    ≡ failure (timed_out [])
unfolding upload_from_reader
too_many_refusals = refl

put-success :
    (part : Bytes) (u : Upload) (done : Unit {0})
    → (put part u).0 ≡ success done
    → contents (put part u).1 ≡ contents u ++ part
put-success part (bytes, []) done e = refl
put-success part (bytes, true ∷ refusals) done e = absurd (cc)
put-success part (bytes, false ∷ refusals) done e = refl

put-failure :
    (part : Bytes) (u : Upload) (e : StorageError)
    → (put part u).0 ≡ failure e
    → contents (put part u).1 ≡ contents u
put-failure part (bytes, []) e q = absurd (cc)
put-failure part (bytes, true ∷ refusals) e q = refl
put-failure part (bytes, false ∷ refusals) e q = absurd (cc)

shaky-Keeps : Keeps put finish finish contents
shaky-Keeps = record {
  put_success = put-success;
  put_failure = put-failure;
  complete_success = λ u done e. refl;
}

upload_from_reader_stores_example :
    contents (upload_from_reader put finish finish four_bytes ten_bytes shaky).1
    ≡ contents shaky ++ ten_bytes
unfolding upload_from_reader
upload_from_reader_stores_example =
    upload_from_reader_stores put finish finish contents shaky-Keeps four_bytes ten_bytes shaky
      three_parts (omega arith) refl
