-- ===== src/Storage/Tests.antt =====
-- Runs of storage, and its theorems at concrete inputs.
use roboflow.Bytes.{Bytes, beq, codes, starts_with, strip_prefix}
use roboflow.Prelude.{
  List, [], arith, if◌then◌else◌, length, ltb, none, refl, some, take, ℕ, ◌++◌, ◌+◌, ◌-◌, ◌∷◌, ◌≡◌,
  ◌≤◌,
}
use roboflow.Storage.Error.{
  Returned, StorageError, failure, storage_is_retryable, success, timed_out,
}
use roboflow.Storage.Retry.{Retried, Stops, retry_with_backoff, retry_with_backoff_ends}
use roboflow.Storage.Slices.{slice}
use roboflow.Storage.Streaming.{Fetch, Reads, Serves, StreamingOssReader, new_reader, read}
use roboflow.Storage.Streaming.Stream.{new_reader_streams, read_all}
use roboflow.Storage.Url.{StorageUrl, from_str, local, print_url, s3, trim}
use roboflow.Storage.Url.RoundTrip.{from_str-print_url}

-- An operation that times out twice and then answers with the number of calls before it.
abbrev third_time : ℕ → Returned StorageError ℕ × ℕ
third_time n = (if ltb n 2 then failure (timed_out []) else success n, n + 1)

retried_twice : retry_with_backoff storage_is_retryable third_time 5 0 ≡ (some (success 2), 3)
unfolding retry_with_backoff storage_is_retryable
retried_twice = refl

gives_up :
    retry_with_backoff storage_is_retryable third_time 1 0 ≡ (some (failure (timed_out [])), 2)
unfolding retry_with_backoff storage_is_retryable
gives_up = refl

retry_with_backoff_ends_example :
    (k : ℕ) × (last : ℕ) × (k ≤ 5)
    × Retried storage_is_retryable third_time k 0 last
    × Stops storage_is_retryable third_time (5 - k) (third_time last).0
    × (retry_with_backoff storage_is_retryable third_time 5 0
        ≡ (some (third_time last).0, (third_time last).1))
retry_with_backoff_ends_example = retry_with_backoff_ends storage_is_retryable third_time 5 0

abbrev object : Bytes
object = codes "abcdefghij"

abbrev whole_range : Fetch
whole_range start end = some (slice start end object)

whole_range-Serves : Serves object whole_range
whole_range-Serves start end bytes le le' e = cc

abbrev new_stream : StreamingOssReader
new_stream = record {
  object_size = 10;
  position = 0;
  chunk_size = 4;
  current_buffer = none;
  buffer_offset = 0;
}

new_stream-Reads : Reads object new_stream
new_stream-Reads = record {
  size = refl;
  chunk_positive = omega arith;
  no_overflow = omega arith;
  in_object = omega arith;
  buffered = λ b e. absurd (cc);
}

abbrev three_reads : List (Fetch × ℕ)
three_reads = (whole_range, 3) ∷ (whole_range, 3) ∷ (whole_range, 8) ∷ []

read_in_parts : (read_all object three_reads (new_reader 10 4)).0 ≡ codes "abcdefgh"
unfolding read new_reader
read_in_parts = refl

new_reader_streams_example :
    let (bytes, r) = read_all object three_reads (new_reader (length object) 4) in
    (bytes ≡ take r.position object) × (r.position ≤ length object)
new_reader_streams_example =
    new_reader_streams object 4 three_reads (omega arith) (omega arith)
      (whole_range-Serves, (whole_range-Serves, (whole_range-Serves, tt)))

abbrev bucket_url : StorageUrl
bucket_url =
    s3 (codes "data") (codes "a/b.bag") (some (codes "http://minio:9000")) (some (codes "eu"))

bucket_printed :
    print_url bucket_url ≡ codes "s3://data/a/b.bag?endpoint=http://minio:9000&region=eu"
unfolding print_url
bucket_printed = refl

localhost_read : from_str (codes "file://localhost/tmp/x") ≡ success (local (codes "/tmp/x"))
unfolding from_str strip_prefix beq
localhost_read = refl

-- A relative path is printed as a URL that reads back as an absolute one.
relative_misread : from_str (print_url (local (codes "tmp/x"))) ≡ success (local (codes "/tmp/x"))
unfolding from_str print_url strip_prefix beq starts_with
relative_misread = refl

-- A no-break space in front and an ideographic space behind are stripped.
white_stripped :
    from_str (194 ∷ 160 ∷ (codes "a" ++ (227 ∷ 128 ∷ 128 ∷ []))) ≡ success (local (codes "a"))
unfolding from_str strip_prefix starts_with
white_stripped = refl

from_str-print_url_example : from_str (print_url bucket_url) ≡ success bucket_url
unfolding print_url trim
from_str-print_url_example =
    from_str-print_url bucket_url
      ((λ e. cc), omega arith, omega arith, omega arith, omega arith, omega arith) refl
