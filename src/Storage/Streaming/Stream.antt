-- ===== src/Storage/Streaming/Stream.antt =====
-- Many reads of `StreamingOssReader` of crates/roboflow-storage/src/streaming.rs, one after another.
use roboflow.Bytes.{Bytes}
use roboflow.Prelude.{
  List, Option, [], ap, arith, length, none, refl, some, sym, take, ℕ, ◌++◌, ◌+◌, ◌<◌, ◌^◌, ◌∙◌,
  ◌∷◌, ◌≡◌, ◌≤◌,
}
use roboflow.Storage.Slices.{slice, slice-append, slice_none}
use roboflow.Storage.Streaming.{Fetch, Reads, Serves, StreamingOssReader, new_reader, read}
use roboflow.Storage.Streaming.Reading.{Answer, Answer-Reads, answered, failed, read_answers}

module _ (object : Bytes) where
  abbrev pub after_read : Option Bytes → Bytes → Bytes
  after_read none rest = rest
  after_read (some bytes) rest = bytes ++ rest

  -- The bytes of all reads, where a failed one is left out, and the reader.
  abbrev pub read_all : List (Fetch × ℕ) → StreamingOssReader → Bytes × StreamingOssReader
  read_all [] r = ([], r)
  read_all ((g, want) ∷ reads) r =
      let (out, r') = read g want r in
      let (rest, r'') = read_all reads r' in (after_read out rest, r'')

  abbrev pub AllServe : List (Fetch × ℕ) → Type 0
  AllServe [] = Unit {0}
  AllServe ((g, want) ∷ reads) = Serves object g × AllServe reads

  record Streamed (r : StreamingOssReader) (out : Bytes × StreamingOssReader) : Type 0 where
    bytes : out.0 ≡ slice r.position out.1.position object
    onward : r.position ≤ out.1.position
    still : Reads object out.1

  step_Streamed :
      (want : ℕ) (r : StreamingOssReader) (reads : List (Fetch × ℕ))
      (out : Option Bytes × StreamingOssReader)
      → Answer object want r out
      → Streamed out.1 (read_all reads out.1)
      → Streamed r (after_read out.0 (read_all reads out.1).0, (read_all reads out.1).1)
  step_Streamed want r reads _ failed later = later
  step_Streamed want r reads _ (answered bytes r' d) later = record {
    bytes =
        ap (λ b. b ++ (read_all reads r').0)
          (d.in_place ∙ ap (λ q. slice r.position q object) (sym d.advanced))
        ∙ ap (λ b. slice r.position r'.position object ++ b) later.bytes
        ∙ slice-append r.position r'.position (read_all reads r').1.position object
            (omega (arith, d.advanced)) later.onward;
    onward = omega (arith, d.advanced, later.onward);
    still = later.still;
  }

  read_all-Streamed :
      (reads : List (Fetch × ℕ)) (r : StreamingOssReader)
      → Reads object r
      → AllServe reads
      → Streamed r (read_all reads r)
  read_all-Streamed [] r rd serve = record {
    bytes = slice_none r.position r.position object (omega arith);
    onward = omega arith;
    still = rd;
  }
  read_all-Streamed ((g, want) ∷ reads) r rd serve =
      let a = read_answers object g want r rd serve.0 in
      step_Streamed want r reads (read g want r) a (
        read_all-Streamed reads (read g want r).1 (Answer-Reads object want r (read g want r) a rd)
          serve.1)

  -- A new reader of the object, read any number of times with buffers of any sizes, through fetches
  -- that serve the object or fail: the bytes that it delivered are the object's first ones, up to
  -- its position, which is within the object. (The chunk size is not 0, and no offset overflows.)
  pub new_reader_streams :
      (chunk_size : ℕ) (reads : List (Fetch × ℕ))
      → 0 < chunk_size
      → length object + chunk_size < 2 ^ 64
      → AllServe reads
      → let (bytes, r) = read_all reads (new_reader (length object) chunk_size) in
        (bytes ≡ take r.position object) × (r.position ≤ length object)
  unfolding new_reader
  new_reader_streams chunk_size reads positive room serve =
      let r = new_reader (length object) chunk_size in
      let start : Reads object r = record {
        size = refl;
        chunk_positive = positive;
        no_overflow = room;
        in_object = omega arith;
        buffered = λ b e. absurd (cc);
      } in
      let s = read_all-Streamed reads r start serve in
      (
        s.bytes ∙ ap (λ k. take k object) (omega arith),
        omega (arith, s.still.in_object, s.still.size),
      )
