-- ===== src/Storage/Streaming.antt =====
-- Reading an object in chunks: `StreamingOssReader` of crates/roboflow-storage/src/streaming.rs.
-- `get_range` of the object store is a parameter of a read: it fails or gives the bytes of the
-- range. On a 64-bit machine every offset is a usize.
pub mod Delivery
pub mod Reading
pub mod Stream
use roboflow.Bytes.{Bytes}
use roboflow.Prelude.{
  Bool, Option, [], false, if◌then◌else◌, leb, length, ltb, min, none, some, take, true, ℕ, ◌%◌,
  ◌+◌, ◌-◌, ◌<◌, ◌^◌, ◌≡◌, ◌≤◌,
}
use roboflow.Storage.Slices.{drop, slice}

pub record StreamingOssReader : Type 0 where
  pub object_size : ℕ
  pub position : ℕ
  pub chunk_size : ℕ
  pub current_buffer : Option Bytes
  pub buffer_offset : ℕ

abbrev pub Fetch : Type 0
Fetch = ℕ → ℕ → Option Bytes

unfoldable pub new_reader : ℕ → ℕ → StreamingOssReader
new_reader object_size chunk_size = record {
  object_size = object_size;
  position = 0;
  chunk_size = chunk_size;
  current_buffer = none;
  buffer_offset = 0;
}

abbrev pub needs_fetch : StreamingOssReader → Option Bytes → Bool
needs_fetch r none = true
needs_fetch r (some buffer) = leb (r.buffer_offset + length buffer) r.position

unfoldable pub fetch_chunk_at : Fetch → ℕ → StreamingOssReader → Option Bytes
fetch_chunk_at get_range start r =
    get_range start (min ((start + r.chunk_size) % 2 ^ 64) r.object_size)

-- `none` is an I/O error, which leaves the reader as it was.
unfoldable pub ensure_buffer : Fetch → StreamingOssReader → Option StreamingOssReader
unfolding fetch_chunk_at
ensure_buffer get_range r =
    if needs_fetch r r.current_buffer
    then (if leb r.object_size r.position
        then some r
        else elim (fetch_chunk_at get_range r.position r) [
          | none ↦ none
          | some chunk ↦ some (record r { current_buffer = some chunk; buffer_offset = r.position })
        ])
    else some r

unfoldable pub buffer_position : StreamingOssReader → ℕ
buffer_position r = if ltb r.position r.buffer_offset then 0 else r.position - r.buffer_offset

-- The copy out of the buffer. `buffer.len() - buf_pos` would underflow where a position lies behind
-- the buffer; here it stops at 0.
unfoldable pub copy_out : ℕ → StreamingOssReader → Option Bytes → Bytes × StreamingOssReader
unfolding buffer_position
copy_out want r none = ([], r)
copy_out want r (some buffer) =
    let buf_pos = buffer_position r in
    let to_read = min (length buffer - buf_pos) want in
    (take to_read (drop buf_pos buffer), record r { position = r.position + to_read })

-- A read into a buffer of `want` bytes: the bytes, or `none` at an I/O error, and the reader.
unfoldable pub read : Fetch → ℕ → StreamingOssReader → Option Bytes × StreamingOssReader
unfolding ensure_buffer copy_out
read get_range want r =
    if leb r.object_size r.position then (some [], r) else elim (ensure_buffer get_range r) [
      | none ↦ (none, r)
      | some r' ↦ let (bytes, r'') = copy_out want r' r'.current_buffer in (some bytes, r'')
    ]

-- Whether the seek was accepted, and the reader.
unfoldable pub seek_to : ℕ → StreamingOssReader → Bool × StreamingOssReader
seek_to offset r =
    if ltb r.object_size offset
    then (false, r)
    else (true, record r { position = offset; current_buffer = none; buffer_offset = 0 })

-- The object store gives the bytes of the range that is asked for, when it answers.
abbrev pub Serves : Bytes → Fetch → Type 0
Serves object get_range =
    (start end : ℕ) (bytes : Bytes)
    → start ≤ end
    → end ≤ length object
    → get_range start end ≡ some bytes
    → bytes ≡ slice start end object

-- A reader of the object.
pub record Reads (object : Bytes) (r : StreamingOssReader) : Type 0 where
  pub size : r.object_size ≡ length object
  pub chunk_positive : 0 < r.chunk_size
  pub no_overflow : r.object_size + r.chunk_size < 2 ^ 64
  pub in_object : r.position ≤ r.object_size
  pub buffered :
      (buffer : Bytes)
      → r.current_buffer ≡ some buffer
      → (r.buffer_offset ≤ r.position)
        × (r.buffer_offset + length buffer ≤ r.object_size)
        × (r.position ≤ r.buffer_offset + length buffer)
        × (buffer ≡ slice r.buffer_offset (r.buffer_offset + length buffer) object)
