-- ===== src/Storage/Streaming/Delivery.antt =====
-- What `StreamingOssReader` of crates/roboflow-storage/src/streaming.rs delivers: the bytes of the
-- object, whatever the sizes of the reads and the chunks.
use roboflow.Bytes.{Bytes}
use roboflow.Frames.{len}
use roboflow.Prelude.{
  ap, arith, false, length, min, refl, some, subst, take, ℕ, ◌%◌, ◌+◌, ◌-◌, ◌<◌, ◌^◌, ◌∙◌, ◌≡◌, ◌≤◌,
}
use roboflow.Storage.Slices.{
  drop, drop-drop, length-drop, length-slice, length-take-le, slice, take-drop-take,
}
use roboflow.Storage.Streaming.{
  Fetch, Reads, Serves, StreamingOssReader, buffer_position, copy_out, fetch_chunk_at, needs_fetch,
}

-- A read that was answered.
pub record Delivered (object : Bytes) (want : ℕ) (r r' : StreamingOssReader) (bytes : Bytes)
    : Type 0 where
  pub in_place : bytes ≡ slice r.position (r.position + length bytes) object
  pub advanced : r'.position ≡ r.position + length bytes
  pub fits : length bytes ≤ want
  pub progress : 0 < want → r.position < r.object_size → 0 < length bytes
  pub reads : Reads object r'

-- A buffer that holds the byte at the reader's position.
pub record Holds (object : Bytes) (r : StreamingOssReader) (buffer : Bytes) : Type 0 where
  pub reads : Reads object r
  pub is_current : r.current_buffer ≡ some buffer
  pub ahead : r.position < r.buffer_offset + length buffer

buffer_position_ahead :
    (r : StreamingOssReader)
    → r.buffer_offset ≤ r.position
    → buffer_position r ≡ r.position - r.buffer_offset
unfolding buffer_position
buffer_position_ahead r le = ground arith

-- A part of a part is a part of the whole.
part_of_part :
    (off p n len : ℕ) (object buffer : Bytes)
    → p + n ≤ len
    → buffer ≡ slice off (off + len) object
    → take n (drop p buffer) ≡ slice (off + p) (off + p + n) object
part_of_part off p n len object buffer le e =
    let whole : buffer ≡ take len (drop off object) =
      e ∙ ap (λ k. take k (drop off object)) (omega arith) in
    ap (λ b. take n (drop p b)) whole
    ∙ take-drop-take n p len (drop off object) le
    ∙ ap (take n) (drop-drop p off object)
    ∙ ap (λ k. take k (drop (off + p) object)) (omega arith)

module _ (object : Bytes) where
  pub copied :
      (want : ℕ) (r : StreamingOssReader) (buffer : Bytes)
      → Holds object r buffer
      → let out = copy_out want r (some buffer) in Delivered object want r out.1 out.0
  unfolding copy_out
  copied want r buffer h =
      let facts = h.reads.buffered buffer h.is_current in
      let p = r.position - r.buffer_offset in
      let n = min (length buffer - p) want in
      let at : buffer_position r ≡ p = buffer_position_ahead r facts.0 in
      let long : length (take n (drop p buffer)) ≡ n =
        length-take-le n (drop p buffer) (omega (arith, length-drop p buffer)) in
      let whole : r.buffer_offset + p ≡ r.position = omega (arith, facts.0) in
      rw at (record {
        in_place =
            subst
              (λ q. take n (drop p buffer) ≡ slice q (q + length (take n (drop p buffer))) object)
              whole
              (rw long (
                part_of_part r.buffer_offset p n (length buffer) object buffer
                  (omega (arith, facts)) facts.3));
        advanced = omega (arith, long);
        fits = omega (arith, long);
        progress = λ w _. omega (arith, long, facts, h.ahead, w);
        reads = record {
          size = h.reads.size;
          chunk_positive = h.reads.chunk_positive;
          no_overflow = h.reads.no_overflow;
          in_object = omega (arith, facts);
          buffered = λ b e.
              let same : buffer ≡ b = cc in
              subst
                (λ c.
                  (r.buffer_offset ≤ r.position + n)
                  × (r.buffer_offset + length c ≤ r.object_size)
                  × (r.position + n ≤ r.buffer_offset + length c)
                  × (c ≡ slice r.buffer_offset (r.buffer_offset + length c) object))
                same (omega (arith, facts), facts.1, omega (arith, facts), facts.3);
        };
      })

  pub fetched :
      (g : Fetch) (r : StreamingOssReader) (chunk : Bytes)
      → Reads object r
      → Serves object g
      → r.position < r.object_size
      → fetch_chunk_at g r.position r ≡ some chunk
      → Holds object (record r { current_buffer = some chunk; buffer_offset = r.position }) chunk
  unfolding fetch_chunk_at
  fetched g r chunk reads serves inside e =
      let end = min ((r.position + r.chunk_size) % 2 ^ 64) r.object_size in
      let bounds : (r.position < end) × (end ≤ length object) =
        (omega (arith, reads.no_overflow, reads.chunk_positive), omega (arith, reads.size)) in
      let same : chunk ≡ slice r.position end object =
        serves r.position end chunk (omega (arith, bounds)) bounds.1 e in
      let long : length chunk ≡ end - r.position =
        ap length same ∙ length-slice r.position end object bounds.1 in
      record {
        reads = record {
          size = reads.size;
          chunk_positive = reads.chunk_positive;
          no_overflow = reads.no_overflow;
          in_object = reads.in_object;
          buffered = λ b q.
              let eq : chunk ≡ b = cc in
              subst
                (λ c.
                  (r.position ≤ r.position)
                  × (r.position + length c ≤ r.object_size)
                  × (r.position ≤ r.position + length c)
                  × (c ≡ slice r.position (r.position + length c) object))
                eq
                (
                  omega arith,
                  omega (arith, long, bounds),
                  omega arith,
                  same ∙ ap (λ k. take k (drop r.position object)) (omega (arith, long, bounds)),
                );
        };
        is_current = refl;
        ahead = omega (arith, long, bounds);
      }

  pub held :
      (r : StreamingOssReader) (buffer : Bytes)
      → Reads object r
      → r.current_buffer ≡ some buffer
      → needs_fetch r (some buffer) ≡ false
      → Holds object r buffer
  held r buffer reads e fresh = record { reads = reads; is_current = e; ahead = ground arith }
