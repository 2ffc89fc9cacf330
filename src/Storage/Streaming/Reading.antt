-- ===== src/Storage/Streaming/Reading.antt =====
-- One read of `StreamingOssReader` of crates/roboflow-storage/src/streaming.rs, on every branch.
use native.Mathlib.Decide.{dec_lt}
use roboflow.Bytes.{Bytes}
use roboflow.Prelude.{
  Bool-cases, Option, Option-cases, [], ap, arith, false, inl, inr, leb, length, none, refl, some,
  subst, sym, true, ℕ, ◌+◌, ◌<◌, ◌∙◌, ◌≡◌, ◌≤◌,
}
use roboflow.Storage.Slices.{slice, slice_none}
use roboflow.Storage.Streaming.{
  Fetch, Reads, Serves, StreamingOssReader, copy_out, ensure_buffer, fetch_chunk_at, needs_fetch,
  read,
}
use roboflow.Storage.Streaming.Delivery.{Delivered, Holds, copied, fetched, held}

module _ (object : Bytes) where
  -- A read either fails, and the reader stays as it is, or delivers bytes of the object.
  pub data Answer (want : ℕ) (r : StreamingOssReader)
      : Option Bytes × StreamingOssReader → Type 0 where
    failed : Answer want r (none, r)
    answered :
        (bytes : Bytes) (r' : StreamingOssReader)
        → Delivered object want r r' bytes
        → Answer want r (some bytes, r')

  abbrev loaded : StreamingOssReader → Bytes → StreamingOssReader
  loaded r chunk = record r { current_buffer = some chunk; buffer_offset = r.position }

  module _ (g : Fetch) (r : StreamingOssReader) (reads : Reads object r) (serves : Serves object g)
      (inside : r.position < r.object_size) where
    ensure_failed :
        needs_fetch r r.current_buffer ≡ true
        → fetch_chunk_at g r.position r ≡ none
        → ensure_buffer g r ≡ none
    unfolding ensure_buffer
    ensure_failed needs e = ground arith

    ensure_loaded :
        (chunk : Bytes)
        → needs_fetch r r.current_buffer ≡ true
        → fetch_chunk_at g r.position r ≡ some chunk
        → ensure_buffer g r ≡ some (loaded r chunk)
    unfolding ensure_buffer
    ensure_loaded chunk needs e = ground arith

    ensure_kept : needs_fetch r r.current_buffer ≡ false → ensure_buffer g r ≡ some r
    unfolding ensure_buffer
    ensure_kept needs = ground arith

    read_failed : ensure_buffer g r ≡ none → (want : ℕ) → read g want r ≡ (none, r)
    unfolding read
    read_failed e want = ground arith

    read_copied :
        (r' : StreamingOssReader) (buffer : Bytes) (want : ℕ)
        → ensure_buffer g r ≡ some r'
        → r'.current_buffer ≡ some buffer
        → read g want r
          ≡ (some (copy_out want r' (some buffer)).0, (copy_out want r' (some buffer)).1)
    unfolding read
    read_copied r' buffer want e q = ground arith

    answered_by :
        (r' : StreamingOssReader) (buffer : Bytes) (want : ℕ)
        → ensure_buffer g r ≡ some r'
        → r'.position ≡ r.position
        → r'.object_size ≡ r.object_size
        → Holds object r' buffer
        → Answer want r (read g want r)
    answered_by r' buffer want e at same_size h =
        let d = copied object want r' buffer h in
        rw (read_copied r' buffer want e h.is_current) (
          answered (copy_out want r' (some buffer)).0 (copy_out want r' (some buffer)).1 (record {
            in_place =
                let bytes = (copy_out want r' (some buffer)).0 in
                subst (λ q. bytes ≡ slice q (q + length bytes) object) at d.in_place;
            advanced = omega (arith, d.advanced, at);
            fits = d.fits;
            progress = λ w i. d.progress w (omega (arith, at, same_size));
            reads = d.reads;
          }))

    read_inside : (want : ℕ) → Answer want r (read g want r)
    read_inside want = elim (Bool-cases (needs_fetch r r.current_buffer)) [
      | inl needs ↦ elim (Option-cases (fetch_chunk_at g r.position r)) [
        | inl e ↦ rw (read_failed (ensure_failed needs e) want) failed
        | inr (chunk, e) ↦
            answered_by (loaded r chunk) chunk want (ensure_loaded chunk needs e) refl refl
              (fetched object g r chunk reads serves inside e)
      ]
      | inr kept ↦ elim (Option-cases r.current_buffer) [
        | inl e ↦ absurd (cc (ap (needs_fetch r) e))
        | inr (buffer, e) ↦
            answered_by r buffer want (ensure_kept kept) refl refl
              (held object r buffer reads e (sym (ap (needs_fetch r) e) ∙ kept))
      ]
    ]

  pub Answer-Reads :
      (want : ℕ) (r : StreamingOssReader) (out : Option Bytes × StreamingOssReader)
      → Answer want r out
      → Reads object r
      → Reads object out.1
  Answer-Reads want r _ failed rd = rd
  Answer-Reads want r _ (answered bytes r' d) rd = d.reads

  read_at_end :
      (g : Fetch) (want : ℕ) (r : StreamingOssReader)
      → Reads object r
      → r.object_size ≤ r.position
      → Answer want r (read g want r)
  unfolding read
  read_at_end g want r reads end =
      let stop : leb r.object_size r.position ≡ true = ground arith in
      rw (read, stop)
        (answered [] r (record {
          in_place = slice_none r.position (r.position + 0) object (omega arith);
          advanced = omega arith;
          fits = omega arith;
          progress = λ w i. absurd (omega arith);
          reads = reads;
        }))

  -- A read of a reader of the object, when the store serves the object, either fails and leaves the
  -- reader as it was, or delivers the bytes of the object from the reader's position on, at most
  -- as many as were asked for and at least one before the end, and moves on by as many.
  pub read_answers :
      (g : Fetch) (want : ℕ) (r : StreamingOssReader)
      → Reads object r
      → Serves object g
      → Answer want r (read g want r)
  read_answers g want r reads serves = elim (dec_lt r.position r.object_size) [
    | yes inside ↦ read_inside g r reads serves inside want
    | no outside ↦ read_at_end g want r reads (omega arith)
  ]
