-- ===== src/Alignment/Conserved.antt =====
-- No frame of the buffer of crates/roboflow-dataset/src/formats/alignment/buffer.rs is lost or
-- emitted twice, however messages come.
use mathlib.Core.List.{Perm, reverse}
use roboflow.Alignment.Buffer.{
  FrameAlignmentBuffer, PartialFrame, TimestampedMessage, add_feature, add_image, add_values,
  align_to_frame_boundary, fill, new_partial, search_timestamp, with_completion_criteria,
}
use roboflow.Alignment.Config.{AlignmentStats, StreamingConfig, update_peak_buffer}
use roboflow.Alignment.Contents.{check_completions-Perm, contents, contents-flush, gathered}
use roboflow.Alignment.Criteria.{FrameCompletionCriteria}
use roboflow.Alignment.Emission.{
  check_completions, check_completions_splits, emit_all, flush, going, process_message, staying,
}
use roboflow.Alignment.Order.{Sorted, staying-Sorted, touch, touch-Sorted}
use roboflow.Alignment.Steps.{
  Position-cases, aligned, emit_all-Counts, fresh_frame, length-reverse, length-staying,
  length-touch, process_all, process_message-aligned,
}
use roboflow.Bytes.{Bytes}
use roboflow.Prelude.{
  List, [], arith, inl, inr, length, length-append, refl, suc, ℕ, ◌++◌, ◌+◌, ◌-◌, ◌<◌, ◌^◌, ◌∷◌,
  ◌≡◌, ◌≤◌,
}

update_peak_buffer_keeps :
    (n : ℕ) (s : AlignmentStats)
    → ((update_peak_buffer n s).frames_processed ≡ s.frames_processed)
      × ((update_peak_buffer n s).normal_completions ≡ s.normal_completions)
      × ((update_peak_buffer n s).force_completions ≡ s.force_completions)
unfolding update_peak_buffer
update_peak_buffer_keeps n s = ground arith

module _ {V : Type 0} where
  record Balanced (n e : ℕ) (b : FrameAlignmentBuffer V) : Type 0 where
    few : b.next_frame_index ≤ n
    balance : e + length b.active_frames ≡ b.next_frame_index
    processed : b.stats.frames_processed ≡ e
    kinds : b.stats.normal_completions + b.stats.force_completions ≡ e
    sorted : Sorted b.active_frames

  pub fill-timestamp :
      (name : Bytes) (msg : TimestampedMessage V) (p : PartialFrame V)
      → (fill name msg p).timestamp ≡ p.timestamp
  unfolding fill add_values add_image add_feature
  fill-timestamp name msg p = ground arith

  check-Balanced :
      (n e : ℕ) (b : FrameAlignmentBuffer V)
      → Balanced n e b
      → Balanced n (e + length (check_completions b).0) (check_completions b).1
  check-Balanced n e b inv =
      let c = b.completion_criteria in
      let gone = going c b.current_timestamp b.active_frames in
      let counts = emit_all-Counts c (reverse gone) ([], b.stats) in
      let stay = length-staying c b.current_timestamp b.active_frames in
      let peak =
        update_peak_buffer_keeps (length (staying c b.current_timestamp b.active_frames))
          (emit_all c (reverse gone) ([], b.stats)).1 in
      let total = length-reverse gone in
      rw (check_completions_splits b) (record {
        few = inv.few;
        balance = omega (arith, inv.balance, counts.emitted, stay, total);
        processed = omega (arith, peak.0, counts.processed, counts.emitted, inv.processed);
        kinds = omega (arith, peak.1, peak.2, counts.kinds, counts.emitted, inv.kinds);
        sorted = staying-Sorted c b.current_timestamp b.active_frames inv.sorted;
      })

  aligned-Balanced :
      (n e : ℕ) (msg : TimestampedMessage V) (name : Bytes) (b : FrameAlignmentBuffer V)
      → n < 2 ^ 64 - 1
      → Balanced n e b
      → Balanced (suc n) e (aligned msg name b)
  unfolding new_partial
  aligned-Balanced n e msg name b room inv =
      let t = align_to_frame_boundary b.config msg.log_time in
      record {
        few = elim (Position-cases (search_timestamp t b.active_frames)) [
          | inl (i, q) ↦ rw q (omega (arith, inv.few))
          | inr (i, q) ↦ rw q (omega (arith, inv.few))
        ];
        balance = elim (Position-cases (search_timestamp t b.active_frames)) [
          | inl (i, q) ↦
              rw (length-touch t (fresh_frame b t) (fill name msg) b.active_frames, q)
                (omega (arith, inv.few, inv.balance))
          | inr (i, q) ↦
              rw (length-touch t (fresh_frame b t) (fill name msg) b.active_frames, q)
                (omega (arith, inv.few, inv.balance))
        ];
        processed = inv.processed;
        kinds = inv.kinds;
        sorted =
            touch-Sorted t (fresh_frame b t) (fill name msg) refl (fill-timestamp name msg)
              b.active_frames inv.sorted;
      }

  message-Balanced :
      (n e : ℕ) (msg : TimestampedMessage V) (name : Bytes) (b : FrameAlignmentBuffer V)
      → n < 2 ^ 64 - 1
      → Balanced n e b
      → Balanced (suc n) (e + length (process_message msg name b).0) (process_message msg name b).1
  message-Balanced n e msg name b room inv =
      rw (process_message-aligned msg name b)
        (check-Balanced (suc n) e (aligned msg name b) (aligned-Balanced n e msg name b room inv))

  Balanced-eq :
      (n e n' e' : ℕ) (b : FrameAlignmentBuffer V)
      → n ≡ n'
      → e ≡ e'
      → Balanced n e b
      → Balanced n' e' b
  Balanced-eq n e n' e' b p q inv = rw (← p, ← q) inv

  process_all-Balanced :
      (ms : List (TimestampedMessage V × Bytes)) (n e : ℕ) (b : FrameAlignmentBuffer V)
      → n + length ms < 2 ^ 64
      → Balanced n e b
      → Balanced (n + length ms) (e + length (process_all ms b).0) (process_all ms b).1
  process_all-Balanced [] n e b room inv =
      Balanced-eq n e (n + 0) (e + 0) b (omega arith) (omega arith) inv
  process_all-Balanced ((msg, name) ∷ ms) n e b room inv =
      let out = (process_message msg name b).0 in
      let b' = (process_message msg name b).1 in
      let rest = (process_all ms b').0 in
      Balanced-eq (suc n + length ms) (e + length out + length rest) (n + suc (length ms))
        (e + length (out ++ rest)) (process_all ms b').1 (omega arith)
        (omega (arith, length-append out rest))
        (process_all-Balanced ms (suc n) (e + length out) b' (omega arith)
          (message-Balanced n e msg name b (omega arith) inv))

  empty-Balanced :
      (config : StreamingConfig) (criteria : FrameCompletionCriteria)
      → Balanced 0 0 (with_completion_criteria config criteria)
  unfolding with_completion_criteria
  empty-Balanced config criteria = record {
    few = omega arith;
    balance = refl;
    processed = refl;
    kinds = refl;
    sorted = tt;
  }

  -- After fewer than 2^64 messages, in any order of their times: the frames that wait are sorted by
  -- time, with one frame for a time; as many frames were made as were emitted and wait; and the
  -- statistics count the emitted ones, each as a normal or a forced completion. The next message
  -- goes to the frame that waits for its time, or a new one; and then the frames that leave and
  -- those that wait are together, with all that was gathered in them, exactly the frames that
  -- waited. A flush emits exactly those that wait, in their order.
  pub frames_conserved :
      (config : StreamingConfig) (criteria : FrameCompletionCriteria)
      (ms : List (TimestampedMessage V × Bytes)) (msg : TimestampedMessage V) (name : Bytes)
      → length ms < 2 ^ 64
      → let (out, b) = process_all ms (with_completion_criteria config criteria) in
        let t = align_to_frame_boundary b.config msg.log_time in
        let (left, b') = process_message msg name b in
        (Sorted b.active_frames
          × (length out + length b.active_frames ≡ b.next_frame_index)
          × (b.stats.frames_processed ≡ length out)
          × (b.stats.normal_completions + b.stats.force_completions ≡ length out))
        × Perm
            (contents left ++ gathered b'.active_frames)
            (gathered (touch t (fresh_frame b t) (fill name msg) b.active_frames))
        × (contents (flush b).0 ≡ gathered b.active_frames)
  frames_conserved config criteria ms msg name few =
      let start = with_completion_criteria config criteria in
      let b = (process_all ms start).1 in
      let inv = process_all-Balanced ms 0 0 start (omega arith) (empty-Balanced config criteria) in
      (
        (
          inv.sorted,
          omega (arith, inv.balance),
          omega (arith, inv.processed),
          omega (arith, inv.kinds),
        ),
        rw (process_message-aligned msg name b) (check_completions-Perm (aligned msg name b)),
        contents-flush b,
      )
