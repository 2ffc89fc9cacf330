-- ===== src/Alignment/Steps.antt =====
-- One message of the buffer of crates/roboflow-dataset/src/formats/alignment/buffer.rs, and many:
-- where its data goes, and what the frames that leave do to the counters.
use mathlib.Core.List.{reverse, reverse-cons}
use roboflow.Alignment.Buffer.{
  AlignedFrame, FrameAlignmentBuffer, PartialFrame, Position, TimestampedMessage,
  align_to_frame_boundary, fill, find_or_create_frame, found, missing, new_partial, one_on,
  saturating_add, search_timestamp,
}
use roboflow.Alignment.Config.{AlignmentStats, record_force_completion, record_normal_completion}
use roboflow.Alignment.Criteria.{FrameCompletionCriteria, is_complete}
use roboflow.Alignment.Emission.{
  check_completions, emit, emit_all, going, process_message, record_completion, staying,
}
use roboflow.Alignment.Order.{place-search_timestamp, touch}
use roboflow.Bytes.{Bytes}
use roboflow.Prelude.{
  Bool-cases, List, [], arith, inl, inr, length, length-append, refl, ℕ, ◌++◌, ◌+◌, ◌∷◌, ◌≡◌, ◌⊎◌,
}

abbrev pub created : Position → ℕ
created (found i) = 0
created (missing i) = 1

abbrev pub next_after : Position → ℕ → ℕ
next_after (found i) n = n
next_after (missing i) n = saturating_add n 1

created-one_on : (o : Position) → created (one_on o) ≡ created o
created-one_on (found i) = refl
created-one_on (missing i) = refl

pub Position-cases : (o : Position) → ((i : ℕ) × (o ≡ found i)) ⊎ ((i : ℕ) × (o ≡ missing i))
Position-cases (found i) = inl (i, refl)
Position-cases (missing i) = inr (i, refl)

pub length-reverse : {A : Type 0} (l : List A) → length (reverse l) ≡ length l
length-reverse [] = refl
length-reverse (x ∷ l) =
    rw (reverse-cons x l) (omega (arith, length-append (reverse l) (x ∷ []), length-reverse l))

module _ {V : Type 0} where
  abbrev pub fresh_frame : FrameAlignmentBuffer V → ℕ → PartialFrame V
  fresh_frame b t =
      new_partial b.next_frame_index t (saturating_add t b.config.completion_window_ns)

  abbrev pub aligned :
      TimestampedMessage V → Bytes → FrameAlignmentBuffer V → FrameAlignmentBuffer V
  aligned msg name b =
      let t = align_to_frame_boundary b.config msg.log_time in
      record b {
        current_timestamp = msg.log_time;
        next_frame_index = next_after (search_timestamp t b.active_frames) b.next_frame_index;
        active_frames = touch t (fresh_frame b t) (fill name msg) b.active_frames;
      }

  -- A message is put where it belongs before frames leave.
  pub process_message-aligned :
      (msg : TimestampedMessage V) (name : Bytes) (b : FrameAlignmentBuffer V)
      → process_message msg name b ≡ check_completions (aligned msg name b)
  unfolding process_message find_or_create_frame
  process_message-aligned msg name b =
      let t = align_to_frame_boundary b.config msg.log_time in
      let placed = place-search_timestamp t (fresh_frame b t) (fill name msg) b.active_frames in
      elim (Position-cases (search_timestamp t b.active_frames)) [
        | inl (i, e) ↦ rw (← placed, process_message, find_or_create_frame, e) refl
        | inr (i, e) ↦ rw (← placed, process_message, find_or_create_frame, e) refl
      ]

  pub length-touch :
      (t : ℕ) (fresh : PartialFrame V) (f : PartialFrame V → PartialFrame V)
      (ps : List (PartialFrame V))
      → length (touch t fresh f ps) ≡ length ps + created (search_timestamp t ps)
  unfolding search_timestamp
  length-touch t fresh f [] = refl
  length-touch t fresh f (p ∷ ps) =
      ground (arith, length-touch t fresh f ps, created-one_on (search_timestamp t ps))

  pub length-staying :
      (c : FrameCompletionCriteria) (now : ℕ) (ps : List (PartialFrame V))
      → length (staying c now ps) + length (going c now ps) ≡ length ps
  length-staying c now [] = refl
  length-staying c now (p ∷ ps) = ground (arith, length-staying c now ps)

  -- What leaving does to the output and the counters.
  pub record Counts (n : ℕ) (from to : List (AlignedFrame V) × AlignmentStats) : Type 0 where
    pub emitted : length to.0 ≡ length from.0 + n
    pub processed : to.1.frames_processed ≡ from.1.frames_processed + n
    pub kinds :
        to.1.normal_completions + to.1.force_completions
        ≡ from.1.normal_completions + from.1.force_completions + n

  emit-Counts :
      (c : FrameCompletionCriteria) (p : PartialFrame V)
      (out : List (AlignedFrame V) × AlignmentStats)
      → Counts 1 out (emit c p out)
  unfolding emit record_completion record_normal_completion record_force_completion
  emit-Counts c p (l, s) = elim (Bool-cases (is_complete c p.received_features)) [
    | inl e ↦ rw e (record { emitted = length-append l _; processed = refl; kinds = omega arith })
    | inr e ↦ rw e (record { emitted = length-append l _; processed = refl; kinds = omega arith })
  ]

  pub emit_all-Counts :
      (c : FrameCompletionCriteria) (ps : List (PartialFrame V))
      (out : List (AlignedFrame V) × AlignmentStats)
      → Counts (length ps) out (emit_all c ps out)
  unfolding emit_all
  emit_all-Counts c [] out = record {
    emitted = omega arith;
    processed = omega arith;
    kinds = omega arith;
  }
  emit_all-Counts c (p ∷ ps) out =
      let one = emit-Counts c p out in
      let rest = emit_all-Counts c ps (emit c p out) in
      record {
        emitted = omega (arith, one.emitted, rest.emitted);
        processed = omega (arith, one.processed, rest.processed);
        kinds = omega (arith, one.kinds, rest.kinds);
      }

  -- The messages in order, and all frames that they make leave.
  abbrev pub process_all :
      List (TimestampedMessage V × Bytes)
      → FrameAlignmentBuffer V
      → List (AlignedFrame V) × FrameAlignmentBuffer V
  process_all [] b = ([], b)
  process_all ((msg, name) ∷ ms) b =
      let (out, b') = process_message msg name b in
      let (rest, b'') = process_all ms b' in (out ++ rest, b'')
