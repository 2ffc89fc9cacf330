-- ===== src/Alignment/Reference.antt =====
-- What `check_completions` of crates/roboflow-dataset/src/formats/alignment/buffer.rs is to do, told
-- without its indices and its loop.
use mathlib.Core.List.{reverse}
use roboflow.Alignment.Buffer.{AlignedFrame, FrameAlignmentBuffer, PartialFrame}
use roboflow.Alignment.Config.{
  AlignmentStats, record_force_completion, record_normal_completion, update_peak_buffer,
}
use roboflow.Alignment.Criteria.{FrameCompletionCriteria}
use roboflow.Alignment.Emission.{
  check_completions, check_completions_splits, emit, emit_all, going, ready, staying,
}
use roboflow.Prelude.{
  List, [], append-nil, append_assoc, arith, if◌then◌else◌, leb, length, length-append, ltb, refl,
  suc, ℕ, ◌++◌, ◌+◌, ◌||◌, ◌∷◌, ◌≡◌,
}
use roboflow.Alignment.Criteria.{is_complete}
use roboflow.Alignment.Emission.{record_completion}

abbrev pub peak_at : ℕ → AlignmentStats → AlignmentStats
peak_at n s = record s {
  peak_buffer_size = if ltb s.peak_buffer_size n then n else s.peak_buffer_size;
}

peak_at-update : (n : ℕ) (s : AlignmentStats) → update_peak_buffer n s ≡ peak_at n s
unfolding update_peak_buffer
peak_at-update n s = ground arith

module _ {V : Type 0} where
  -- Those that are complete or overdue, in their order, and the others.
  abbrev pub leaving : FrameCompletionCriteria → ℕ → List (PartialFrame V) → List (PartialFrame V)
  leaving c now [] = []
  leaving c now (p ∷ ps) =
      if is_complete c p.received_features || leb p.eligible_timestamp now
      then p ∷ leaving c now ps
      else leaving c now ps

  abbrev pub left_over : FrameCompletionCriteria → ℕ → List (PartialFrame V) → List (PartialFrame V)
  left_over c now [] = []
  left_over c now (p ∷ ps) =
      if is_complete c p.received_features || leb p.eligible_timestamp now
      then left_over c now ps
      else p ∷ left_over c now ps

  -- The frames with what was gathered in them, numbered from `i` on.
  abbrev pub numbered : ℕ → List (PartialFrame V) → List (AlignedFrame V)
  numbered i [] = []
  numbered i (p ∷ ps) =
      record {
        frame_index = i;
        timestamp = p.frame.timestamp;
        images = p.frame.images;
        states = p.frame.states;
        actions = p.frame.actions;
      }
      ∷ numbered (suc i) ps

  -- How many are complete, and how many are not.
  abbrev pub completes : FrameCompletionCriteria → List (PartialFrame V) → ℕ
  completes c [] = 0
  completes c (p ∷ ps) = (if is_complete c p.received_features then 1 else 0) + completes c ps

  abbrev pub forced : FrameCompletionCriteria → List (PartialFrame V) → ℕ
  forced c [] = 0
  forced c (p ∷ ps) = (if is_complete c p.received_features then 0 else 1) + forced c ps

  abbrev pub counted :
      FrameCompletionCriteria → List (PartialFrame V) → AlignmentStats → AlignmentStats
  counted c ps s = record {
    frames_processed = s.frames_processed + length ps;
    normal_completions = s.normal_completions + completes c ps;
    force_completions = s.force_completions + forced c ps;
    peak_buffer_size = s.peak_buffer_size;
  }

  going-leaving :
      (c : FrameCompletionCriteria) (now : ℕ) (ps : List (PartialFrame V))
      → (going c now ps ≡ leaving c now ps) × (staying c now ps ≡ left_over c now ps)
  unfolding ready
  going-leaving c now [] = (refl, refl)
  going-leaving c now (p ∷ ps) =
      let rest = going-leaving c now ps in rw (rest.0, rest.1) (refl, refl)

  counted-one :
      (c : FrameCompletionCriteria) (p : PartialFrame V) (ps : List (PartialFrame V))
      (s : AlignmentStats)
      → counted c ps (record_completion (is_complete c p.received_features) s)
        ≡ counted c (p ∷ ps) s
  unfolding record_completion record_normal_completion record_force_completion
  counted-one c p ps s = ground arith

  length_after :
      (out : List (AlignedFrame V)) (f : AlignedFrame V) → length (out ++ f ∷ []) ≡ suc (length out)
  length_after out f = omega (arith, length-append out (f ∷ []))

  emit_none :
      (c : FrameCompletionCriteria) (out : List (AlignedFrame V)) (s : AlignmentStats)
      → ◌≡◌ {A = List (AlignedFrame V) × AlignmentStats} (out, s) (out ++ [], counted c [] s)
  emit_none c out s = let same : counted c [] s ≡ s = ground arith in rw (append-nil out, same) refl

  pub emit_all-numbered :
      (c : FrameCompletionCriteria) (ps : List (PartialFrame V)) (out : List (AlignedFrame V))
      (s : AlignmentStats)
      → emit_all c ps (out, s) ≡ (out ++ numbered (length out) ps, counted c ps s)
  unfolding emit_all emit
  emit_all-numbered c [] out s = emit_none c out s
  emit_all-numbered c (p ∷ ps) out s =
      let f = record p.frame { frame_index = length out } in
      let s' = record_completion (is_complete c p.received_features) s in
      rw
        (
          emit_all-numbered c ps (out ++ f ∷ []) s',
          counted-one c p ps s,
          append_assoc out (f ∷ []) (numbered (length (out ++ f ∷ [])) ps),
          length_after out f,
        )
        refl

  -- A check takes out the frames that are complete, or whose time is up, and leaves the others in
  -- their order. It gives the frames that it takes out with all that was gathered in them, the last
  -- one first and numbered from 0. The statistics count each of them, as a normal completion if it
  -- is complete and as a forced one otherwise, and the peak is brought up to the number of those
  -- that stay.
  pub check_completions-reference :
      (b : FrameAlignmentBuffer V)
      → let c = b.completion_criteria in
        let gone = reverse (leaving c b.current_timestamp b.active_frames) in
        let stay = left_over c b.current_timestamp b.active_frames in
        check_completions b ≡ (
          numbered 0 gone,
          record b { active_frames = stay; stats = peak_at (length stay) (counted c gone b.stats) },
        )
  check_completions-reference b =
      let c = b.completion_criteria in
      let parts = going-leaving c b.current_timestamp b.active_frames in
      rw
        (
          check_completions_splits b,
          parts.0,
          parts.1,
          emit_all-numbered c (reverse (leaving c b.current_timestamp b.active_frames)) [] b.stats,
          peak_at-update,
        )
        refl
