-- ===== src/Alignment/Tests.antt =====
-- Runs of the alignment, and its theorems at concrete inputs.
use mathlib.Core.List.{Perm}
use roboflow.Alignment.Buffer.{
  AlignedFrame, FrameAlignmentBuffer, TimestampedMessage, align_to_frame_boundary,
  build_completion_criteria, fill, new_frame, new_partial, with_completion_criteria,
}
use roboflow.Alignment.Config.{
  StreamingConfig, default_completion_window, frame_interval_ns, new_stats,
}
use roboflow.Alignment.Conserved.{frames_conserved}
use roboflow.Alignment.Contents.{contents, gathered}
use roboflow.Alignment.Criteria.{
  AllMet, FrameCompletionCriteria, IsFeatureSet, is_complete, is_complete_iff, occurrences,
}
use roboflow.Alignment.Emission.{check_completions, flush, process_message}
use roboflow.Alignment.Memory.{waiting_frames_bounded}
use roboflow.Alignment.Nearest.{align_splits}
use roboflow.Alignment.Order.{Sorted, touch}
use roboflow.Alignment.Reference.{
  check_completions-reference, completes, counted, forced, leaving, left_over, numbered, peak_at,
}
use roboflow.Alignment.Steps.{fresh_frame, process_all}
use roboflow.Bytes.{Bytes, beq, beq_iff, codes, starts_with}
use roboflow.Prelude.{
  List, [], arith, false, length, none, refl, true, ℕ, ◌*◌, ◌++◌, ◌+◌, ◌<◌, ◌↔◌, ◌∷◌, ◌≡◌, ◌≢◌,
}

abbrev thirty : StreamingConfig
thirty = record {
  fps = 30;
  completion_window_ns = 99_999_999;
  feature_requirements = (codes "camera_0", 1) ∷ (codes "state", 1) ∷ [];
}

abbrev both : FrameCompletionCriteria
both = record { features = (codes "camera_0", 1) ∷ (codes "state", 1) ∷ [] }

abbrev says : ℕ → TimestampedMessage ℕ
says t = record { log_time = t; image = none; values = 7 ∷ [] }

with_fps_default : default_completion_window 30 ≡ 99_999_999
unfolding default_completion_window
with_fps_default = refl

criteria_copied : build_completion_criteria thirty ≡ both
unfolding build_completion_criteria beq
criteria_copied = refl

-- The documentation of the code puts this time into frame 0.
rounds_up : align_to_frame_boundary thirty 16_666_666 ≡ 33_333_333
unfolding align_to_frame_boundary
rounds_up = refl

-- The documentation of the code puts this time into frame 1.
rounds_past : align_to_frame_boundary thirty 50_000_000 ≡ 66_666_666
unfolding align_to_frame_boundary
rounds_past = refl

needs_both : is_complete both (codes "camera_0" ∷ []) ≡ false
unfolding is_complete beq
needs_both = refl

-- A required count of two is met by nothing.
twice_never :
    is_complete (record { features = (codes "state", 2) ∷ [] }) (codes "state" ∷ []) ≡ false
unfolding is_complete beq
twice_never = refl

abbrev wide : FrameAlignmentBuffer ℕ
wide = with_completion_criteria thirty both

abbrev stream : List (TimestampedMessage ℕ × Bytes)
stream =
    (says 1, codes "state")
    ∷ (says 33_333_000, codes "state")
    ∷ (says 200_000_000, codes "camera_0")
    ∷ []

abbrev indices : List (AlignedFrame ℕ) → List (ℕ × ℕ)
indices [] = []
indices (f ∷ fs) = (f.frame_index, f.timestamp) ∷ indices fs

-- Two frames become overdue at once: the later one leaves first.
leaves_reversed : indices (process_all stream wide).0 ≡ (0, 33_333_333) ∷ (1, 0) ∷ []
unfolding process_message check_completions with_completion_criteria beq is_complete starts_with
leaves_reversed = refl

left_waiting : length (process_all stream wide).1.active_frames ≡ 1
unfolding process_message check_completions with_completion_criteria beq is_complete starts_with
left_waiting = refl

state_IsFeatureSet : IsFeatureSet (codes "camera_0" ∷ [])
unfolding occurrences
state_IsFeatureSet f = ground (arith, beq_iff (codes "camera_0") f)

is_complete_iff_example : (is_complete both (codes "camera_0" ∷ []) ≡ true) ↔ (
    (◌≢◌ {A = List Bytes} (codes "camera_0" ∷ []) [])
    × AllMet (codes "camera_0" ∷ []) both.features)
is_complete_iff_example = is_complete_iff both (codes "camera_0" ∷ []) state_IsFeatureSet

abbrev waiting_two : FrameAlignmentBuffer ℕ
waiting_two = record {
  active_frames = new_partial 0 0 100 ∷ new_partial 1 33_333_333 500 ∷ [];
  config = thirty;
  completion_criteria = both;
  stats = new_stats;
  next_frame_index = 2;
  current_timestamp = 200;
}

check_completions-reference_example : check_completions waiting_two ≡ (
  new_frame 0 0 ∷ [],
  record waiting_two {
    active_frames = new_partial 1 33_333_333 500 ∷ [];
    stats = record {
      frames_processed = 1;
      normal_completions = 0;
      force_completions = 1;
      peak_buffer_size = 1;
    };
  },
)
unfolding leaving left_over numbered completes forced counted peak_at is_complete beq new_partial
    new_frame
check_completions-reference_example = check_completions-reference waiting_two

frames_conserved_example :
    let (out, b) = process_all stream (with_completion_criteria thirty both) in
    let t = align_to_frame_boundary b.config 233_333_333 in
    let (left, b') = process_message (says 233_333_333) (codes "state") b in
    (Sorted b.active_frames
      × (length out + length b.active_frames ≡ b.next_frame_index)
      × (b.stats.frames_processed ≡ length out)
      × (b.stats.normal_completions + b.stats.force_completions ≡ length out))
    × Perm (contents left ++ gathered b'.active_frames) (
        gathered
          (touch t (fresh_frame b t) (fill (codes "state") (says 233_333_333)) b.active_frames))
    × (contents (flush b).0 ≡ gathered b.active_frames)
frames_conserved_example =
    frames_conserved thirty both stream (says 233_333_333) (codes "state") (omega arith)

interval_thirty : frame_interval_ns thirty ≡ 33_333_333
unfolding frame_interval_ns
interval_thirty = refl

waiting_frames_bounded_example :
    length (process_all stream (with_completion_criteria thirty both)).1.active_frames
      * frame_interval_ns thirty
    < thirty.completion_window_ns + 2 * frame_interval_ns thirty
waiting_frames_bounded_example =
    waiting_frames_bounded thirty both stream (omega (arith, interval_thirty)) (omega arith)

-- Half of the interval is 16,666,666, so this time is the first that goes on.
align_splits_example :
    align_to_frame_boundary thirty (2 * frame_interval_ns thirty + 16_666_666)
    ≡ 3 * frame_interval_ns thirty
unfolding frame_interval_ns
align_splits_example =
    align_splits thirty 2 16_666_666 (omega (arith, interval_thirty))
      (omega (arith, interval_thirty))
