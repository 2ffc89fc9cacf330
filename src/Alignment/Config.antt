-- ===== src/Alignment/Config.antt =====
-- The streaming configuration and the statistics: config.rs and stats.rs of
-- crates/roboflow-dataset/src/formats/alignment. The decoder's settings stand outside, and of the
-- statistics the times, which are floats.
use roboflow.Bytes.{Bytes, insert_entry}
use roboflow.Prelude.{List, [], if◌then◌else◌, ltb, ℕ, ◌%◌, ◌*◌, ◌+◌, ◌/◌, ◌^◌}

pub record StreamingConfig : Type 0 where
  pub fps : ℕ
  pub completion_window_ns : ℕ
  pub feature_requirements : List (Bytes × ℕ)

-- A division by 0 panics in the source; here it gives 0.
unfoldable pub default_completion_window : ℕ → ℕ
default_completion_window fps = (1_000_000_000 / fps * 3) % 2 ^ 64

unfoldable pub with_fps : ℕ → StreamingConfig
unfolding default_completion_window
with_fps fps = record {
  fps = fps;
  completion_window_ns = default_completion_window fps;
  feature_requirements = [];
}

unfoldable pub frame_interval_ns : StreamingConfig → ℕ
frame_interval_ns c = 1_000_000_000 / c.fps

unfoldable pub with_completion_window : ℕ → StreamingConfig → StreamingConfig
with_completion_window window_ns c = record c { completion_window_ns = window_ns }

unfoldable pub config_require_feature : Bytes → ℕ → StreamingConfig → StreamingConfig
unfolding insert_entry
config_require_feature feature count c = record c {
  feature_requirements = insert_entry feature count c.feature_requirements;
}

pub record AlignmentStats : Type 0 where
  pub frames_processed : ℕ
  pub normal_completions : ℕ
  pub force_completions : ℕ
  pub peak_buffer_size : ℕ

abbrev pub new_stats : AlignmentStats
new_stats = record {
  frames_processed = 0;
  normal_completions = 0;
  force_completions = 0;
  peak_buffer_size = 0;
}

-- The counters are as large as memory's addresses, and count frames that were made: no overflow.
unfoldable pub record_normal_completion : AlignmentStats → AlignmentStats
record_normal_completion s = record s {
  normal_completions = s.normal_completions + 1;
  frames_processed = s.frames_processed + 1;
}

unfoldable pub record_force_completion : AlignmentStats → AlignmentStats
record_force_completion s = record s {
  force_completions = s.force_completions + 1;
  frames_processed = s.frames_processed + 1;
}

unfoldable pub update_peak_buffer : ℕ → AlignmentStats → AlignmentStats
update_peak_buffer current_size s =
    if ltb s.peak_buffer_size current_size then record s { peak_buffer_size = current_size } else s
