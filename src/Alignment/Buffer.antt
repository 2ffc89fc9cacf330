-- ===== src/Alignment/Buffer.antt =====
-- The buffer in which messages are aligned to frames:
-- crates/roboflow-dataset/src/formats/alignment/buffer.rs, with `AlignedFrame` of
-- formats/common/base.rs. A message stands for what steps 1 and 2 of `process_message` extract of
-- it: its decoded image and its numbers, of a type `V`. When a frame was created, the fields of a
-- frame that alignment leaves empty and the decoder are left out.
use roboflow.Alignment.Config.{AlignmentStats, StreamingConfig, frame_interval_ns, new_stats}
use roboflow.Alignment.Criteria.{
  FrameCompletionCriteria, empty_list, insert_feature, no_criteria, require_feature,
}
use roboflow.Bytes.{Bytes, codes, insert_entry, starts_with}
use roboflow.Prelude.{
  Bool, List, Option, [], false, if◌then◌else◌, ltb, min, none, some, suc, zero, ℕ, ◌*◌, ◌+◌, ◌-◌,
  ◌/◌, ◌==◌, ◌^◌, ◌∷◌,
}

pub record ImageData : Type 0 where
  pub width : ℕ
  pub height : ℕ
  pub bytes : Bytes
  pub original_timestamp : ℕ
  pub is_encoded : Bool
  pub is_depth : Bool

pub record ExtractedImageData : Type 0 where
  pub width : ℕ
  pub height : ℕ
  pub bytes : Bytes
  pub is_encoded : Bool

pub record TimestampedMessage (V : Type 0) : Type 0 where
  pub log_time : ℕ
  pub image : Option ExtractedImageData
  pub values : List V

pub record AlignedFrame (V : Type 0) : Type 0 where
  pub frame_index : ℕ
  pub timestamp : ℕ
  pub images : List (Bytes × ImageData)
  pub states : List (Bytes × List V)
  pub actions : List (Bytes × List V)

pub record PartialFrame (V : Type 0) : Type 0 where
  pub timestamp : ℕ
  pub index : ℕ
  pub frame : AlignedFrame V
  pub received_features : List Bytes
  pub eligible_timestamp : ℕ

pub record FrameAlignmentBuffer (V : Type 0) : Type 0 where
  pub active_frames : List (PartialFrame V)
  pub config : StreamingConfig
  pub completion_criteria : FrameCompletionCriteria
  pub stats : AlignmentStats
  pub next_frame_index : ℕ
  pub current_timestamp : ℕ

abbrev pub saturating_add : ℕ → ℕ → ℕ
saturating_add a b = min (a + b) (2 ^ 64 - 1)

-- Where a binary search ends.
pub data Position : Type 0 where
  found : ℕ → Position
  missing : ℕ → Position

abbrev pub one_on : Position → Position
one_on (found i) = found (suc i)
one_on (missing i) = missing (suc i)

copy_requirements : List (Bytes × ℕ) → FrameCompletionCriteria → FrameCompletionCriteria
unfolding require_feature
copy_requirements [] c = c
copy_requirements ((feature, req) ∷ rs) c = copy_requirements rs (require_feature feature req c)

unfoldable pub build_completion_criteria : StreamingConfig → FrameCompletionCriteria
unfolding copy_requirements
build_completion_criteria config = copy_requirements config.feature_requirements no_criteria

-- `timestamp` at the nearest multiple of the interval.
unfoldable pub align_to_frame_boundary : StreamingConfig → ℕ → ℕ
unfolding frame_interval_ns
align_to_frame_boundary config timestamp =
    let interval = frame_interval_ns config in
    let half_interval = saturating_add interval 1 / 2 in
    saturating_add timestamp half_interval / interval * interval

module _ {V : Type 0} where
  unfoldable pub new_frame : ℕ → ℕ → AlignedFrame V
  new_frame frame_index timestamp = record {
    frame_index = frame_index;
    timestamp = timestamp;
    images = [];
    states = [];
    actions = [];
  }

  unfoldable pub new_partial : ℕ → ℕ → ℕ → PartialFrame V
  unfolding new_frame
  new_partial index timestamp eligible_timestamp = record {
    timestamp = timestamp;
    index = index;
    frame = new_frame index timestamp;
    received_features = [];
    eligible_timestamp = eligible_timestamp;
  }

  unfoldable pub add_feature : Bytes → PartialFrame V → PartialFrame V
  unfolding insert_feature
  add_feature feature p = record p {
    received_features = insert_feature feature p.received_features;
  }

  unfoldable pub with_completion_criteria :
      StreamingConfig → FrameCompletionCriteria → FrameAlignmentBuffer V
  with_completion_criteria config criteria = record {
    active_frames = [];
    config = config;
    completion_criteria = criteria;
    stats = new_stats;
    next_frame_index = 0;
    current_timestamp = 0;
  }

  unfoldable pub new_buffer : StreamingConfig → FrameAlignmentBuffer V
  unfolding build_completion_criteria with_completion_criteria
  new_buffer config = with_completion_criteria config (build_completion_criteria config)

  -- `binary_search_by_key` by the timestamp, in frames sorted by it: the place of the frame that
  -- has it, or else the one where it would stand.
  unfoldable pub search_timestamp : ℕ → List (PartialFrame V) → Position
  search_timestamp t [] = missing 0
  search_timestamp t (p ∷ ps) =
      let rest = one_on (search_timestamp t ps) in
      if p.timestamp == t then found 0 else if ltb t p.timestamp then missing 0 else rest

  unfoldable pub insert_at : ℕ → PartialFrame V → List (PartialFrame V) → List (PartialFrame V)
  insert_at zero p ps = p ∷ ps
  insert_at (suc i) p [] = p ∷ []
  insert_at (suc i) p (q ∷ ps) = q ∷ insert_at i p ps

  -- A write through `&mut self.active_frames[idx]`.
  unfoldable pub modify_at :
      ℕ → (PartialFrame V → PartialFrame V) → List (PartialFrame V) → List (PartialFrame V)
  modify_at i f [] = []
  modify_at zero f (p ∷ ps) = f p ∷ ps
  modify_at (suc i) f (p ∷ ps) = p ∷ modify_at i f ps

  unfoldable pub remove_at : ℕ → List (PartialFrame V) → List (PartialFrame V)
  remove_at i [] = []
  remove_at zero (p ∷ ps) = ps
  remove_at (suc i) (p ∷ ps) = p ∷ remove_at i ps

  -- The place of the frame, and the buffer that holds it.
  unfoldable pub find_or_create_frame : ℕ → FrameAlignmentBuffer V → ℕ × FrameAlignmentBuffer V
  unfolding search_timestamp insert_at new_partial
  find_or_create_frame timestamp b = elim (search_timestamp timestamp b.active_frames) [
    | found idx ↦ (idx, b)
    | missing idx ↦ (
      idx,
      record b {
        next_frame_index = saturating_add b.next_frame_index 1;
        active_frames =
            insert_at idx
              (new_partial b.next_frame_index timestamp
                (saturating_add timestamp b.config.completion_window_ns))
              b.active_frames;
      },
    )
  ]

  -- Step 5.
  unfoldable pub add_image : Bytes → ℕ → Option ExtractedImageData → PartialFrame V → PartialFrame V
  unfolding insert_entry
  add_image feature log_time none p = p
  add_image feature log_time (some i) p = record p {
    frame = record p.frame {
      images =
          insert_entry feature
            (record {
              width = i.width;
              height = i.height;
              bytes = i.bytes;
              original_timestamp = log_time;
              is_encoded = i.is_encoded;
              is_depth = false;
            })
            p.frame.images;
    };
  }

  -- Step 6.
  unfoldable pub add_values : Bytes → List V → PartialFrame V → PartialFrame V
  unfolding insert_entry
  add_values feature values p =
      if empty_list values
      then p
      else if starts_with (codes "action.") feature
      then record p {
        frame = record p.frame { actions = insert_entry feature values p.frame.actions };
      }
      else record p {
        frame = record p.frame { states = insert_entry feature values p.frame.states };
      }

  -- Steps 4 to 6, on the frame of the message.
  unfoldable pub fill : Bytes → TimestampedMessage V → PartialFrame V → PartialFrame V
  unfolding add_feature add_image add_values
  fill feature msg p =
      add_values feature msg.values
        (add_image feature msg.log_time msg.image (add_feature feature p))
