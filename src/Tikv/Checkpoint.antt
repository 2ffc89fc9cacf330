-- ===== src/Tikv/Checkpoint.antt =====
-- Progress of a job: `CheckpointState`, `VideoUploadState` and `ParquetUploadState` of
-- crates/roboflow-distributed/src/tikv/schema.rs, and when to save it, tikv/checkpoint.rs of the
-- same crate. `none` stands for the panic of a division by 0. Versions wrap.
mod Tests
pub mod Progress
use roboflow.Bytes.{Bytes, beq, codes}
use roboflow.Prelude.{
  Bool, List, Option, [], false, if◌then◌else◌, leb, length, ltb, none, not, some, true, ℕ, ◌%◌,
  ◌++◌, ◌+◌, ◌/◌, ◌==◌, ◌^◌, ◌||◌, ◌∷◌,
}

pub record UploadedPart : Type 0 where
  pub part_num : ℕ
  pub etag : Bytes
  pub size : ℕ

pub record VideoUploadState : Type 0 where
  pub camera_id : Bytes
  pub upload_id : Bytes
  pub parts : List UploadedPart
  pub last_keyframe_offset : ℕ

pub record ParquetUploadState : Type 0 where
  pub upload_id : Bytes
  pub parts : List UploadedPart
  pub rows_written : ℕ
  pub buffer_state : Option Bytes

pub record CheckpointState : Type 0 where
  pub job_id : Bytes
  pub batch_id : Bytes
  pub pod_id : Bytes
  pub byte_offset : ℕ
  pub last_frame : ℕ
  pub episode_idx : ℕ
  pub chunk_idx : ℕ
  pub episodes_per_chunk : ℕ
  pub total_frames : ℕ
  pub video_uploads : List VideoUploadState
  pub parquet_upload : Option ParquetUploadState
  pub updated_at : ℕ
  pub version : ℕ

abbrev pub default_episodes_per_chunk : ℕ
default_episodes_per_chunk = 500

unfoldable pub new_video : Bytes → VideoUploadState
new_video camera_id = record {
  camera_id = camera_id;
  upload_id = [];
  parts = [];
  last_keyframe_offset = 0;
}

unfoldable pub new_videos : List Bytes → List VideoUploadState
unfolding new_video
new_videos [] = []
new_videos (camera ∷ cameras) = new_video camera ∷ new_videos cameras

unfoldable pub with_batch_and_videos :
    ℕ → Bytes → Bytes → Bytes → ℕ → ℕ → List Bytes → CheckpointState
unfolding new_videos
with_batch_and_videos now job_id batch_id pod_id total_frames episodes_per_chunk camera_ids =
    record {
      job_id = job_id;
      batch_id = batch_id;
      pod_id = pod_id;
      byte_offset = 0;
      last_frame = 0;
      episode_idx = 0;
      chunk_idx = 0;
      episodes_per_chunk = episodes_per_chunk;
      total_frames = total_frames;
      video_uploads = new_videos camera_ids;
      parquet_upload = none;
      updated_at = now;
      version = 1;
    }

unfoldable pub with_batch : ℕ → Bytes → Bytes → Bytes → ℕ → ℕ → CheckpointState
unfolding with_batch_and_videos
with_batch now job_id batch_id pod_id total_frames episodes_per_chunk =
    with_batch_and_videos now job_id batch_id pod_id total_frames episodes_per_chunk []

unfoldable pub with_videos : ℕ → Bytes → Bytes → ℕ → List Bytes → CheckpointState
unfolding with_batch_and_videos
with_videos now job_id pod_id total_frames camera_ids =
    with_batch_and_videos now job_id [] pod_id total_frames default_episodes_per_chunk camera_ids

unfoldable pub new_checkpoint : ℕ → Bytes → Bytes → ℕ → CheckpointState
unfolding with_videos
new_checkpoint now job_id pod_id total_frames = with_videos now job_id pod_id total_frames []

-- Whether the progress was accepted, and the state.
unfoldable pub update : ℕ → ℕ → ℕ → CheckpointState → Bool × CheckpointState
update now frame byte_offset c = if ltb c.total_frames frame then (false, c) else (
  true,
  record c {
    last_frame = frame;
    byte_offset = byte_offset;
    updated_at = now;
    version = (c.version + 1) % 2 ^ 64;
  },
)

unfoldable pub update_episode : ℕ → ℕ → CheckpointState → Option CheckpointState
update_episode now episode c =
    if c.episodes_per_chunk == 0
    then none
    else some (record c {
      episode_idx = episode;
      chunk_idx = episode / c.episodes_per_chunk % 2 ^ 32;
      updated_at = now;
      version = (c.version + 1) % 2 ^ 64;
    })

unfoldable pub set_distributed_context :
    ℕ → Bytes → ℕ → ℕ → CheckpointState → Option CheckpointState
set_distributed_context now batch_id episode_index episodes_per_chunk c =
    if episodes_per_chunk == 0
    then none
    else some (record c {
      batch_id = batch_id;
      episode_idx = episode_index;
      episodes_per_chunk = episodes_per_chunk;
      chunk_idx = episode_index / episodes_per_chunk % 2 ^ 32;
      updated_at = now;
      version = (c.version + 1) % 2 ^ 64;
    })

unfoldable pub validate_episode_consistency : CheckpointState → Option Bool
validate_episode_consistency c =
    if c.episodes_per_chunk == 0
    then none
    else some (c.chunk_idx == c.episode_idx / c.episodes_per_chunk % 2 ^ 32)

unfoldable pub video_state : Bytes → List VideoUploadState → Option VideoUploadState
video_state camera_id [] = none
video_state camera_id (v ∷ vs) =
    if beq v.camera_id camera_id then some v else video_state camera_id vs

-- The change of the first state of the camera.
unfoldable pub change_video :
    Bytes → (VideoUploadState → VideoUploadState) → List VideoUploadState → List VideoUploadState
change_video camera_id f [] = []
change_video camera_id f (v ∷ vs) =
    let rest = change_video camera_id f vs in
    if beq v.camera_id camera_id then f v ∷ vs else v ∷ rest

-- `video_state_mut`, with what is done to the state that it gives.
unfoldable pub video_state_mut :
    Bytes → (VideoUploadState → VideoUploadState) → CheckpointState → CheckpointState
unfolding video_state new_video change_video
video_state_mut camera_id f c = elim (video_state camera_id c.video_uploads) [
  | none ↦ record c {
    video_uploads = change_video camera_id f (c.video_uploads ++ (new_video camera_id ∷ []));
    version = (c.version + 1) % 2 ^ 64;
  }
  | some v ↦ record c { video_uploads = change_video camera_id f c.video_uploads }
]

unfoldable pub set_parquet_upload : ParquetUploadState → CheckpointState → CheckpointState
set_parquet_upload state c = record c {
  parquet_upload = some state;
  version = (c.version + 1) % 2 ^ 64;
}

unfoldable pub checkpoint_is_complete : CheckpointState → Bool
checkpoint_is_complete c = leb c.total_frames c.last_frame

unfoldable pub is_active : VideoUploadState → Bool
is_active v = not (beq v.upload_id [])

unfoldable pub next_part_number : List UploadedPart → ℕ
next_part_number parts = (length parts + 1) % 2 ^ 32

unfoldable pub add_part : ℕ → Bytes → ℕ → VideoUploadState → VideoUploadState
add_part part_num etag size v = record v {
  parts = v.parts ++ (record { part_num = part_num; etag = etag; size = size } ∷ []);
}

unfoldable pub parquet_add_part : ℕ → Bytes → ℕ → ParquetUploadState → ParquetUploadState
parquet_add_part part_num etag size v = record v {
  parts = v.parts ++ (record { part_num = part_num; etag = etag; size = size } ∷ []);
}

unfoldable pub new_parquet : Bytes → ParquetUploadState
new_parquet upload_id = record {
  upload_id = upload_id;
  parts = [];
  rows_written = 0;
  buffer_state = none;
}

-- The sum of the sizes.
unfoldable pub uploaded_bytes : List UploadedPart → ℕ
uploaded_bytes [] = 0
uploaded_bytes (p ∷ ps) = p.size + uploaded_bytes ps

pub record CheckpointConfig : Type 0 where
  pub checkpoint_interval_frames : ℕ
  pub checkpoint_interval_seconds : ℕ
  pub checkpoint_async : Bool

unfoldable pub should_checkpoint : CheckpointConfig → ℕ → ℕ → Bool
should_checkpoint config frames_since_last seconds_since_last =
    leb config.checkpoint_interval_frames frames_since_last
    || leb config.checkpoint_interval_seconds seconds_since_last
