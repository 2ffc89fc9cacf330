-- ===== src/Tikv/Checkpoint/Progress.antt =====
-- What holds of a checkpoint of crates/roboflow-distributed/src/tikv/schema.rs whatever is reported.
use roboflow.Bytes.{Bytes, beq, beq_iff}
use roboflow.Prelude.{
  Bool-cases, List, Option, Option-cases, [], arith, false, inl, inr, ltb, none, refl, some, true,
  ℕ, ◌++◌, ◌<◌, ◌==◌, ◌∷◌, ◌≡◌, ◌≤◌,
}
use roboflow.Tikv.Checkpoint.{
  CheckpointState, ParquetUploadState, VideoUploadState, add_part, change_video, new_video,
  new_videos, set_distributed_context, set_parquet_upload, update, update_episode,
  validate_episode_consistency, video_state, video_state_mut, with_batch, with_batch_and_videos,
}

-- What a worker reports: a frame, an episode, the batch, an uploaded part with some number, or the
-- upload of the tables.
pub data Report : Type 0 where
  frame_done : ℕ → ℕ → ℕ → Report
  episode_begun : ℕ → ℕ → Report
  context_set : ℕ → Bytes → ℕ → ℕ → Report
  part_uploaded : Bytes → ℕ → Bytes → ℕ → Report
  parquet_set : ParquetUploadState → Report

unfoldable pub report : Report → CheckpointState → Option CheckpointState
unfolding update update_episode set_distributed_context video_state_mut add_part set_parquet_upload
report (frame_done now frame byte_offset) c = some (update now frame byte_offset c).1
report (episode_begun now episode) c = update_episode now episode c
report (context_set now batch_id episode_index per_chunk) c =
    set_distributed_context now batch_id episode_index per_chunk c
report (part_uploaded camera_id part_num etag size) c =
    some (video_state_mut camera_id (add_part part_num etag size) c)
report (parquet_set state) c = some (set_parquet_upload state c)

-- The reports one after another, up to a panic.
abbrev pub report_all : List Report → CheckpointState → Option CheckpointState
report_all [] c = some c
report_all (r ∷ rs) c = elim (report r c) [ none ↦ none | some c' ↦ report_all rs c' ]

-- No batch is set with chunks of no episode.
abbrev pub HasChunks : List Report → Type 0
HasChunks [] = Unit {0}
HasChunks (context_set now batch_id episode_index per_chunk ∷ rs) = (0 < per_chunk) × HasChunks rs
HasChunks (r ∷ rs) = HasChunks rs

-- Every camera once.
abbrev pub VideosValid : List VideoUploadState → Type 0
VideosValid [] = Unit {0}
VideosValid (v ∷ vs) = (video_state v.camera_id vs ≡ none) × VideosValid vs

pub record IsValid (c : CheckpointState) : Type 0 where
  pub within : c.last_frame ≤ c.total_frames
  pub chunked : 0 < c.episodes_per_chunk
  pub consistent : validate_episode_consistency c ≡ some true
  pub videos : VideosValid c.video_uploads

module _ (camera_id : Bytes) (part_num : ℕ) (etag : Bytes) (size : ℕ) where
  abbrev f : VideoUploadState → VideoUploadState
  f = add_part part_num etag size

  video_state-change_video :
      (other_id : Bytes) (vs : List VideoUploadState)
      → video_state other_id vs ≡ none
      → video_state other_id (change_video camera_id f vs) ≡ none
  unfolding video_state change_video add_part
  video_state-change_video other_id [] h = refl
  video_state-change_video other_id (v ∷ vs) h =
      ground (arith, video_state-change_video other_id vs)

  change_video-VideosValid :
      (vs : List VideoUploadState) → VideosValid vs → VideosValid (change_video camera_id f vs)
  unfolding change_video add_part
  change_video-VideosValid [] h = tt
  change_video-VideosValid (v ∷ vs) h = elim (Bool-cases (beq v.camera_id camera_id)) [
    | inl same ↦ rw (change_video, same) h
    | inr differs ↦
        rw (change_video, differs)
          (video_state-change_video v.camera_id vs h.0, change_video-VideosValid vs h.1)
  ]

  video_state_behind :
      (other_id : Bytes) (vs : List VideoUploadState)
      → video_state other_id vs ≡ none
      → beq camera_id other_id ≡ false
      → video_state other_id (vs ++ new_video camera_id ∷ []) ≡ none
  unfolding video_state new_video
  video_state_behind other_id [] h differs = ground arith
  video_state_behind other_id (v ∷ vs) h differs = ground (arith, video_state_behind other_id vs)

  VideosValid-append :
      (vs : List VideoUploadState)
      → video_state camera_id vs ≡ none
      → VideosValid vs
      → VideosValid (vs ++ new_video camera_id ∷ [])
  unfolding new_video video_state
  VideosValid-append [] absent h = (refl, tt)
  VideosValid-append (v ∷ vs) absent h = (
    video_state_behind v.camera_id vs h.0
        (ground (arith, beq_iff v.camera_id camera_id, beq_iff camera_id v.camera_id)),
    VideosValid-append vs (ground arith) h.1,
  )

  upload-IsValid : (c : CheckpointState) → IsValid c → IsValid (video_state_mut camera_id f c)
  unfolding video_state_mut validate_episode_consistency
  upload-IsValid c v = elim (Option-cases (video_state camera_id c.video_uploads)) [
    | inl absent ↦
        rw (video_state_mut, absent)
          (record {
            within = v.within;
            chunked = v.chunked;
            consistent = v.consistent;
            videos =
                change_video-VideosValid (c.video_uploads ++ new_video camera_id ∷ [])
                  (VideosValid-append c.video_uploads absent v.videos);
          })
    | inr (old, there) ↦
        rw (video_state_mut, there)
          (record {
            within = v.within;
            chunked = v.chunked;
            consistent = v.consistent;
            videos = change_video-VideosValid c.video_uploads v.videos;
          })
  ]

-- A report goes through, and keeps the checkpoint valid.
abbrev Goes : Option CheckpointState → Type 0
Goes o = (c : CheckpointState) × (o ≡ some c) × IsValid c

update-IsValid :
    (now frame byte_offset : ℕ) (c : CheckpointState)
    → IsValid c
    → IsValid (update now frame byte_offset c).1
unfolding update validate_episode_consistency
update-IsValid now frame byte_offset c v = elim (Bool-cases (ltb c.total_frames frame)) [
  | inl over ↦ rw (update, over) v
  | inr under ↦
      rw (update, under)
        (record {
          within = ground arith;
          chunked = v.chunked;
          consistent = v.consistent;
          videos = v.videos;
        })
]

update_episode-Goes :
    (now episode : ℕ) (c : CheckpointState) → IsValid c → Goes (update_episode now episode c)
unfolding update_episode validate_episode_consistency
update_episode-Goes now episode c v =
    let positive : (c.episodes_per_chunk == 0) ≡ false = ground (arith, v.chunked) in
    rw positive (
      _,
      refl,
      record {
        within = v.within;
        chunked = v.chunked;
        consistent = ground (arith, v.chunked);
        videos = v.videos;
      },
    )

set_distributed_context-Goes :
    (now : ℕ) (batch_id : Bytes) (episode_index per_chunk : ℕ) (c : CheckpointState)
    → 0 < per_chunk
    → IsValid c
    → Goes (set_distributed_context now batch_id episode_index per_chunk c)
unfolding set_distributed_context validate_episode_consistency
set_distributed_context-Goes now batch_id episode_index per_chunk c some_episodes v =
    let positive : (per_chunk == 0) ≡ false = ground arith in
    rw positive (
      _,
      refl,
      record {
        within = v.within;
        chunked = some_episodes;
        consistent = ground arith;
        videos = v.videos;
      },
    )

set_parquet_upload-IsValid :
    (state : ParquetUploadState) (c : CheckpointState)
    → IsValid c
    → IsValid (set_parquet_upload state c)
unfolding set_parquet_upload validate_episode_consistency
set_parquet_upload-IsValid state c v = record {
  within = v.within;
  chunked = v.chunked;
  consistent = v.consistent;
  videos = v.videos;
}

report_all-Goes :
    (rs : List Report) (c : CheckpointState) → HasChunks rs → IsValid c → Goes (report_all rs c)
unfolding report
report_all-Goes [] c h v = (c, refl, v)
report_all-Goes (frame_done now frame byte_offset ∷ rs) c h v =
    report_all-Goes rs _ h (update-IsValid now frame byte_offset c v)
report_all-Goes (episode_begun now episode ∷ rs) c h v =
    let (c', e, v') = update_episode-Goes now episode c v in
    rw (report_all, report, e) (report_all-Goes rs c' h v')
report_all-Goes (context_set now batch_id episode_index per_chunk ∷ rs) c h v =
    let (c', e, v') = set_distributed_context-Goes now batch_id episode_index per_chunk c h.0 v in
    rw (report_all, report, e) (report_all-Goes rs c' h.1 v')
report_all-Goes (part_uploaded camera_id part_num etag size ∷ rs) c h v =
    report_all-Goes rs _ h (upload-IsValid camera_id part_num etag size c v)
report_all-Goes (parquet_set state ∷ rs) c h v =
    report_all-Goes rs _ h (set_parquet_upload-IsValid state c v)

-- A checkpoint of a batch with chunks of at least one episode, after reports of any kinds in any
-- order, of which none sets chunks of no episode: none of them panics; the checkpoint has not passed
-- its last frame; its chunk is that of its episode, so that it validates when it is recovered; and
-- it has one upload for a camera.
pub checkpoint-IsValid :
    (rs : List Report) (now : ℕ) (job_id batch_id pod_id : Bytes) (total_frames per_chunk : ℕ)
    → 0 < per_chunk
    → HasChunks rs
    → (c : CheckpointState) × (report_all rs
          (with_batch now job_id batch_id pod_id total_frames per_chunk)
        ≡ some c)
      × IsValid c
unfolding with_batch with_batch_and_videos new_videos validate_episode_consistency
checkpoint-IsValid rs now job_id batch_id pod_id total_frames per_chunk some_episodes h =
    let c = with_batch now job_id batch_id pod_id total_frames per_chunk in
    let start : IsValid c = record {
      within = omega arith;
      chunked = some_episodes;
      consistent = ground arith;
      videos = tt;
    } in
    report_all-Goes rs c h start
