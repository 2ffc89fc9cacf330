-- ===== src/Tikv/Checkpoint/Tests.antt =====
-- Runs of a checkpoint, and its theorem at a concrete input.
use roboflow.Bytes.{beq, codes}
use roboflow.Prelude.{List, Option, [], arith, none, refl, some, ℕ, ◌∷◌, ◌≡◌}
use roboflow.Tikv.Checkpoint.{CheckpointState, with_batch}
use roboflow.Tikv.Checkpoint.Progress.{
  IsValid, Report, checkpoint-IsValid, context_set, episode_begun, frame_done, part_uploaded,
  report, report_all,
}

abbrev some_reports : List Report
some_reports =
    part_uploaded (codes "front") 1 (codes "e1") 10
    ∷ episode_begun 5 1200
    ∷ frame_done 6 40 4000
    ∷ part_uploaded (codes "front") 2 (codes "e2") 20
    ∷ frame_done 7 101 9000
    ∷ part_uploaded (codes "back") 1 (codes "e3") 5
    ∷ []

abbrev of_batch : CheckpointState
of_batch = with_batch 1 (codes "job") (codes "batch") (codes "pod") 100 500

abbrev shown : Option CheckpointState → Option (ℕ × ℕ × ℕ)
shown none = none
shown (some c) = some (c.last_frame, c.chunk_idx, c.version)

reported : shown (report_all some_reports of_batch) ≡ some (40, 2, 5)
unfolding report beq with_batch
reported = refl

-- Chunks of no episode.
panics : report_all (context_set 9 (codes "b") 3 0 ∷ []) of_batch ≡ none
unfolding report
panics = refl

checkpoint-IsValid_example :
    (c : CheckpointState) × (report_all some_reports of_batch ≡ some c) × IsValid c
checkpoint-IsValid_example =
    checkpoint-IsValid some_reports 1 (codes "job") (codes "batch") (codes "pod") 100 500
      (omega arith) tt
