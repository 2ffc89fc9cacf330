-- ===== src/Alignment/Emission.antt =====
-- How frames leave the buffer: `check_completions`, `process_message` and `flush` of
-- crates/roboflow-dataset/src/formats/alignment/buffer.rs. The frames that go are found by index
-- and removed from the last one on; that is the same as splitting the frames by a test.
use mathlib.Core.List.{reverse, reverse-cons}
use roboflow.Alignment.Buffer.{
  AlignedFrame, FrameAlignmentBuffer, PartialFrame, TimestampedMessage, align_to_frame_boundary,
  fill, find_or_create_frame, modify_at, remove_at,
}
use roboflow.Alignment.Config.{
  AlignmentStats, record_force_completion, record_normal_completion, update_peak_buffer,
}
use roboflow.Alignment.Criteria.{FrameCompletionCriteria, is_complete}
use roboflow.Bytes.{Bytes}
use roboflow.Prelude.{
  Bool, Bool-cases, List, Option-cases, [], ap, append_assoc, arith, false, get_elem?,
  if◌then◌else◌, inl, inr, leb, length, length-append, none, refl, some, suc, true, ℕ, ◌++◌, ◌||◌,
  ◌∷◌, ◌≡◌,
}

unfoldable pub record_completion : Bool → AlignmentStats → AlignmentStats
unfolding record_normal_completion record_force_completion
record_completion true s = record_normal_completion s
record_completion false s = record_force_completion s

module _ {V : Type 0} where
  unfoldable pub ready : FrameCompletionCriteria → ℕ → PartialFrame V → Bool
  ready criteria now p = is_complete criteria p.received_features || leb p.eligible_timestamp now

  -- The indices, from `i` on, of the frames that can go.
  unfoldable pub to_remove : FrameCompletionCriteria → ℕ → ℕ → List (PartialFrame V) → List ℕ
  unfolding ready
  to_remove criteria now i [] = []
  to_remove criteria now i (p ∷ ps) =
      let rest = to_remove criteria now (suc i) ps in
      if ready criteria now p then i ∷ rest else rest

  -- One round of the loop, for a frame that has left the buffer.
  unfoldable pub emit :
      FrameCompletionCriteria
      → PartialFrame V
      → List (AlignedFrame V) × AlignmentStats
      → List (AlignedFrame V) × AlignmentStats
  unfolding record_completion
  emit criteria p (completed, stats) = (
    completed ++ (record p.frame { frame_index = length completed } ∷ []),
    record_completion (is_complete criteria p.received_features) stats,
  )

  -- `Vec::remove` panics out of range, which stands here for nothing being removed.
  unfoldable pub remove_all :
      FrameCompletionCriteria
      → List ℕ
      → List (PartialFrame V)
      → List (AlignedFrame V) × AlignmentStats
      → List (PartialFrame V) × (List (AlignedFrame V) × AlignmentStats)
  unfolding emit remove_at
  remove_all criteria [] active out = (active, out)
  remove_all criteria (i ∷ is) active out = elim (get_elem? active i) [
    | none ↦ remove_all criteria is active out
    | some p ↦ remove_all criteria is (remove_at i active) (emit criteria p out)
  ]

  unfoldable pub check_completions :
      FrameAlignmentBuffer V → List (AlignedFrame V) × FrameAlignmentBuffer V
  unfolding to_remove remove_all
  check_completions b =
      let c = b.completion_criteria in
      let (active, (completed, stats)) =
        remove_all c (reverse (to_remove c b.current_timestamp 0 b.active_frames)) b.active_frames
          ([], b.stats) in
      (
        completed,
        record b { active_frames = active; stats = update_peak_buffer (length active) stats },
      )

  unfoldable pub process_message :
      TimestampedMessage V
      → Bytes
      → FrameAlignmentBuffer V
      → List (AlignedFrame V) × FrameAlignmentBuffer V
  unfolding align_to_frame_boundary find_or_create_frame modify_at fill
  process_message msg feature_name b =
      let aligned_ts = align_to_frame_boundary b.config msg.log_time in
      let (idx, b') =
        find_or_create_frame aligned_ts (record b { current_timestamp = msg.log_time }) in
      check_completions
        (record b' { active_frames = modify_at idx (fill feature_name msg) b'.active_frames })

  unfoldable pub emit_all :
      FrameCompletionCriteria
      → List (PartialFrame V)
      → List (AlignedFrame V) × AlignmentStats
      → List (AlignedFrame V) × AlignmentStats
  unfolding emit
  emit_all criteria [] out = out
  emit_all criteria (p ∷ ps) out = emit_all criteria ps (emit criteria p out)

  -- `mem::take` leaves no frame active.
  unfoldable pub flush : FrameAlignmentBuffer V → List (AlignedFrame V) × FrameAlignmentBuffer V
  unfolding emit_all
  flush b =
      let (completed, stats) = emit_all b.completion_criteria b.active_frames ([], b.stats) in
      (completed, record b { active_frames = []; stats = stats })

  abbrev pub going : FrameCompletionCriteria → ℕ → List (PartialFrame V) → List (PartialFrame V)
  going c now [] = []
  going c now (p ∷ ps) = if ready c now p then p ∷ going c now ps else going c now ps

  abbrev pub staying : FrameCompletionCriteria → ℕ → List (PartialFrame V) → List (PartialFrame V)
  staying c now [] = []
  staying c now (p ∷ ps) = if ready c now p then staying c now ps else p ∷ staying c now ps

  -- Taking out the frames by their indices, from the last one on, leaves the frames before them.
  remove_all-append :
      (c : FrameCompletionCriteria) (is js : List ℕ) (active : List (PartialFrame V))
      (out : List (AlignedFrame V) × AlignmentStats)
      → remove_all c (is ++ js) active out
        ≡ remove_all c js (remove_all c is active out).0 (remove_all c is active out).1
  unfolding remove_all
  remove_all-append c [] js active out = refl
  remove_all-append c (i ∷ is) js active out = elim (Option-cases (get_elem? active i)) [
    | inl e ↦ rw (e, remove_all) (remove_all-append c is js active out)
    | inr (p, e) ↦
        rw (e, remove_all) (remove_all-append c is js (remove_at i active) (emit c p out))
  ]

  get_elem?-here :
      (front ps : List (PartialFrame V)) (p : PartialFrame V)
      → get_elem? (front ++ p ∷ ps) (length front) ≡ some p
  get_elem?-here [] ps p = refl
  get_elem?-here (q ∷ front) ps p = get_elem?-here front ps p

  remove_at-here :
      (front ps : List (PartialFrame V)) (p : PartialFrame V)
      → remove_at (length front) (front ++ p ∷ ps) ≡ front ++ ps
  unfolding remove_at
  remove_at-here [] ps p = refl
  remove_at-here (q ∷ front) ps p = ap (◌∷◌ q) (remove_at-here front ps p)

  emit_all-append :
      (c : FrameCompletionCriteria) (ps qs : List (PartialFrame V))
      (out : List (AlignedFrame V) × AlignmentStats)
      → emit_all c (ps ++ qs) out ≡ emit_all c qs (emit_all c ps out)
  unfolding emit_all
  emit_all-append c [] qs out = refl
  emit_all-append c (p ∷ ps) qs out = emit_all-append c ps qs (emit c p out)

  remove_one :
      (c : FrameCompletionCriteria) (front ps : List (PartialFrame V)) (p : PartialFrame V)
      (out : List (AlignedFrame V) × AlignmentStats)
      → remove_all c (length front ∷ []) (front ++ p ∷ ps) out ≡ (front ++ ps, emit c p out)
  unfolding remove_all
  remove_one c front ps p out =
      rw (remove_all, get_elem?-here front ps p, remove_at-here front ps p) refl

  length_snoc :
      (front : List (PartialFrame V)) (p : PartialFrame V)
      → length (front ++ p ∷ []) ≡ suc (length front)
  length_snoc front p = omega (arith, length-append front (p ∷ []))

  split_by_index :
      (c : FrameCompletionCriteria) (now : ℕ) (front ps : List (PartialFrame V))
      (out : List (AlignedFrame V) × AlignmentStats)
      → remove_all c (reverse (to_remove c now (length front) ps)) (front ++ ps) out
        ≡ (front ++ staying c now ps, emit_all c (reverse (going c now ps)) out)
  unfolding to_remove remove_all emit_all
  split_by_index c now front [] out = refl
  split_by_index c now front (p ∷ ps) out =
      let ih : remove_all c (reverse (to_remove c now (suc (length front)) ps)) (front ++ p ∷ ps)
            out
          ≡ (front ++ p ∷ staying c now ps, emit_all c (reverse (going c now ps)) out) =
        rw
          (
            length_snoc front p,
            append_assoc front (p ∷ []) ps,
            append_assoc front (p ∷ []) (staying c now ps),
          )
          at (split_by_index c now (front ++ p ∷ []) ps out) in
      elim (Bool-cases (ready c now p)) [
        | inl e ↦
            rw
              (
                e,
                if◌then◌else◌,
                reverse-cons,
                remove_all-append,
                ih,
                remove_one c front (staying c now ps) p,
                reverse-cons p (going c now ps),
                emit_all-append,
              )
              refl
        | inr e ↦ rw (e, if◌then◌else◌) ih
      ]

  -- Removing the frames that can go by their indices splits the buffer: those that are complete or
  -- overdue go, the last one first and numbered from 0, each counted as a normal or a forced
  -- completion; the others stay in their order; and the peak is brought up to date.
  pub check_completions_splits :
      (b : FrameAlignmentBuffer V)
      → let c = b.completion_criteria in
        let now = b.current_timestamp in
        let stay = staying c now b.active_frames in
        let out = emit_all c (reverse (going c now b.active_frames)) ([], b.stats) in
        check_completions b
        ≡ (out.0, record b { active_frames = stay; stats = update_peak_buffer (length stay) out.1 })
  unfolding check_completions
  check_completions_splits b =
      rw (split_by_index b.completion_criteria b.current_timestamp [] b.active_frames ([], b.stats))
        refl
