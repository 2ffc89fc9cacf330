-- ===== src/Alignment/Contents.antt =====
-- What is in the frames that leave and in those that wait, in
-- crates/roboflow-dataset/src/formats/alignment/buffer.rs.
use mathlib.Core.List.Perm
use mathlib.Core.List.{Perm, perm_middle, reverse, reverse-cons}
use roboflow.Alignment.Buffer.{AlignedFrame, FrameAlignmentBuffer, PartialFrame}
use roboflow.Alignment.Criteria.{FrameCompletionCriteria, is_complete}
use roboflow.Alignment.Emission.{check_completions, flush}
use roboflow.Alignment.Reference.{
  check_completions-reference, emit_all-numbered, leaving, left_over, numbered,
}
use roboflow.Prelude.{
  Bool-cases, List, [], ap, append_assoc, inl, inr, leb, refl, suc, ℕ, ◌++◌, ◌||◌, ◌∷◌, ◌≡◌,
}

module _ {V : Type 0} where
  -- A frame without its number, which is given anew when it leaves.
  abbrev pub content : AlignedFrame V → AlignedFrame V
  content f = record f { frame_index = 0 }

  abbrev pub contents : List (AlignedFrame V) → List (AlignedFrame V)
  contents [] = []
  contents (f ∷ fs) = content f ∷ contents fs

  -- What was gathered in frames that wait.
  abbrev pub gathered : List (PartialFrame V) → List (AlignedFrame V)
  gathered [] = []
  gathered (p ∷ ps) = content p.frame ∷ gathered ps

  contents-numbered : (i : ℕ) (ps : List (PartialFrame V)) → contents (numbered i ps) ≡ gathered ps
  contents-numbered i [] = refl
  contents-numbered i (p ∷ ps) = ap (◌∷◌ (content p.frame)) (contents-numbered (suc i) ps)

  gathered-append :
      (ps qs : List (PartialFrame V)) → gathered (ps ++ qs) ≡ gathered ps ++ gathered qs
  gathered-append [] qs = refl
  gathered-append (p ∷ ps) qs = ap (◌∷◌ (content p.frame)) (gathered-append ps qs)

  -- The frames that leave, last one first, and those that stay are the frames that were there.
  parted :
      (c : FrameCompletionCriteria) (now : ℕ) (ps : List (PartialFrame V))
      → Perm (gathered (reverse (leaving c now ps)) ++ gathered (left_over c now ps)) (gathered ps)
  parted c now [] = Perm.refl []
  parted c now (p ∷ ps) =
      let gone = reverse (leaving c now ps) in
      let stay = left_over c now ps in
      let together =
        Perm.trans (perm_middle {a = content p.frame} (gathered gone) (gathered stay))
          (Perm.cons (content p.frame) (parted c now ps)) in
      elim (Bool-cases (is_complete c p.received_features || leb p.eligible_timestamp now)) [
        | inl e ↦
            rw
              (
                e,
                reverse-cons p (leaving c now ps),
                gathered-append gone (p ∷ []),
                append_assoc (gathered gone) (content p.frame ∷ []) (gathered stay),
              )
              together
        | inr e ↦ rw e together
      ]

  pub check_completions-Perm :
      (b : FrameAlignmentBuffer V)
      → Perm
          (contents (check_completions b).0 ++ gathered (check_completions b).1.active_frames)
          (gathered b.active_frames)
  check_completions-Perm b =
      let c = b.completion_criteria in
      let now = b.current_timestamp in
      rw
        (
          check_completions-reference b,
          contents-numbered 0 (reverse (leaving c now b.active_frames)),
        )
        (parted c now b.active_frames)

  pub contents-flush :
      (b : FrameAlignmentBuffer V) → contents (flush b).0 ≡ gathered b.active_frames
  unfolding flush
  contents-flush b =
      rw (emit_all-numbered b.completion_criteria b.active_frames [] b.stats)
        (contents-numbered 0 b.active_frames)
