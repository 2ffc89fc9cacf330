-- ===== src/Alignment/Memory.antt =====
-- The bounded footprint of crates/roboflow-dataset/src/formats/alignment/buffer.rs: how many frames
-- wait at a time.
use native.Mathlib.Nat.{div-mul-le_self, lt_of_mul-lt-mul_right, mul-le-mul_right, suc-mul}
use roboflow.Alignment.Buffer.{
  FrameAlignmentBuffer, PartialFrame, TimestampedMessage, add_feature, add_image, add_values,
  align_to_frame_boundary, fill, new_partial, saturating_add, with_completion_criteria,
}
use roboflow.Alignment.Config.{StreamingConfig, frame_interval_ns}
use roboflow.Alignment.Conserved.{fill-timestamp}
use roboflow.Alignment.Criteria.{FrameCompletionCriteria}
use roboflow.Alignment.Emission.{check_completions_splits, process_message, ready, staying}
use roboflow.Alignment.Order.{
  All, AllAbove, Sorted, staying-All, staying-Sorted, touch-All, touch-Sorted,
}
use roboflow.Alignment.Steps.{aligned, fresh_frame, process_all, process_message-aligned}
use roboflow.Bytes.{Bytes}
use roboflow.Prelude.{
  Bool-cases, List, [], arith, false, inl, inr, length, refl, suc, ℕ, ◌*◌, ◌+◌, ◌/◌, ◌<◌, ◌∷◌, ◌≡◌,
  ◌≤◌,
}

multiples_apart : (k m j : ℕ) → k * j < m * j → k * j + j ≤ m * j
multiples_apart k m j lt =
    let below : k < m = lt_of_mul-lt-mul_right j lt in
    omega (arith, mul-le-mul_right {m = suc k} {n = m} j below, suc-mul k j)

align_upper :
    (config : StreamingConfig) (t : ℕ)
    → 0 < frame_interval_ns config
    → align_to_frame_boundary config t ≤ t + frame_interval_ns config
unfolding align_to_frame_boundary
align_upper config t pos =
    let j = frame_interval_ns config in
    omega (arith, div-mul-le_self (saturating_add t (saturating_add j 1 / 2)) j)

aligned_multiple :
    (config : StreamingConfig) (t : ℕ)
    → (k : ℕ) × (align_to_frame_boundary config t ≡ k * frame_interval_ns config)
unfolding align_to_frame_boundary
aligned_multiple config t = (
  saturating_add t (saturating_add (frame_interval_ns config) 1 / 2) / frame_interval_ns config,
  refl,
)

fill-eligible :
    {V : Type 0} (name : Bytes) (msg : TimestampedMessage V) (p : PartialFrame V)
    → (fill name msg p).eligible_timestamp ≡ p.eligible_timestamp
unfolding fill add_values add_image add_feature
fill-eligible name msg p = ground arith

ready-false :
    {V : Type 0} (c : FrameCompletionCriteria) (now : ℕ) (p : PartialFrame V)
    → ready c now p ≡ false
    → now < p.eligible_timestamp
unfolding ready
ready-false c now p e = ground arith

fresh_time : {V : Type 0} (t : ℕ) (b : FrameAlignmentBuffer V) → (fresh_frame b t).timestamp ≡ t
unfolding new_partial
fresh_time t b = refl

module _ {V : Type 0} (config : StreamingConfig) where
  -- A frame of the buffer at the time `now`.
  record Waits (now : ℕ) (p : PartialFrame V) : Type 0 where
    multiple : (k : ℕ) × (p.timestamp ≡ k * frame_interval_ns config)
    eligible : p.eligible_timestamp ≤ p.timestamp + config.completion_window_ns
    recent : p.timestamp ≤ now + frame_interval_ns config

  record Steady (now : ℕ) (b : FrameAlignmentBuffer V) : Type 0 where
    same_config : b.config ≡ config
    sorted : Sorted b.active_frames
    waits : All (Waits now) b.active_frames
    not_due : All (λ p. now < p.eligible_timestamp) b.active_frames

  -- Frames at different multiples of the interval, none later than `hi`.
  spaced :
      (hi now : ℕ) (p : PartialFrame V) (ps : List (PartialFrame V))
      → hi ≡ now + frame_interval_ns config
      → Waits now p
      → All (Waits now) ps
      → AllAbove p.timestamp ps
      → Sorted ps
      → p.timestamp + length ps * frame_interval_ns config ≤ hi
  spaced hi now p [] e w ws above s = omega (arith, w.recent)
  spaced hi now p (q ∷ ps) e w ws above s =
      let j = frame_interval_ns config in
      let ih = spaced hi now q ps e ws.0 ws.1 s.0 s.1 in
      let apart : p.timestamp + j ≤ q.timestamp =
        rw (w.multiple.1, ws.0.multiple.1)
          (multiples_apart w.multiple.0 ws.0.multiple.0 j
            (rw (w.multiple.1, ws.0.multiple.1) at above.0)) in
      omega (arith, ih, apart, suc-mul (length ps) j)

  few :
      (now : ℕ) (b : FrameAlignmentBuffer V)
      → 0 < frame_interval_ns config
      → Steady now b
      → length b.active_frames * frame_interval_ns config
        < config.completion_window_ns + 2 * frame_interval_ns config
  few now b pos st = bound b.active_frames st.sorted st.waits st.not_due
    where
      bound :
          (ps : List (PartialFrame V))
          → Sorted ps
          → All (Waits now) ps
          → All (λ p. now < p.eligible_timestamp) ps
          → length ps * frame_interval_ns config
            < config.completion_window_ns + 2 * frame_interval_ns config
      bound [] s w n = omega arith
      bound (p ∷ ps) s w n = omega (
        arith,
        spaced (now + frame_interval_ns config) now p ps refl w.0 w.1 s.0 s.1,
        w.0.eligible,
        n.0,
        suc-mul (length ps) (frame_interval_ns config),
      )

  fresh-Waits :
      (own : StreamingConfig) (index now : ℕ)
      → own ≡ config
      → 0 < frame_interval_ns config
      → Waits now (
          new_partial index
            (align_to_frame_boundary own now)
            (saturating_add (align_to_frame_boundary own now) own.completion_window_ns))
  unfolding new_partial
  fresh-Waits own index now e pos = rw e (record {
    multiple = aligned_multiple config now;
    eligible = omega arith;
    recent = align_upper config now pos;
  })

  Waits-fill :
      (now : ℕ) (name : Bytes) (msg : TimestampedMessage V) (p : PartialFrame V)
      → Waits now p
      → Waits now (fill name msg p)
  Waits-fill now name msg p w =
      let t = fill-timestamp name msg p in
      record {
        multiple = (w.multiple.0, rw t w.multiple.1);
        eligible = rw (t, fill-eligible name msg p) w.eligible;
        recent = rw t w.recent;
      }

  Waits-later :
      (now later : ℕ) (ps : List (PartialFrame V))
      → now ≤ later
      → All (Waits now) ps
      → All (Waits later) ps
  Waits-later now later [] le ws = tt
  Waits-later now later (p ∷ ps) le ws = (
    record {
      multiple = ws.0.multiple;
      eligible = ws.0.eligible;
      recent = omega (arith, ws.0.recent);
    },
    Waits-later now later ps le ws.1,
  )

  staying_not_due :
      (c : FrameCompletionCriteria) (now : ℕ) (ps : List (PartialFrame V))
      → All (λ p. now < p.eligible_timestamp) (staying c now ps)
  staying_not_due c now [] = tt
  staying_not_due c now (p ∷ ps) = elim (Bool-cases (ready c now p)) [
    | inl e ↦ rw e (staying_not_due c now ps)
    | inr e ↦ rw e (ready-false c now p e, staying_not_due c now ps)
  ]

  message-Steady :
      (now : ℕ) (msg : TimestampedMessage V) (name : Bytes) (b : FrameAlignmentBuffer V)
      → 0 < frame_interval_ns config
      → now ≤ msg.log_time
      → Steady now b
      → Steady msg.log_time (process_message msg name b).1
  message-Steady now msg name b pos le st =
      let c = b.completion_criteria in
      let b' = aligned msg name b in
      let t = align_to_frame_boundary b.config msg.log_time in
      let fresh = fresh_frame b t in
      rw (process_message-aligned msg name b, check_completions_splits (aligned msg name b))
        (record {
          same_config = st.same_config;
          sorted = staying-Sorted c msg.log_time b'.active_frames (
              touch-Sorted t fresh (fill name msg) (fresh_time t b) (fill-timestamp name msg)
                b.active_frames st.sorted);
          waits = staying-All (Waits msg.log_time) c msg.log_time b'.active_frames (
              touch-All (Waits msg.log_time) t fresh (fill name msg) b.active_frames
                (Waits-fill msg.log_time name msg fresh
                  (fresh-Waits b.config b.next_frame_index msg.log_time st.same_config pos))
                (Waits-fill msg.log_time name msg)
                (Waits-later now msg.log_time b.active_frames le st.waits));
          not_due = staying_not_due c msg.log_time b'.active_frames;
        })

  -- The times of the messages do not go back.
  abbrev InOrder : ℕ → List (TimestampedMessage V × Bytes) → Type 0
  InOrder now [] = Unit {0}
  InOrder now ((msg, name) ∷ ms) = (now ≤ msg.log_time) × InOrder msg.log_time ms

  process_all-Steady :
      (ms : List (TimestampedMessage V × Bytes)) (now : ℕ) (b : FrameAlignmentBuffer V)
      → 0 < frame_interval_ns config
      → InOrder now ms
      → Steady now b
      → (last : ℕ) × Steady last (process_all ms b).1
  process_all-Steady [] now b pos o st = (now, st)
  process_all-Steady ((msg, name) ∷ ms) now b pos o st =
      process_all-Steady ms msg.log_time (process_message msg name b).1 pos o.1
        (message-Steady now msg name b pos o.0 st)

  empty-Steady :
      (criteria : FrameCompletionCriteria) → Steady 0 (with_completion_criteria config criteria)
  unfolding with_completion_criteria
  empty-Steady criteria = record { same_config = refl; sorted = tt; waits = tt; not_due = tt }

  -- While messages come in the order of their times, the frames that wait span less than the
  -- completion window and two intervals: their number times the interval is below that, whatever
  -- the criteria. (At most 10^9 frames a second, and not 0, so that the interval is not 0.)
  pub waiting_frames_bounded :
      (criteria : FrameCompletionCriteria) (ms : List (TimestampedMessage V × Bytes))
      → 0 < frame_interval_ns config
      → InOrder 0 ms
      → length (process_all ms (with_completion_criteria config criteria)).1.active_frames
          * frame_interval_ns config
        < config.completion_window_ns + 2 * frame_interval_ns config
  waiting_frames_bounded criteria ms pos o =
      let b = with_completion_criteria config criteria in
      let (last, st) = process_all-Steady ms 0 b pos o (empty-Steady criteria) in
      few last (process_all ms b).1 pos st
