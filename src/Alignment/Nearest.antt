-- ===== src/Alignment/Nearest.antt =====
-- The frame of a message: `align_to_frame_boundary` of
-- crates/roboflow-dataset/src/formats/alignment/buffer.rs.
use native.Mathlib.Nat.{add-mul-div_right, div-eq_of_lt}
use roboflow.Alignment.Buffer.{align_to_frame_boundary}
use roboflow.Alignment.Config.{StreamingConfig, frame_interval_ns}
use roboflow.Prelude.{
  Bool-cases, ap, arith, if◌then◌else◌, inl, inr, ltb, ℕ, ◌*◌, ◌+◌, ◌-◌, ◌/◌, ◌<◌, ◌^◌, ◌∙◌, ◌≡◌,
  ◌≤◌,
}

-- The rounding, where nothing saturates.
abbrev rounded : ℕ → ℕ → ℕ
rounded j t = (t + (j + 1) / 2) / j * j

align-rounded :
    (config : StreamingConfig) (t : ℕ)
    → t + frame_interval_ns config < 2 ^ 64
    → 0 < frame_interval_ns config
    → align_to_frame_boundary config t ≡ rounded (frame_interval_ns config) t
unfolding align_to_frame_boundary
align-rounded config t room pos =
    let j = frame_interval_ns config in ap (λ x. x / j * j) (omega arith)

-- The whole intervals in a time that is `x` behind the `k`-th boundary.
multiple_at : (j k x t : ℕ) → x < j → t ≡ x + k * j → t / j * j ≡ k * j
multiple_at j k x t small e =
    let none_over : x / j ≡ 0 = div-eq_of_lt small in
    let whole : (x + k * j) / j ≡ k =
      omega (arith, add-mul-div_right x k {z = j} (omega arith), none_over) in
    ap (λ n. n * j) (ap (λ y. y / j) e ∙ whole)

rounded_down : (j k r : ℕ) → r < j / 2 → rounded j (k * j + r) ≡ k * j
rounded_down j k r early =
    multiple_at j k (r + (j + 1) / 2) (k * j + r + (j + 1) / 2) (omega arith) (omega arith)

rounded_up : (j k r : ℕ) → r < j → j / 2 ≤ r → rounded j (k * j + r) ≡ (k + 1) * j
rounded_up j k r inside late =
    multiple_at j (k + 1) (r + (j + 1) / 2 - j) (k * j + r + (j + 1) / 2) (omega arith)
      (omega arith)

-- A time that is `r` nanoseconds past the `k`-th multiple of the interval goes back to that
-- multiple if `r` is less than half the interval, rounded down, and else on to the next one. (So
-- with an odd interval the time in the middle goes on, though the multiple before it is nearer by a
-- nanosecond. The time does not saturate.)
pub align_splits :
    (config : StreamingConfig) (k r : ℕ)
    → let j = frame_interval_ns config in
      r < j
      → (k + 2) * j < 2 ^ 64
      → align_to_frame_boundary config (k * j + r) ≡ (if ltb r (j / 2) then k * j else (k + 1) * j)
align_splits config k r inside room =
    let j = frame_interval_ns config in
    let a = align-rounded config (k * j + r) (omega arith) (omega arith) in
    elim (Bool-cases (ltb r (j / 2))) [
      | inl e ↦ a ∙ rw e (rounded_down j k r (ground arith))
      | inr e ↦ a ∙ rw e (rounded_up j k r inside (ground arith))
    ]
