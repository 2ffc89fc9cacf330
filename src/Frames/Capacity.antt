-- ===== src/Frames/Capacity.antt =====
-- The capacity of a new ring buffer.
use Prim.Native.Nat.{◌∣◌}
use native.Mathlib.Nat.{dvd-mul_right, dvd_refl, dvd_trans, le_of_dvd, mul-one, mul_assoc, pow-suc}
use roboflow.Frames.{doubling, empty_ring, len, next_power_of_two}
use roboflow.Frames.Fifo.{Holds}
use roboflow.Prelude.{
  Bool-cases, [], ap, arith, inl, inr, leb, refl, subst, suc, sym, tests, zero, ℕ, ◌*◌, ◌<◌, ◌^◌,
  ◌∙◌, ◌≡◌, ◌≤◌,
}

power_divides : (p k : ℕ) → p * 2 ^ k ≡ 2 ^ 63 → p ∣ 2 ^ 63
power_divides p k e = subst (λ n. p ∣ n) e (dvd-mul_right p (2 ^ k))

doubled : (p k : ℕ) → 2 * p * k ≡ p * (k * 2)
doubled p k = omega (arith, mul_assoc 2 p k, mul_assoc p k 2)

-- A power of two from `n` on that an index of 64 bits wraps with.
abbrev Rounds : ℕ → ℕ → Type 0
Rounds n d = (d ∣ 2 ^ 63) × (n ≤ d) × (0 < d)

doubling-Rounds :
    (fuel p n : ℕ) → 0 < p → p * 2 ^ fuel ≡ 2 ^ 63 → n ≤ 2 ^ 63 → Rounds n (doubling fuel p n)
unfolding doubling
doubling-Rounds zero p n pos e small =
    subst (Rounds n) (sym e ∙ mul-one p) (dvd_refl (2 ^ 63), small, omega arith)
doubling-Rounds (suc fuel) p n pos e small =
    let rest =
      doubling-Rounds fuel (2 * p) n (omega arith)
        (doubled p (2 ^ fuel) ∙ ap (λ k. p * k) (sym (pow-suc 2 fuel)) ∙ e) small in
    elim (Bool-cases (leb n p)) [
      | inl t ↦ rw t (power_divides p (suc fuel) e, omega (tests, t), pos)
      | inr f ↦ rw f rest
    ]

next_power_Rounds : (n : ℕ) → n ≤ 2 ^ 63 → Rounds n (next_power_of_two n)
unfolding next_power_of_two
next_power_Rounds n small = doubling-Rounds 63 1 n (omega arith) refl small

-- A new ring is valid and empty, and its capacity, which divides 2 ^ 64, is at least the one asked
-- for, if that is at most 2 ^ 63.
pub empty_ring-Holds :
    (A : Type 0) (wanted : ℕ)
    → wanted ≤ 2 ^ 63
    → Holds (empty_ring {A = A} wanted) [] × (wanted ≤ (empty_ring {A = A} wanted).capacity)
unfolding empty_ring len
empty_ring-Holds A wanted h =
    let (divides, enough, pos) = next_power_Rounds wanted h in
    let bounded = le_of_dvd {m = next_power_of_two wanted} {n = 2 ^ 63} (omega arith) divides in
    (
      (
        record {
          mask_below = omega arith;
          small = omega arith;
          divides = dvd_trans (next_power_of_two wanted) divides (dvd-mul_right (2 ^ 63) 2);
          write_fits = omega arith;
          read_fits = omega arith;
          within = omega arith;
        },
        refl,
      ),
      enough,
    )
