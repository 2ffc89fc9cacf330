-- ===== src/Frames/Window.antt =====
-- The slots of a ring buffer that hold frames.
use Prim.Native.Nat.{◌∣◌}
use mathlib.Core.Path.{ap₂}
use native.Mathlib.Decide.{dec_lt}
use native.Mathlib.Nat.{add-zero, mod-add-mod, mod-eq-sub-mod, mod-eq_of_lt, mod-lt, mod-mod_of_dvd}
use roboflow.Frames.{set_slot}
use roboflow.Prelude.{
  List, Option, [], ap, arith, refl, some, suc, sym, zero, ℕ, ◌%◌, ◌++◌, ◌+◌, ◌-◌, ◌<◌, ◌^◌, ◌∙◌,
  ◌∷◌, ◌≡◌, ◌≢◌, ◌≤◌,
}

-- The slots that hold `n` frames from an index on.
module _ {A : Type 0} where
  abbrev pub window : (ℕ → Option A) → ℕ → ℕ → ℕ → List (Option A)
  window slots cap i zero = []
  window slots cap i (suc n) = slots (i % cap) ∷ window slots cap ((i + 1) % 2 ^ 64) n

  abbrev pub held : List A → List (Option A)
  held [] = []
  held (x ∷ q) = some x ∷ held q

slot_ne_from : (cap h s : ℕ) → h < cap → 0 < s → s < cap → (h + s) % cap ≢ h
slot_ne_from cap h s in_ring pos below = elim (dec_lt (h + s) cap) [
  | yes p ↦ omega (arith, mod-eq_of_lt p)
  | no p ↦ omega (
    arith,
    mod-eq-sub-mod {n = h + s} {m = cap} (omega arith),
    mod-eq_of_lt {n = h + s - cap} {m = cap} (omega arith),
  )
]

-- Fewer than `cap` steps on is another slot.
slot_ne : (cap i s : ℕ) → 0 < s → s < cap → (i + s) % cap ≢ i % cap
slot_ne cap i s pos below e =
    slot_ne_from cap (i % cap) s (mod-lt i (omega arith)) pos below (mod-add-mod i cap s ∙ e)

pub wrapped_slot : (cap i : ℕ) → cap ∣ 2 ^ 64 → i % 2 ^ 64 % cap ≡ i % cap
wrapped_slot cap i divides = mod-mod_of_dvd cap i divides

next_index : (i s : ℕ) → ((i + s) % 2 ^ 64 + 1) % 2 ^ 64 ≡ (i + suc s) % 2 ^ 64
next_index i s = omega arith

module _ {A : Type 0} (cap : ℕ) (divides : cap ∣ 2 ^ 64) where
  set_elsewhere :
      (slots : ℕ → Option A) (x : Option A) (i j : ℕ) → j ≢ i → set_slot i x slots j ≡ slots j
  set_elsewhere slots x i j ne = ground arith

  set_here : (slots : ℕ → Option A) (x : Option A) (i : ℕ) → set_slot i x slots i ≡ x
  set_here slots x i = ground arith

  -- Writing a slot before a window, not a whole round back, leaves the window.
  pub window-set_before :
      (slots : ℕ → Option A) (x : Option A) (b s n : ℕ)
      → 0 < s
      → s + n ≤ cap
      → window (set_slot (b % cap) x slots) cap ((b + s) % 2 ^ 64) n
        ≡ window slots cap ((b + s) % 2 ^ 64) n
  window-set_before slots x b s zero pos room = refl
  window-set_before slots x b s (suc n) pos room =
      ap₂ ◌∷◌
        (set_elsewhere slots x (b % cap) ((b + s) % 2 ^ 64 % cap)
          (rw (wrapped_slot cap (b + s) divides) (slot_ne cap b s pos (omega arith))))
        (rw (next_index b s) (window-set_before slots x b (suc s) n (omega arith) (omega arith)))

  -- Writing just past a window extends it by that slot.
  pub window-set_after :
      (slots : ℕ → Option A) (x : Option A) (i s n j : ℕ)
      → s + n < cap
      → j ≡ (i + (s + n)) % cap
      → window (set_slot j x slots) cap ((i + s) % 2 ^ 64) (suc n)
        ≡ window slots cap ((i + s) % 2 ^ 64) n ++ (x ∷ [])
  window-set_after slots x i s zero j room at =
      ap (λ y. y ∷ [])
        (rw (wrapped_slot cap (i + s) divides, at, add-zero) (set_here slots x ((i + s) % cap)))
  window-set_after slots x i s (suc n) j room at =
      ap₂ ◌∷◌
        (set_elsewhere slots x j ((i + s) % 2 ^ 64 % cap) (
          rw (wrapped_slot cap (i + s) divides, at)
            λ e.
              slot_ne cap (i + s) (suc n) (omega arith) (omega arith)
                (ap (λ k. k % cap) (omega arith) ∙ sym e)))
        (rw (next_index i s) (
          window-set_after slots x i (suc s) n j (omega arith)
            (at ∙ ap (λ k. k % cap) (omega arith))))

module _ {A : Type 0} where
  pub held-append : (q : List A) (x : A) → held q ++ (some x ∷ []) ≡ held (q ++ (x ∷ []))
  held-append [] x = refl
  held-append (y ∷ q) x = ap (λ z. some y ∷ z) (held-append q x)

  pub window_nonempty :
      (slots : ℕ → Option A) (cap i n : ℕ) (x : Option A) (q : List (Option A))
      → window slots cap i n ≡ x ∷ q
      → (m : ℕ) × (n ≡ suc m)
  window_nonempty slots cap i zero x q e = ground arith
  window_nonempty slots cap i (suc n) x q e = (n, refl)

  pub cons_parts : (x y : Option A) (l m : List (Option A)) → x ∷ l ≡ y ∷ m → (x ≡ y) × (l ≡ m)
  cons_parts x y l m e = ground arith

  pub window_empty : (slots : ℕ → Option A) (cap i n : ℕ) → window slots cap i n ≡ [] → n ≡ 0
  window_empty slots cap i zero e = refl
  window_empty slots cap i (suc n) e = ground arith
