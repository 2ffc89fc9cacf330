-- ===== src/Storage/Slices.antt =====
-- Parts of a sequence, as range requests and uploads in parts cut them.
use roboflow.Prelude.{
  List, [], ap, arith, length, refl, suc, sym, take, zero, ℕ, ◌++◌, ◌+◌, ◌-◌, ◌∙◌, ◌∷◌, ◌≡◌, ◌≤◌,
}

module _ {A : Type 0} where
  abbrev pub drop : ℕ → List A → List A
  drop zero xs = xs
  drop (suc n) [] = []
  drop (suc n) (x ∷ xs) = drop n xs

  -- The elements from `start` up to, not including, `end`.
  abbrev pub slice : ℕ → ℕ → List A → List A
  slice start end xs = take (end - start) (drop start xs)

  pub length-take-le : (n : ℕ) (xs : List A) → n ≤ length xs → length (take n xs) ≡ n
  length-take-le zero xs le = refl
  length-take-le (suc n) [] le = absurd (omega arith)
  length-take-le (suc n) (x ∷ xs) le = omega (arith, length-take-le n xs (omega arith))

  pub length-drop : (n : ℕ) (xs : List A) → length (drop n xs) ≡ length xs - n
  length-drop zero xs = omega arith
  length-drop (suc n) [] = omega arith
  length-drop (suc n) (x ∷ xs) = omega (arith, length-drop n xs)

  pub length-slice :
      (start end : ℕ) (xs : List A) → end ≤ length xs → length (slice start end xs) ≡ end - start
  length-slice start end xs le =
      length-take-le (end - start) (drop start xs) (omega (arith, length-drop start xs))

  drop-nil : (m : ℕ) → drop m [] ≡ []
  drop-nil zero = refl
  drop-nil (suc m) = refl

  take-nil : (m : ℕ) → take {A = A} m [] ≡ []
  take-nil zero = refl
  take-nil (suc m) = refl

  pub drop-drop : (m n : ℕ) (xs : List A) → drop m (drop n xs) ≡ drop (n + m) xs
  drop-drop m zero xs = ap (λ k. drop k xs) (omega arith)
  drop-drop m (suc n) [] = drop-nil m ∙ sym (drop-nil (suc n + m))
  drop-drop m (suc n) (x ∷ xs) =
      let e : suc (n + m) ≡ suc n + m = omega arith in
      drop-drop m n xs ∙ ap (λ k. drop k (x ∷ xs)) e

  -- A part of a part: taken from within a prefix it is the same as from the whole.
  pub take-drop-take :
      (n m k : ℕ) (xs : List A) → m + n ≤ k → take n (drop m (take k xs)) ≡ take n (drop m xs)
  take-drop-take zero m k xs le = refl
  take-drop-take (suc n) zero zero xs le = absurd (omega arith)
  take-drop-take (suc n) zero (suc k) [] le = refl
  take-drop-take (suc n) zero (suc k) (x ∷ xs) le =
      ap (◌∷◌ x) (take-drop-take n zero k xs (omega arith))
  take-drop-take (suc n) (suc m) zero xs le = absurd (omega arith)
  take-drop-take (suc n) (suc m) (suc k) [] le = refl
  take-drop-take (suc n) (suc m) (suc k) (x ∷ xs) le = take-drop-take (suc n) m k xs (omega arith)

  pub take-append-drop : (n : ℕ) (xs : List A) → take n xs ++ drop n xs ≡ xs
  take-append-drop zero xs = refl
  take-append-drop (suc n) [] = refl
  take-append-drop (suc n) (x ∷ xs) = ap (◌∷◌ x) (take-append-drop n xs)

  pub take-add : (m n : ℕ) (xs : List A) → take (m + n) xs ≡ take m xs ++ take n (drop m xs)
  take-add zero n xs = ap (λ k. take k xs) (omega arith)
  take-add (suc m) n [] = take-nil (suc m + n) ∙ sym (take-nil n)
  take-add (suc m) n (x ∷ xs) =
      let e : suc m + n ≡ suc (m + n) = omega arith in
      ap (λ k. take k (x ∷ xs)) e ∙ ap (◌∷◌ x) (take-add m n xs)

  pub slice_none : (start end : ℕ) (xs : List A) → end ≤ start → [] ≡ slice start end xs
  slice_none start end xs e =
      let none_left : 0 ≡ end - start = omega arith in ap (λ k. take k (drop start xs)) none_left

  pub slice-append :
      (start mid end : ℕ) (xs : List A)
      → start ≤ mid
      → mid ≤ end
      → slice start mid xs ++ slice mid end xs ≡ slice start end xs
  slice-append start mid end xs le le' =
      let back : drop mid xs ≡ drop (mid - start) (drop start xs) =
        let e : mid ≡ start + (mid - start) = omega arith in
        ap (λ k. drop k xs) e ∙ sym (drop-drop (mid - start) start xs) in
      let whole : (mid - start) + (end - mid) ≡ end - start = omega arith in
      ap (λ b. slice start mid xs ++ take (end - mid) b) back
      ∙ sym (take-add (mid - start) (end - mid) (drop start xs))
      ∙ ap (λ k. take k (drop start xs)) whole

  take-length : (xs : List A) → take (length xs) xs ≡ xs
  take-length [] = refl
  take-length (x ∷ xs) = ap (◌∷◌ x) (take-length xs)

  pub slice_whole : (xs : List A) → slice 0 (length xs) xs ≡ xs
  slice_whole xs =
      let all : length xs - 0 ≡ length xs = omega arith in ap (λ k. take k xs) all ∙ take-length xs
