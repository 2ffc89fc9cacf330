-- ===== src/Bytes.antt =====
-- Byte strings: keys, stored values and the texts that the code searches. Rust's `str` and `[u8]`
-- methods that the modelled code calls, over lists of bytes.
use Prim.Native.Char.{code}
use Prim.Native.String.{String}
use roboflow.Prelude.{
  Bool, List, Option, [], arith, false, if◌then◌else◌, ltb, none, not, refl, some, true, ℕ, ◌&&◌,
  ◌++◌, ◌<◌, ◌==◌, ◌||◌, ◌↔◌, ◌∷◌, ◌≡◌, ◌≢◌,
}

abbrev pub Bytes : Type 0
Bytes = List ℕ

-- The bytes of an ASCII text.
abbrev pub codes : String → Bytes
codes String.[] = []
codes (String.◌∷◌ c s) = code c ∷ codes s

unfoldable pub beq : Bytes → Bytes → Bool
beq [] [] = true
beq (x ∷ xs) (y ∷ ys) = (x == y) && beq xs ys
beq _ _ = false

pub beq_sound : (xs ys : Bytes) → beq xs ys ≡ true → xs ≡ ys
unfolding beq
beq_sound [] [] h = refl
beq_sound [] (y ∷ ys) h = ground arith
beq_sound (x ∷ xs) [] h = ground arith
beq_sound (x ∷ xs) (y ∷ ys) h = ground (arith, beq_sound xs ys)

pub beq_refl : (xs : Bytes) → beq xs xs ≡ true
unfolding beq
beq_refl [] = refl
beq_refl (x ∷ xs) = ground (arith, beq_refl xs)

-- For `ground`, at each pair of byte strings that is compared.
pub beq_iff : (xs ys : Bytes) → (beq xs ys ≡ true) ↔ (xs ≡ ys)
beq_iff xs ys = (beq_sound xs ys, λ e. ground (arith, beq_refl xs))

-- The order of keys: lexicographic.
unfoldable pub bytes_ltb : Bytes → Bytes → Bool
bytes_ltb [] [] = false
bytes_ltb [] (y ∷ ys) = true
bytes_ltb (x ∷ xs) [] = false
bytes_ltb (x ∷ xs) (y ∷ ys) = ltb x y || ((x == y) && bytes_ltb xs ys)

unfoldable pub starts_with : Bytes → Bytes → Bool
starts_with [] ys = true
starts_with (x ∷ xs) [] = false
starts_with (x ∷ xs) (y ∷ ys) = (x == y) && starts_with xs ys

pub starts_with-append : (p s : Bytes) → starts_with p (p ++ s) ≡ true
unfolding starts_with
starts_with-append [] s = refl
starts_with-append (x ∷ p) s = ground (arith, starts_with-append p s)

-- `text.contains(needle)`.
unfoldable pub contains : Bytes → Bytes → Bool
unfolding starts_with
contains needle [] = starts_with needle []
contains needle (x ∷ xs) = starts_with needle (x ∷ xs) || contains needle xs

unfoldable pub strip_prefix : Bytes → Bytes → Option Bytes
strip_prefix [] ys = some ys
strip_prefix (x ∷ xs) [] = none
strip_prefix (x ∷ xs) (y ∷ ys) = if x == y then strip_prefix xs ys else none

unfoldable pub trim_start_matches : ℕ → Bytes → Bytes
trim_start_matches c [] = []
trim_start_matches c (x ∷ xs) = if x == c then trim_start_matches c xs else x ∷ xs

abbrev prepend : ℕ → Option (Bytes × Bytes) → Option (Bytes × Bytes)
prepend x none = none
prepend x (some (a, b)) = some (x ∷ a, b)

-- Splits at the first occurrence.
unfoldable pub split_once : ℕ → Bytes → Option (Bytes × Bytes)
split_once c [] = none
split_once c (x ∷ xs) = if x == c then some ([], xs) else prepend x (split_once c xs)

-- No byte of the text is `c`.
abbrev pub Lacks : ℕ → Bytes → Type 0
Lacks c [] = Unit {0}
Lacks c (x ∷ xs) = (x ≢ c) × Lacks c xs

pub strip_prefix-append : (p s : Bytes) → strip_prefix p (p ++ s) ≡ some s
unfolding strip_prefix
strip_prefix-append [] s = refl
strip_prefix-append (x ∷ p) s = ground (arith, strip_prefix-append p s)

pub split_once-append : (c : ℕ) (a b : Bytes) → Lacks c a → split_once c (a ++ c ∷ b) ≡ some (a, b)
unfolding split_once
split_once-append c [] b h = ground arith
split_once-append c (x ∷ a) b h = ground (arith, split_once-append c a b h.1)

pub trim_start_matches-append :
    (c : ℕ) (a b : Bytes) → a ≢ [] → Lacks c a → trim_start_matches c (c ∷ a ++ b) ≡ a ++ b
unfolding trim_start_matches
trim_start_matches-append c [] b n h = absurd (n refl)
trim_start_matches-append c (x ∷ a) b n h = ground arith

-- Every byte is below 255, as in UTF-8.
abbrev pub IsText : Bytes → Type 0
IsText [] = Unit {0}
IsText (x ∷ xs) = (x < 255) × IsText xs

-- The keys from `p` up to, not including, `p` with 0xFF behind it.
unfoldable pub in_range : Bytes → Bytes → Bool
unfolding bytes_ltb
in_range p k = not (bytes_ltb k p) && bytes_ltb k (p ++ 255 ∷ [])

pub in_range-starts_with : (p k : Bytes) → IsText k → in_range p k ≡ starts_with p k
unfolding in_range bytes_ltb starts_with
in_range-starts_with [] [] t = refl
in_range-starts_with [] (y ∷ ys) t = ground arith
in_range-starts_with (x ∷ p) [] t = ground arith
in_range-starts_with (x ∷ p) (y ∷ ys) t = ground (arith, in_range-starts_with p ys t.1)

-- A map with keys of the source's `HashMap<String, _>`: one entry for a key.
module _ {A : Type 0} where
  unfoldable pub insert_entry : Bytes → A → List (Bytes × A) → List (Bytes × A)
  insert_entry k v [] = (k, v) ∷ []
  insert_entry k v ((j, w) ∷ m) =
      let rest = insert_entry k v m in if beq j k then (k, v) ∷ m else (j, w) ∷ rest
