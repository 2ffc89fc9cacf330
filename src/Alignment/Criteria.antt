-- ===== src/Alignment/Criteria.antt =====
-- When a frame is complete: crates/roboflow-dataset/src/formats/alignment/completion.rs. The field
-- `min_completeness`, a float that `is_complete` does not read, is left out.
use roboflow.Bytes.{Bytes, beq, beq_iff, insert_entry}
use roboflow.Prelude.{
  Bool, List, [], arith, false, if◌then◌else◌, ltb, not, refl, true, ℕ, ◌&&◌, ◌++◌, ◌+◌, ◌<◌, ◌==◌,
  ◌↔◌, ◌∷◌, ◌≡◌, ◌≢◌, ◌≤◌, ◌⊎◌,
}

pub record FrameCompletionCriteria : Type 0 where
  pub features : List (Bytes × ℕ)

abbrev pub no_criteria : FrameCompletionCriteria
no_criteria = record { features = [] }

unfoldable pub require_feature : Bytes → ℕ → FrameCompletionCriteria → FrameCompletionCriteria
unfolding insert_entry
require_feature feature min_count c = record {
  features = insert_entry feature min_count c.features;
}

-- `received.iter().filter(|f| **f == *feature).count()`.
unfoldable pub occurrences : Bytes → List Bytes → ℕ
occurrences f [] = 0
occurrences f (g ∷ gs) = (if beq g f then 1 else 0) + occurrences f gs

-- The loop over the required features.
unfoldable pub all_met : List (Bytes × ℕ) → List Bytes → Bool
unfolding occurrences
all_met [] received = true
all_met ((feature, min_count) ∷ features) received =
    if ltb (occurrences feature received) min_count then false else all_met features received

abbrev pub empty_list : {A : Type 0} → List A → Bool
empty_list [] = true
empty_list (x ∷ xs) = false

unfoldable pub is_complete : FrameCompletionCriteria → List Bytes → Bool
unfolding all_met
is_complete c received =
    if not (all_met c.features received)
    then false
    else if not (empty_list c.features) && empty_list received
    then false
    else if empty_list c.features && not (empty_list received)
    then true
    else if empty_list c.features && empty_list received
    then false
    else true

-- A `HashSet`: a feature is kept once.
unfoldable pub insert_feature : Bytes → List Bytes → List Bytes
unfolding occurrences
insert_feature f received = if occurrences f received == 0 then received ++ (f ∷ []) else received

-- A set holds nothing twice.
abbrev pub IsFeatureSet : List Bytes → Type 0
IsFeatureSet received = (f : Bytes) → occurrences f received ≤ 1

-- A requirement as the criteria treat it: none is met by absence, one by presence, and more by
-- nothing.
abbrev pub Met : List Bytes → Bytes × ℕ → Type 0
Met received (f, n) = (n ≡ 0) ⊎ ((n ≡ 1) × (0 < occurrences f received))

abbrev pub AllMet : List Bytes → List (Bytes × ℕ) → Type 0
AllMet received [] = Unit {0}
AllMet received (r ∷ rs) = Met received r × AllMet received rs

occurrences-append :
    (f : Bytes) (xs ys : List Bytes)
    → occurrences f (xs ++ ys) ≡ occurrences f xs + occurrences f ys
unfolding occurrences
occurrences-append f [] ys = omega arith
occurrences-append f (x ∷ xs) ys = omega (arith, occurrences-append f xs ys)

pub insert_feature-IsFeatureSet :
    (f : Bytes) (received : List Bytes)
    → IsFeatureSet received
    → IsFeatureSet (insert_feature f received)
unfolding insert_feature occurrences
insert_feature-IsFeatureSet f received h g =
    ground (arith, beq_iff f g, occurrences-append g received (f ∷ []), h g)

all_met_iff :
    (features : List (Bytes × ℕ)) (received : List Bytes)
    → IsFeatureSet received
    → (all_met features received ≡ true) ↔ AllMet received features
unfolding all_met
all_met_iff [] received h = (λ e. tt, λ t. refl)
all_met_iff ((f, n) ∷ fs) received h = ground (arith, h f, all_met_iff fs received h)

parts :
    (fs : List (Bytes × ℕ)) (received : List Bytes)
    → (is_complete (record { features = fs }) received ≡ true)
      ↔ ((received ≢ []) × (all_met fs received ≡ true))
unfolding is_complete all_met
parts [] [] = (λ e. ground arith, λ e. absurd (e.0 refl))
parts [] (g ∷ gs) = (λ e. ((λ q. ground arith), ground arith), λ e. ground arith)
parts (f ∷ fs) [] = ((λ e. ground arith), λ e. absurd (e.0 refl))
parts (f ∷ fs) (g ∷ gs) = (λ e. ((λ q. ground arith), ground arith), λ e. ground arith)

-- A set of received features completes a frame exactly when it is not empty and meets every
-- requirement: a required count of 0 always, of 1 by holding the feature, of 2 or more never.
pub is_complete_iff :
    (c : FrameCompletionCriteria) (received : List Bytes)
    → IsFeatureSet received
    → (is_complete c received ≡ true) ↔ ((received ≢ []) × AllMet received c.features)
unfolding is_complete
is_complete_iff c received h =
    ground (arith, parts c.features received, all_met_iff c.features received h)
