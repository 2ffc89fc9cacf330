-- ===== src/Batch/Spec.antt =====
-- The specification of a batch job: crates/roboflow-distributed/src/batch/spec.rs, with the fields
-- that the controller reads.
use roboflow.Bytes.{Bytes, codes, starts_with}
use roboflow.Prelude.{
  Bool, List, Option, [], arith, false, if◌then◌else◌, none, not, refl, some, true, ℕ, ◌&&◌, ◌++◌,
  ◌↔◌, ◌∷◌, ◌≡◌, ◌≢◌, ◌⊎◌,
}

pub record SourceUrl : Type 0 where
  pub url : Bytes
  pub filter : Option Bytes
  pub max_size : Option ℕ

pub record BatchSpec : Type 0 where
  pub name : Bytes
  pub display_name : Option Bytes
  pub namespace : Bytes
  pub created_at : ℕ
  pub sources : List SourceUrl
  pub output : Bytes
  pub backoff_limit : ℕ  -- u32

pub data BatchSpecError : Type 0 where
  invalid_name validation : BatchSpecError
  invalid_url : Bytes → BatchSpecError

abbrev is_empty {ℓ} : {A : Type ℓ} → List A → Bool
is_empty [] = true
is_empty (x ∷ xs) = false

unfoldable pub validate_url : Bytes → Option BatchSpecError
validate_url url =
    if not (starts_with (codes "s3://") url) && not (starts_with (codes "file://") url)
    then some (invalid_url url)
    else none

abbrev first_error : Option BatchSpecError → Option BatchSpecError → Option BatchSpecError
first_error (some e) later = some e
first_error none later = later

unfoldable pub validate_sources : List SourceUrl → Option BatchSpecError
unfolding validate_url
validate_sources [] = none
validate_sources (s ∷ ss) = first_error (validate_url s.url) (validate_sources ss)

-- `none` is `Ok(())`.
unfoldable pub validate : BatchSpec → Option BatchSpecError
unfolding validate_url validate_sources
validate s =
    if is_empty s.name
    then some invalid_name
    else if is_empty s.sources
    then some validation
    else first_error (validate_sources s.sources) (validate_url s.output)

unfoldable pub batch_id_from_spec : BatchSpec → Bytes
batch_id_from_spec s = s.namespace ++ b':' ∷ s.name

pub HasScheme : Bytes → Type 0
HasScheme url =
    (starts_with (codes "s3://") url ≡ true) ⊎ (starts_with (codes "file://") url ≡ true)

abbrev AllSchemes : List SourceUrl → Type 0
AllSchemes [] = Unit {0}
AllSchemes (s ∷ ss) = HasScheme s.url × AllSchemes ss

-- What makes a specification valid.
pub record IsValid (s : BatchSpec) : Type 0 where
  pub named : s.name ≢ []
  pub has_sources : s.sources ≢ []
  pub sources_valid : AllSchemes s.sources
  pub output_valid : HasScheme s.output

validate_url_sound : (url : Bytes) → (validate_url url ≡ none) ↔ HasScheme url
unfolding validate_url HasScheme
validate_url_sound url = (λ h. ground arith, λ h. ground arith)

validate_sources_sound : (ss : List SourceUrl) → (validate_sources ss ≡ none) ↔ AllSchemes ss
unfolding validate_sources
validate_sources_sound [] = (λ h. tt, λ h. refl)
validate_sources_sound (s ∷ ss) = (
  λ h. ((validate_url_sound s.url).0 (ground arith), (validate_sources_sound ss).0 (ground arith)),
  λ h. ground (arith, (validate_url_sound s.url).1 h.0, (validate_sources_sound ss).1 h.1),
)

-- A specification is accepted exactly when it has a name and a source, and every source and the
-- output has one of the two schemes.
pub validate_iff : (s : BatchSpec) → (validate s ≡ none) ↔ IsValid s
unfolding validate
validate_iff s = (
  λ h. record {
    named = λ e. ground arith;
    has_sources = λ e. ground arith;
    sources_valid = (validate_sources_sound s.sources).0 (ground arith);
    output_valid = (validate_url_sound s.output).0 (ground arith);
  },
  λ v. ground (
    arith,
    v.named,
    v.has_sources,
    (validate_sources_sound s.sources).1 v.sources_valid,
    (validate_url_sound s.output).1 v.output_valid,
  ),
)
