-- ===== src/Resources/Recommendation.antt =====
-- `recommendResources`: the local model that the installer proposes, or the remote one. The reason
-- is which of its two texts is given. Reading a field of no model, which throws, is no result.
pub mod Scan
pub mod Largest
use Prim.Native.String.{String}
use text.Mathlib.Text.{◌==◌ as str_eq}
use persistent_memory_stack.Prelude.{
  Bool, List, Option, [], any, false, find?, if◌then◌else◌, is_some, map, none, or_else, some, ℕ,
  ◌&&◌, ◌++◌, ◌∷◌,
}
use persistent_memory_stack.Resources.Models.{ResourceModel, ResourceSnapshot, resource_models}
use persistent_memory_stack.Resources.Evaluation.{ResourceAssessment, evaluate_resources}

pub record ResourceRecommendation : Type 0 where
  pub provider : String
  pub model : String
  pub dim : ℕ
  pub meets_headroom : Bool
  pub allowed : Bool
  pub requires_acknowledgement : Bool
  pub local_enabled : Bool
  pub options : List ResourceAssessment

abbrev pub reversed {ℓ} : {A : Type ℓ} → List A → List A
reversed [] = []
reversed (x ∷ xs) = reversed xs ++ (x ∷ [])

abbrev pub filtered {ℓ} : {A : Type ℓ} → (A → Bool) → List A → List A
filtered test [] = []
filtered test (x ∷ xs) = let rest = filtered test xs in if test x then x ∷ rest else rest

-- `option.model?.location === 'local'`
abbrev pub is_local_model : Option ResourceModel → Bool
is_local_model none = false
is_local_model (some m) = m.is_local

-- `option.model?.model === 'text-embedding-3-small'`
abbrev pub is_small_model : Option ResourceModel → Bool
is_small_model none = false
is_small_model (some m) = str_eq m.model "text-embedding-3-small"

abbrev pub is_recommended : ResourceAssessment → Bool
is_recommended option = option.allowed && option.meets_recommended

-- The object that `recommendResources` returns.
pub recommendation :
    List ResourceAssessment
    → List ResourceAssessment
    → Bool
    → ResourceAssessment
    → ResourceModel
    → ResourceRecommendation
recommendation options local_options found selected m = record {
  provider = m.provider;
  model = m.model;
  dim = m.dim;
  meets_headroom = found;
  allowed = selected.allowed;
  requires_acknowledgement = selected.requires_acknowledgement;
  local_enabled = any ResourceAssessment.allowed local_options;
  options = options;
}

pub recommend_option :
    List ResourceAssessment
    → List ResourceAssessment
    → Bool
    → Option ResourceAssessment
    → Option ResourceRecommendation
unfolding recommendation
recommend_option options local_options found none = none
recommend_option options local_options found (some selected) = elim selected.model [
  | none ↦ none
  | some m ↦ some (recommendation options local_options found selected m)
]

pub select_option : List ResourceAssessment → Option ResourceRecommendation
unfolding recommend_option
select_option options =
    let local_options =
      filtered (λ option. is_local_model (ResourceAssessment.model option)) options in
    let recommended_local = find? is_recommended (reversed local_options) in
    let remote = find? (λ option. is_small_model (ResourceAssessment.model option)) options in
    recommend_option options local_options (is_some recommended_local)
      (or_else recommended_local remote)

pub evaluate_models : ResourceSnapshot → List ResourceAssessment
evaluate_models s =
    map (λ m. evaluate_resources s (ResourceModel.provider m) (ResourceModel.model m))
      resource_models

unfoldable pub recommend_resources : ResourceSnapshot → Option ResourceRecommendation
unfolding select_option evaluate_models
recommend_resources s = select_option (evaluate_models s)
