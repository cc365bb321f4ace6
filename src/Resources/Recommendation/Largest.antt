-- ===== src/Resources/Recommendation/Largest.antt =====
-- Which model the installer recommends.
use persistent_memory_stack.Resources.Evaluation.Kept.{evaluate_resources_lem}
use persistent_memory_stack.Prelude.{
  All, Bool, List, Option, and_split, ap, arith, false, find?, is_some, map, none, or_else, refl,
  some, true, ℕ, ◌≡◌, ◌≤◌,
}
use persistent_memory_stack.Resources.Models.{ResourceModel, ResourceSnapshot, resource_models}
use persistent_memory_stack.Resources.Evaluation.{ResourceAssessment, evaluate_resources, model_of}
use persistent_memory_stack.Resources.Recommendation.{
  ResourceRecommendation, evaluate_models, filtered, is_local_model, is_recommended, is_small_model,
  recommend_option, recommend_resources, recommendation, reversed, select_option,
}
use persistent_memory_stack.Resources.Recommendation.Scan.{
  All-Elem, All-filtered, All-imp, IsAscending, filtered-map, find?-map, last_one, no_one,
  reversed-IsLast,
}

abbrev pub assessed : ResourceSnapshot → ResourceModel → ResourceAssessment
assessed s m = evaluate_resources s m.provider m.model

-- The evaluation of a model allows it, with all that is recommended.
abbrev pub HasHeadroom : ResourceSnapshot → ResourceModel → Type 0
HasHeadroom s m = ((assessed s m).allowed ≡ true) × ((assessed s m).meets_recommended ≡ true)

-- A recommendation is for this model of the table, with this reason and with what the evaluation
-- of the model says.
pub record IsFor (s : ResourceSnapshot) (m : ResourceModel) (found : Bool)
    (r : ResourceRecommendation) : Type 0 where
  pub listed : model_of r.provider r.model ≡ some m
  pub same_provider : r.provider ≡ m.provider
  pub same_model : r.model ≡ m.model
  pub same_dim : r.dim ≡ m.dim
  pub same_reason : r.meets_headroom ≡ found
  pub same_verdict : r.allowed ≡ (assessed s m).allowed
  pub same_request : r.requires_acknowledgement ≡ (assessed s m).requires_acknowledgement

-- Each local model that has headroom has at most this dimension.
abbrev pub IsBound : ResourceSnapshot → ℕ → Type 0
IsBound s n =
    All (λ k. ResourceModel.is_local k ≡ true → HasHeadroom s k → ResourceModel.dim k ≤ n)
      resource_models

-- The largest local model that has headroom or, if none has, a small remote one.
pub data IsRecommended (s : ResourceSnapshot) (r : ResourceRecommendation) : Type 0 where
  largest_local :
      (m : ResourceModel)
      → IsFor s m true r
      → m.is_local ≡ true
      → HasHeadroom s m
      → IsBound s m.dim
      → IsRecommended s r
  small_remote :
      (m : ResourceModel)
      → IsFor s m false r
      → m.model ≡ "text-embedding-3-small"
      → All (λ k. ResourceModel.is_local k ≡ true → ¬ HasHeadroom s k) resource_models
      → IsRecommended s r

-- The local models of the table.
local_models : List ResourceModel
unfolding resource_models
local_models = filtered ResourceModel.is_local resource_models

local_models-IsAscending : IsAscending local_models
unfolding IsAscending local_models
local_models-IsAscending = ground arith

-- Each entry of the table is found under its own names.
IsListed : ResourceModel → Type 0
unfolding model_of
IsListed m = model_of m.provider m.model ≡ some m

resource_models-IsListed : All IsListed resource_models
unfolding resource_models IsListed
resource_models-IsListed =
    (refl, (refl, (refl, (refl, (refl, (refl, (refl, (refl, (refl, (refl, tt))))))))))

small_found :
    (m : ResourceModel) × (find? (λ m. is_small_model (some m)) resource_models ≡ some m)
    × (IsListed m × (m.model ≡ "text-embedding-3-small"))
unfolding resource_models IsListed
small_found = (_, refl, (refl, refl))

assessed_lem :
    (s : ResourceSnapshot) (m : ResourceModel) → IsListed m → (assessed s m).model ≡ some m
unfolding IsListed
assessed_lem s m h = evaluate_resources_lem s m.provider m.model m h

assessed-map :
    (s : ResourceSnapshot) (test : Option ResourceModel → Bool)
    → All (λ m. test (assessed s m).model ≡ test (some m)) resource_models
assessed-map s test =
    All-imp IsListed (λ m. test (assessed s m).model ≡ test (some m)) resource_models
      (λ m h. ap test (assessed_lem s m h)) resource_models-IsListed

select_option_lem :
    (options local_options : List ResourceAssessment) (best small : Option ResourceAssessment)
    (a : ResourceAssessment) (m : ResourceModel)
    → filtered (λ option. is_local_model (ResourceAssessment.model option)) options ≡ local_options
    → find? is_recommended (reversed local_options) ≡ best
    → find? (λ option. is_small_model (ResourceAssessment.model option)) options ≡ small
    → or_else best small ≡ some a
    → a.model ≡ some m
    → select_option options ≡ some (recommendation options local_options (is_some best) a m)
unfolding select_option recommend_option
select_option_lem options local_options best small a m e f g h k =
    rw (e, f, g, h)
      (ap
        (λ (found : Option ResourceModel). elim found [
          | none ↦ none
          | some n ↦ some (recommendation options local_options (is_some best) a n)
        ])
        k)

recommendation-IsFor :
    (s : ResourceSnapshot) (m : ResourceModel) (options local_options : List ResourceAssessment)
    (found : Bool)
    → IsListed m
    → IsFor s m found (recommendation options local_options found (assessed s m) m)
unfolding recommendation IsListed
recommendation-IsFor s m options local_options found h = record {
  listed = h;
  same_provider = refl;
  same_model = refl;
  same_dim = refl;
  same_reason = refl;
  same_verdict = refl;
  same_request = refl;
}

local_models-IsListed : All IsListed local_models
unfolding local_models resource_models IsListed
local_models-IsListed = (refl, (refl, (refl, (refl, tt))))

local_models-local : All (λ m. ResourceModel.is_local m ≡ true) local_models
unfolding local_models
local_models-local = (refl, (refl, (refl, (refl, tt))))

-- For every snapshot there is a recommendation. It is a local model whose evaluation allows it and
-- finds no warning that lowers it below the recommended headroom, with the largest dimension among
-- those; if there is no such local model it is text-embedding-3-small. The verdict and the request
-- for acknowledgement are those of the evaluation of the model.
pub recommend_resources-IsRecommended :
    (s : ResourceSnapshot)
    → (r : ResourceRecommendation) × (recommend_resources s ≡ some r) × IsRecommended s r
unfolding recommend_resources evaluate_models local_models
recommend_resources-IsRecommended s =
    let kept =
      filtered-map (assessed s) (λ a. is_local_model (ResourceAssessment.model a))
        ResourceModel.is_local resource_models (assessed-map s is_local_model) in
    let (n, e, (n_listed, name)) = small_found in
    let remote =
      find?-map (assessed s) (λ a. is_small_model (ResourceAssessment.model a))
        (λ m. is_small_model (some m)) resource_models n (assessed-map s is_small_model) e in
    elim (reversed-IsLast (assessed s) local_models local_models-IsAscending) [
      | last_one m found elem passes bound ↦
          let listed = All-Elem IsListed m local_models local_models-IsListed elem in
          (
            recommendation (evaluate_models s) (map (assessed s) local_models) true (assessed s m)
                m,
            select_option_lem _ _ _ _ _ m kept found remote refl (assessed_lem s m listed),
            largest_local m (recommendation-IsFor s m _ (map (assessed s) local_models) true listed)
                (All-Elem (λ k. ResourceModel.is_local k ≡ true) m local_models local_models-local
                  elem)
                (and_split _ _ passes)
                (All-filtered (λ k. HasHeadroom s k → ResourceModel.dim k ≤ m.dim) resource_models
                  (All-imp (λ k. is_recommended (assessed s k) ≡ true → ResourceModel.dim k ≤ m.dim)
                    (λ k. HasHeadroom s k → ResourceModel.dim k ≤ m.dim) local_models
                    (λ k h (a, b). h (rw (a, b) refl)) bound)),
          )
      | no_one found fails ↦ (
        recommendation (evaluate_models s) (map (assessed s) local_models) false (assessed s n) n,
        select_option_lem _ _ _ _ _ n kept found remote refl (assessed_lem s n n_listed),
        small_remote n (recommendation-IsFor s n _ (map (assessed s) local_models) false n_listed)
            name
            (All-filtered (λ k. ¬ HasHeadroom s k) resource_models
              (All-imp (λ k. is_recommended (assessed s k) ≡ false) (λ k. ¬ HasHeadroom s k)
                local_models (λ k h (a, b). let so = rw (a, b) at h in cc) fails)),
      )
    ]
