-- ===== src/Embedding/Registry/Valid.antt =====
-- Which triples of provider, model and dimension are accepted.
use Prim.Native.String.{String}
use persistent_memory_stack.Prelude.{
  Elem, List, Option, [], any, arith, none, some, true, ℕ, ◌==◌, ◌↔◌, ◌∷◌, ◌≡◌, ◌≤◌,
}
use persistent_memory_stack.Prelude.Result.{ok}
use persistent_memory_stack.Embedding.Registry.{
  ModelSpec, ProviderName, model_registry, same_provider, spec_of, supports, validate_model_dim,
  validate_spec,
}

abbrev pub Supports : Option (List ℕ) → ℕ → ℕ → Type 0
Supports (some dims) native dim = Elem dim dims
Supports none native dim = (1 ≤ dim) × (dim ≤ native)

any-Elem : (dims : List ℕ) (dim : ℕ) → (any (λ d. d == dim) dims ≡ true) ↔ Elem dim dims
any-Elem [] dim = ((λ h. cc), λ e. absurd e)
any-Elem (d ∷ ds) dim = ground (arith, any-Elem ds dim)

supports_iff :
    (dims : Option (List ℕ)) (native dim : ℕ)
    → (supports dims native dim ≡ true) ↔ Supports dims native dim
supports_iff (some dims) native dim = any-Elem dims dim
supports_iff none native dim = ground arith

same_provider_iff : (p q : ProviderName) → (same_provider p q ≡ true) ↔ (p ≡ q)
same_provider_iff p q = ground arith

-- Validation accepts exactly a registered model, asked for under its own provider and at one of its
-- dimensions: a listed one, or any up to the native one where none is listed.
validate_model_dim_iff :
    (provider : ProviderName) (model : String) (dim : ℕ) (spec : ModelSpec)
    → (validate_model_dim provider model dim ≡ ok spec) ↔ (
        (spec_of model model_registry ≡ some spec)
        × (spec.provider ≡ provider)
        × Supports spec.supported_dims spec.native_dim dim)
unfolding validate_model_dim
validate_model_dim_iff provider model dim spec = by_spec (spec_of model model_registry)
  where
    by_spec :
        (found : Option ModelSpec)
        → (validate_spec provider dim found ≡ ok spec) ↔ (
            (found ≡ some spec)
            × (spec.provider ≡ provider)
            × Supports spec.supported_dims spec.native_dim dim)
    by_spec none = ((λ h. cc), λ (h, _, _). cc)
    by_spec (some s) = (
      λ h. ground (
        arith,
        same_provider_iff s.provider provider,
        supports_iff s.supported_dims s.native_dim dim,
      ),
      λ (e, p, d). ground (
        arith,
        same_provider_iff spec.provider provider,
        (supports_iff spec.supported_dims spec.native_dim dim).1 d,
      ),
    )
