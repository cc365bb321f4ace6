-- ===== src/Embedding/Registry.antt =====
-- packages/shared/src/embeddings/registry.ts: the models and `validateModelDim`. A name that every
-- object has, such as `constructor`, is unknown here; the source refuses it for its provider.
pub mod Valid
use Prim.Native.String.{String}
use text.Mathlib.Text.{◌==◌ as str_eq}
use persistent_memory_stack.Prelude.{
  Bool, List, Option, [], any, false, if◌then◌else◌, leb, none, not, some, true, ℕ, ◌&&◌, ◌==◌, ◌∷◌,
}
use persistent_memory_stack.Prelude.Result.{Result, err, ok}

pub data ProviderName : Type 0 where
  ollama voyage openai : ProviderName

-- The field `asymmetric` is read by the providers' clients alone.
pub record ModelSpec : Type 0 where
  pub provider : ProviderName
  pub native_dim : ℕ
  pub supported_dims : Option (List ℕ)

abbrev buckets : ProviderName → ℕ → List ℕ → ModelSpec
buckets p n dims = record { provider = p; native_dim = n; supported_dims = some dims }

abbrev voyage_dims : List ℕ
voyage_dims = 256 ∷ 512 ∷ 1024 ∷ 2048 ∷ []

unfoldable pub model_registry : List (String × ModelSpec)
model_registry =
    ("qwen3-embedding:0.6b", buckets ollama 1024 (1024 ∷ 768 ∷ 512 ∷ 256 ∷ []))
    ∷ ("qwen3-embedding:4b", buckets ollama 2560 (2560 ∷ 1024 ∷ 768 ∷ 512 ∷ 256 ∷ []))
    ∷ ("qwen3-embedding:8b", buckets ollama 4096 (4096 ∷ 2560 ∷ 1024 ∷ 768 ∷ 512 ∷ 256 ∷ []))
    ∷ ("nomic-embed-text", buckets ollama 768 (768 ∷ []))
    ∷ ("voyage-4", buckets voyage 1024 voyage_dims)
    ∷ ("voyage-4-large", buckets voyage 1024 voyage_dims)
    ∷ ("voyage-4-lite", buckets voyage 1024 voyage_dims)
    ∷ ("voyage-3-large", buckets voyage 1024 voyage_dims)
    ∷ (
      "text-embedding-3-large",
      record { provider = openai; native_dim = 3072; supported_dims = none },
    )
    ∷ (
      "text-embedding-3-small",
      record { provider = openai; native_dim = 1536; supported_dims = none },
    )
    ∷ []

unfoldable pub spec_of : String → List (String × ModelSpec) → Option ModelSpec
spec_of model [] = none
spec_of model ((m, spec) ∷ rest) = if str_eq m model then some spec else spec_of model rest

abbrev same_provider : ProviderName → ProviderName → Bool
same_provider ollama ollama = true
same_provider voyage voyage = true
same_provider openai openai = true
same_provider _ _ = false

pub data ConfigError : Type 0 where
  unknown_model other_provider bad_dim : ConfigError

abbrev supports : Option (List ℕ) → ℕ → ℕ → Bool
supports (some dims) native dim = any (λ d. d == dim) dims
supports none native dim = leb 1 dim && leb dim native

validate_spec : ProviderName → ℕ → Option ModelSpec → Result ConfigError ModelSpec
validate_spec provider dim none = err unknown_model
validate_spec provider dim (some spec) =
    if not (same_provider spec.provider provider)
    then err other_provider
    else if not (supports spec.supported_dims spec.native_dim dim)
    then err bad_dim
    else ok spec

unfoldable pub validate_model_dim : ProviderName → String → ℕ → Result ConfigError ModelSpec
unfolding validate_spec
validate_model_dim provider model dim = validate_spec provider dim (spec_of model model_registry)
