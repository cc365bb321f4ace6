-- ===== src/Embedding/Batch.antt =====
-- `chunkBatches` and `assertDim` of packages/shared/src/embeddings/batch.ts.
pub mod Laws
use persistent_memory_stack.Prelude.{
  List, Option, [], drop, if◌then◌else◌, length, ltb, none, some, suc, take, zero, ℕ, ◌+◌, ◌==◌,
  ◌∷◌,
}

-- The loop, over what is left of the items; each round takes one batch. The length is enough fuel.
unfoldable pub batches_from {ℓ} : {A : Type ℓ} → ℕ → ℕ → List A → List (List A)
batches_from fuel step [] = []
batches_from zero step (x ∷ xs) = []
batches_from (suc fuel) step (x ∷ xs) =
    take step (x ∷ xs) ∷ batches_from fuel step (drop step (x ∷ xs))

-- `size > 0 ? size : items.length || 1`
abbrev pub batch_step : ℕ → ℕ → ℕ
batch_step size count = if ltb 0 size then size else if count == 0 then 1 else count

unfoldable pub chunk_batches {ℓ} : {A : Type ℓ} → List A → ℕ → List (List A)
unfolding batches_from
chunk_batches items size = batches_from (length items) (batch_step size (length items)) items

-- Each vector, or `none` where the provider sent something else; the error names the index.
assert_dim_from {ℓ} : {A : Type ℓ} → ℕ → List (Option (List A)) → ℕ → Option ℕ
assert_dim_from i [] dim = none
assert_dim_from i (none ∷ vs) dim = some i
assert_dim_from i (some v ∷ vs) dim =
    let rest = assert_dim_from (i + 1) vs dim in if length v == dim then rest else some i

-- The index at which `assertDim` throws, if it throws.
unfoldable pub assert_dim {ℓ} : {A : Type ℓ} → List (Option (List A)) → ℕ → Option ℕ
unfolding assert_dim_from
assert_dim vectors dim = assert_dim_from 0 vectors dim
