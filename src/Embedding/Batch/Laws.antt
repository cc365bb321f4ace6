-- ===== src/Embedding/Batch/Laws.antt =====
-- Batches keep the items in order and have the size that was asked for.
use persistent_memory_stack.Prelude.{
  All, List, Option, [], arith, drop, length, length-drop, length-take, none, refl, some, suc,
  take-append-drop, zero, ℕ, ◌++◌, ◌+◌, ◌<◌, ◌↔◌, ◌∷◌, ◌≡◌, ◌≤◌,
}
use persistent_memory_stack.Embedding.Batch.{
  assert_dim, assert_dim_from, batch_step, batches_from, chunk_batches,
}

abbrev pub IsBatch {ℓ} : {A : Type ℓ} → ℕ → List A → Type 0
IsBatch step batch = (0 < length batch) × (length batch ≤ step)

pub concat_batches {ℓ} : {A : Type ℓ} → List (List A) → List A
concat_batches [] = []
concat_batches (b ∷ bs) = b ++ concat_batches bs

module _ {ℓ} {A : Type ℓ} where
  pub batches_from_lem :
      (fuel step : ℕ) (items : List A)
      → length items ≤ fuel
      → 0 < step
      → (concat_batches (batches_from fuel step items) ≡ items)
        × All (IsBatch step) (batches_from fuel step items)
  unfolding batches_from concat_batches
  batches_from_lem zero step [] h k = (refl, tt)
  batches_from_lem (suc fuel) step [] h k = (refl, tt)
  batches_from_lem zero step (x ∷ xs) h k = absurd (omega arith)
  batches_from_lem (suc fuel) (suc step) (x ∷ xs) h k =
      let (whole, sized) =
        batches_from_lem fuel (suc step) (drop step xs) (omega (arith, length-drop step xs)) k in
      (
        rw (whole, take-append-drop step xs) refl,
        ((omega (arith, length-take step xs), omega (arith, length-take step xs)), sized),
      )
  batches_from_lem (suc fuel) zero (x ∷ xs) h k = absurd (omega arith)

  -- The batches together are the items in their order, none is empty, and none is longer than the
  -- requested size, or than all the items where no size is requested.
  chunk_batches_lem :
      (items : List A) (size : ℕ)
      → (concat_batches (chunk_batches items size) ≡ items)
        × All (IsBatch (batch_step size (length items))) (chunk_batches items size)
  unfolding chunk_batches
  chunk_batches_lem items size =
      batches_from_lem (length items) (batch_step size (length items)) items (omega arith)
        (ground arith)

abbrev pub HasDim {ℓ} : {A : Type ℓ} → ℕ → Option (List A) → Type 0
HasDim dim none = ⊥
HasDim dim (some v) = length v ≡ dim

module _ {ℓ} {A : Type ℓ} where
  assert_dim_from_iff :
      (i : ℕ) (vs : List (Option (List A))) (dim : ℕ)
      → (assert_dim_from i vs dim ≡ none) ↔ All (HasDim dim) vs
  unfolding assert_dim_from
  assert_dim_from_iff i [] dim = ground arith
  assert_dim_from_iff i (none ∷ vs) dim = ground arith
  assert_dim_from_iff i (some v ∷ vs) dim = ground (arith, assert_dim_from_iff (i + 1) vs dim)

  -- `assertDim` passes exactly when each answer is a vector of the expected length.
  assert_dim_iff :
      (vs : List (Option (List A))) (dim : ℕ) → (assert_dim vs dim ≡ none) ↔ All (HasDim dim) vs
  unfolding assert_dim
  assert_dim_iff vs dim = assert_dim_from_iff 0 vs dim
