-- ===== src/Chunker/Splitting/Leaves.antt =====
-- How large a leaf can be.
use persistent_memory_stack.Prelude.{
  All, All-append, Bool, Bool-cases, List, [], arith, false, if◌then◌else◌, inl, inr, leb, leb→le,
  length, ltb, not, refl, true, ℕ, ◌*◌, ◌++◌, ◌∷◌, ◌≡◌, ◌≤◌, ◌⊎◌,
}
use persistent_memory_stack.Prelude.Text.{Text}
use persistent_memory_stack.Embedding.Batch.Laws.{IsBatch, batches_from_lem}
use persistent_memory_stack.Chunker.Splitting.{
  flat_map, hard_slice, is_full, nonempty_parts, recursive_split, suffix_of,
}

module _ (count : Text → ℕ) (max_tokens : ℕ) where
  -- Within the bound on tokens, or a slice of at most four code units for each token.
  abbrev pub IsLeaf : Text → Type 0
  IsLeaf leaf = (count leaf ≤ max_tokens) ⊎ (length leaf ≤ max_tokens * 4)

  hard_slice-IsLeaf : (text : Text) → 1 ≤ max_tokens → All IsLeaf (hard_slice text max_tokens)
  unfolding hard_slice
  hard_slice-IsLeaf text positive =
      weaken _ (batches_from_lem (length text) (max_tokens * 4) text (omega arith) (omega arith)).1
    where
      weaken : (ts : List Text) → All (IsBatch (max_tokens * 4)) ts → All IsLeaf ts
      weaken [] h = tt
      weaken (t ∷ ts) (b, h) = (inr (b.1), weaken ts h)

  -- Each leaf is within the bound on tokens, or is a slice of at most four code units for each token
  -- of the bound, which must be positive.
  pub recursive_split-IsLeaf :
      (seps : List Text) (text : Text)
      → 1 ≤ max_tokens
      → All IsLeaf (recursive_split count max_tokens seps text)
  unfolding recursive_split
  recursive_split-IsLeaf [] text positive = elim (Bool-cases (leb (count text) max_tokens)) [
    | inl e ↦ rw (e, recursive_split) (inl (leb→le _ _ e), tt)
    | inr e ↦ rw (e, recursive_split) (hard_slice-IsLeaf text positive)
  ]
  recursive_split-IsLeaf (sep ∷ seps) text positive =
      choose (leb (count text) max_tokens) (not (is_full sep))
        (ltb (length (nonempty_parts sep text)) 2) _ _ refl
        (recursive_split-IsLeaf seps text positive)
        (each _ (nonempty_parts sep text)
          (λ p. recursive_split-IsLeaf seps (p ++ suffix_of sep) positive))
    where
      choose :
          (short last few : Bool) (next split : List Text)
          → leb (count text) max_tokens ≡ short
          → All IsLeaf next
          → All IsLeaf split
          → All IsLeaf (
              if short
              then text ∷ []
              else if last
              then hard_slice text max_tokens
              else if few
              then next
              else split)
      choose true last few next split e h k = (inl (leb→le _ _ e), tt)
      choose false true few next split e h k = hard_slice-IsLeaf text positive
      choose false false true next split e h k = h
      choose false false false next split e h k = k

      each :
          (f : Text → List Text) (ps : List Text)
          → ((p : Text) → All IsLeaf (f p))
          → All IsLeaf (flat_map f ps)
      each f [] h = tt
      each f (p ∷ ps) h = All-append IsLeaf (f p) (flat_map f ps) (h p) (each f ps h)
