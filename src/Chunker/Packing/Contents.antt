-- ===== src/Chunker/Packing/Contents.antt =====
-- What every chunk has.
use persistent_memory_stack.Prelude.{
  All, All-append, Bool, Bool-cases, List, [], ap, false, if◌then◌else◌, inl, inr, ltb, refl, true,
  ℕ, ◌&&◌, ◌++◌, ◌+◌, ◌∙◌, ◌∷◌, ◌≡◌,
}
use persistent_memory_stack.Prelude.Text.{Text, is_blank, is_space}
use persistent_memory_stack.Chunker.Splitting.{is_full}
use persistent_memory_stack.Chunker.Packing.{
  Chunk, ChunkOptions, Packed, PageSpan, Piece, add_leaf, add_leaves, chunk_text, finish, flush,
  merge_tail, merged, number_chunks, packed_chunks, rejoin, trim, trim_end, trim_start,
}

-- Something other than white space.
abbrev IsSolid : Text → Type 0
IsSolid s = is_blank s ≡ false

is_blank-rejoin : (c : ℕ) (s : Text) → is_blank (rejoin c s) ≡ is_blank (c ∷ s)
unfolding is_blank
is_blank-rejoin c (d ∷ s) = refl
is_blank-rejoin c [] = by_space (is_space c) refl
  where
    by_space : (b : Bool) → is_space c ≡ b → is_blank (if b then [] else c ∷ []) ≡ (b && true)
    by_space true e = refl
    by_space false e = ap (λ x. x && true) e

is_blank-trim_end : (s : Text) → is_blank (trim_end s) ≡ is_blank s
unfolding is_blank trim_end
is_blank-trim_end [] = refl
is_blank-trim_end (c ∷ s) =
    is_blank-rejoin c (trim_end s) ∙ ap (λ b. is_space c && b) (is_blank-trim_end s)

is_blank-trim_start : (s : Text) → is_blank (trim_start s) ≡ is_blank s
unfolding is_blank trim_start
is_blank-trim_start [] = refl
is_blank-trim_start (c ∷ s) = by_space (is_space c) refl (is_blank-trim_start s)
  where
    by_space :
        (b : Bool)
        → is_space c ≡ b
        → is_blank (trim_start s) ≡ is_blank s
        → is_blank (if b then trim_start s else c ∷ s) ≡ (b && is_blank s)
    by_space true e h = h
    by_space false e h = ap (λ x. x && is_blank s) e

trim-IsSolid : (s : Text) → IsSolid s → IsSolid (trim s)
unfolding trim
trim-IsSolid s h = is_blank-trim_end (trim_start s) ∙ is_blank-trim_start s ∙ h

append-IsSolid : (s t : Text) → IsSolid s → IsSolid (s ++ t)
unfolding is_blank
append-IsSolid [] t h = cc
append-IsSolid (c ∷ s) t h = by_space (is_space c) h (append-IsSolid s t)
  where
    by_space :
        (b : Bool)
        → (b && is_blank s) ≡ false
        → (is_blank s ≡ false → is_blank (s ++ t) ≡ false)
        → (b && is_blank (s ++ t)) ≡ false
    by_space true h k = k h
    by_space false h k = refl

abbrev HasContent : Piece → Type 0
HasContent p = IsSolid p.content

module _ (count : Text → ℕ) where
  flush-HasContent :
      (overlap : ℕ) (p : Packed)
      → All HasContent p.chunks
      → All HasContent (flush count overlap p).chunks
  unfolding flush
  flush-HasContent overlap p h = elim (Bool-cases (is_blank p.cur)) [
    | inl e ↦ rw (e, flush) h
    | inr e ↦ rw (e, flush) (All-append HasContent p.chunks _ h (trim-IsSolid p.cur e, tt))
  ]

  add_leaves-HasContent :
      (o : ChunkOptions) (p : Packed) (leaves : List Text)
      → All HasContent p.chunks
      → All HasContent (add_leaves count o p leaves).chunks
  unfolding add_leaves add_leaf
  add_leaves-HasContent o p [] h = h
  add_leaves-HasContent o p (leaf ∷ leaves) h =
      add_leaves-HasContent o (add_leaf count o p leaf) leaves
        (by_size (ltb o.max_tokens (p.cur_tok + count leaf) && is_full p.cur))
    where
      by_size : (b : Bool) → All HasContent (if b then flush count o.overlap_tokens p else p).chunks
      by_size true = flush-HasContent o.overlap_tokens p h
      by_size false = h

  finish-HasContent : (p : Packed) → All HasContent p.chunks → All HasContent (finish count p)
  unfolding finish
  finish-HasContent p h = elim (Bool-cases (is_blank p.cur)) [
    | inl e ↦ rw (e, finish) h
    | inr e ↦ rw (e, finish) (All-append HasContent p.chunks _ h (trim-IsSolid p.cur e, tt))
  ]

  merge_tail-HasContent :
      (least : ℕ) (ps : List Piece) → All HasContent ps → All HasContent (merge_tail count least ps)
  unfolding merge_tail
  merge_tail-HasContent least [] h = h
  merge_tail-HasContent least (p ∷ []) h = h
  merge_tail-HasContent least (p ∷ q ∷ []) (h, k) = by_size (ltb q.token_count least)
    where
      by_size : (b : Bool) → All HasContent (if b then merged count p q ∷ [] else p ∷ q ∷ [])
      by_size true = (append-IsSolid p.content (10 ∷ q.content) h, tt)
      by_size false = (h, k)
  merge_tail-HasContent least (p ∷ q ∷ r ∷ more) (h, k) =
      (h, merge_tail-HasContent least (q ∷ r ∷ more) k)

  -- Numbered from one ordinal on, each with a content.
  pub IsNumbered : ℕ → List Chunk → Type 0
  IsNumbered n [] = Unit
  IsNumbered n (c ∷ cs) = (c.ordinal ≡ n) × (IsSolid c.content × IsNumbered (n + 1) cs)

  number_chunks-IsNumbered :
      (text : Text) (pages : List PageSpan) (n cursor : ℕ) (ps : List Piece)
      → All HasContent ps
      → IsNumbered n (number_chunks count text pages n cursor ps)
  unfolding IsNumbered number_chunks
  number_chunks-IsNumbered text pages n cursor [] h = tt
  number_chunks-IsNumbered text pages n cursor (p ∷ ps) (h, k) =
      (refl, (h, number_chunks-IsNumbered text pages (n + 1) _ ps k))

  -- The chunks are numbered from 0 in their order, and none of them is empty or only white space,
  -- whatever the text, the tokenizer and the options.
  pub chunk_text-IsNumbered :
      (text : Text) (markdown : Bool) (pages : List PageSpan) (o : ChunkOptions)
      → IsNumbered 0 (chunk_text count text markdown pages o)
  unfolding chunk_text packed_chunks
  chunk_text-IsNumbered text markdown pages o =
      number_chunks-IsNumbered text pages 0 0 _ (
        merge_tail-HasContent o.min_tokens _ (finish-HasContent _ (add_leaves-HasContent o _ _ tt)))
