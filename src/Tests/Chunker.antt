-- ===== src/Tests/Chunker.antt =====
-- Runs of the definitions of Chunker, and its theorems at concrete inputs.
use persistent_memory_stack.Prelude.{All, [], arith, false, length, refl, ℕ, ◌++◌, ◌∷◌, ◌≡◌}
use persistent_memory_stack.Prelude.Text.{Text, codes, is_blank}
use persistent_memory_stack.Chunker.Splitting.{
  nonempty_parts, pieces, recursive_split, text_separators,
}
use persistent_memory_stack.Chunker.Splitting.Leaves.{IsLeaf, recursive_split-IsLeaf}
use persistent_memory_stack.Chunker.Packing.{ChunkOptions, chunk_text}
use persistent_memory_stack.Chunker.Packing.Contents.{IsNumbered, chunk_text-IsNumbered}

-- A tokenizer for which each code unit is a token.
abbrev by_unit : Text → ℕ
by_unit s = length s

abbrev short_text : Text
short_text = codes "aa. bb"

-- The separator is put after the last part too, though the text does not end with it.
short_text_split :
    recursive_split by_unit 5 (codes ". " ∷ []) short_text ≡ (codes "aa. " ∷ codes "bb. " ∷ [])
unfolding recursive_split nonempty_parts pieces is_blank
short_text_split = refl

-- The mark of a heading goes to the end of the part before it.
heading_split :
    recursive_split by_unit 6 ((10 ∷ codes "# ") ∷ []) (codes "aa" ++ (10 ∷ codes "# bb"))
    ≡ ((codes "aa" ++ (10 ∷ codes "# ")) ∷ (codes "bb" ++ (10 ∷ codes "# ")) ∷ [])
unfolding recursive_split nonempty_parts pieces is_blank
heading_split = refl

recursive_split-IsLeaf_example :
    All (IsLeaf by_unit 5) (recursive_split by_unit 5 text_separators short_text)
recursive_split-IsLeaf_example =
    recursive_split-IsLeaf by_unit 5 text_separators short_text (omega arith)

abbrev small : ChunkOptions
small = record { max_tokens = 5; overlap_tokens = 1; min_tokens = 1 }

chunk_text-IsNumbered_example : IsNumbered by_unit 0 (chunk_text by_unit short_text false [] small)
chunk_text-IsNumbered_example = chunk_text-IsNumbered by_unit short_text false [] small
