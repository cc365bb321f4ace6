-- ===== src/Chunker/Splitting.antt =====
-- `recursiveSplit` and `hardSlice`. The tokenizer is a parameter, which counts the tokens of a text;
-- text is a list of UTF-16 code units.
pub mod Leaves
use persistent_memory_stack.Prelude.{
  Bool, List, [], false, if◌then◌else◌, leb, length, ltb, not, select, suc, true, zero, ℕ, ◌&&◌,
  ◌*◌, ◌++◌, ◌-◌, ◌==◌, ◌∷◌,
}
use persistent_memory_stack.Prelude.Text.{Text, codes, is_blank}
use persistent_memory_stack.Embedding.Batch.{batches_from}

pub starts_with : Text → Text → Bool
starts_with [] s = true
starts_with (c ∷ cs) [] = false
starts_with (c ∷ cs) (d ∷ s) = c == d && starts_with cs s

-- `text.split(sep)`, as the first piece and the others; what is left of a separator is skipped.
unfoldable pub pieces : Text → ℕ → Text → Text × List Text
unfolding starts_with
pieces sep skip [] = ([], [])
pieces sep (suc skip) (c ∷ s) = pieces sep skip s
pieces sep zero (c ∷ s) = elim (starts_with sep (c ∷ s)) [
  | true ↦ let (piece, others) = pieces sep (length sep - 1) s in ([], piece ∷ others)
  | false ↦ let (piece, others) = pieces sep 0 s in (c ∷ piece, others)
]

abbrev pub is_full : Text → Bool
is_full [] = false
is_full (_ ∷ _) = true

-- `text.split(sep).filter(Boolean)`
unfoldable pub nonempty_parts : Text → Text → List Text
nonempty_parts sep text = let (piece, others) = pieces sep 0 text in select is_full (piece ∷ others)

-- `sep.trim() ? sep : ''`
abbrev pub suffix_of : Text → Text
suffix_of sep = if is_blank sep then [] else sep

-- For a positive bound; the source's loop does not end for 0.
unfoldable pub hard_slice : Text → ℕ → List Text
unfolding batches_from
hard_slice text max_tokens = batches_from (length text) (max_tokens * 4) text

abbrev pub flat_map : (Text → List Text) → List Text → List Text
flat_map f [] = []
flat_map f (p ∷ ps) = f p ++ flat_map f ps

module _ (count : Text → ℕ) (max_tokens : ℕ) where
  -- A separator that is not in the text leaves one part, as does one that leaves one part otherwise.
  unfoldable pub recursive_split : List Text → Text → List Text
  recursive_split [] text =
      if leb (count text) max_tokens then text ∷ [] else hard_slice text max_tokens
  recursive_split (sep ∷ seps) text =
      let next = recursive_split seps text in
      let split =
        flat_map (λ p. recursive_split seps (p ++ suffix_of sep)) (nonempty_parts sep text) in
      if leb (count text) max_tokens
      then text ∷ []
      else if not (is_full sep)
      then hard_slice text max_tokens
      else if ltb (length (nonempty_parts sep text)) 2
      then next
      else split

unfoldable pub text_separators : List Text
text_separators =
    (10 ∷ 10 ∷ [])
    ∷ (10 ∷ [])
    ∷ codes ". "
    ∷ codes "! "
    ∷ codes "? "
    ∷ codes "; "
    ∷ codes ", "
    ∷ codes " "
    ∷ []
    ∷ []

unfoldable pub md_separators : List Text
unfolding text_separators
md_separators =
    (10 ∷ codes "# ")
    ∷ (10 ∷ codes "## ")
    ∷ (10 ∷ codes "### ")
    ∷ (10 ∷ codes "#### ")
    ∷ text_separators
