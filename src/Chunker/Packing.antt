-- ===== src/Chunker/Packing.antt =====
-- `chunkText` with `takeTail` and `pageOf`: the leaves packed into chunks that overlap, the merge of a
-- short last chunk, and the page of each.
pub mod Contents
use persistent_memory_stack.Prelude.{
  Bool, List, Option, [], default_to, drop, false, if◌then◌else◌, leb, ltb, none, some, take, true,
  ℕ, ◌&&◌, ◌++◌, ◌+◌, ◌==◌, ◌||◌, ◌∷◌,
}
use persistent_memory_stack.Prelude.Text.{Text, is_blank, is_space}
use persistent_memory_stack.Chunker.Splitting.{
  is_full, md_separators, recursive_split, starts_with, text_separators,
}

pub trim_start : Text → Text
trim_start [] = []
trim_start (c ∷ s) = if is_space c then trim_start s else c ∷ s

abbrev pub rejoin : ℕ → Text → Text
rejoin c [] = if is_space c then [] else c ∷ []
rejoin c (d ∷ s) = c ∷ d ∷ s

pub trim_end : Text → Text
trim_end [] = []
trim_end (c ∷ s) = rejoin c (trim_end s)

pub trim : Text → Text
trim s = trim_end (trim_start s)

-- `.`, `!` or `?`
abbrev is_stop : ℕ → Bool
is_stop c = c == 46 || c == 33 || c == 63

-- `s.split(/(?<=[.!?])\s+/)`: the first sentence and the others. The flags say whether the last code
-- unit was a stop, and whether the white space after one is being skipped.
sentences : Bool → Bool → Text → Text × List Text
sentences after_stop skipping [] = ([], [])
sentences after_stop skipping (c ∷ s) = elim (is_space c) [
  | true ↦ elim skipping [
    | true ↦ sentences false true s
    | false ↦ elim after_stop [
      | true ↦ let (first, others) = sentences false true s in ([], first ∷ others)
      | false ↦ let (first, others) = sentences false false s in (c ∷ first, others)
    ]
  ]
  | false ↦ let (first, others) = sentences (is_stop c) false s in (c ∷ first, others)
]

reversed : List Text → List Text
reversed [] = []
reversed (t ∷ ts) = reversed ts ++ (t ∷ [])

pub record PageSpan : Type 0 where
  pub page : ℕ
  pub start : ℕ
  pub end_at : ℕ

abbrev last_page : ℕ → List PageSpan → ℕ
last_page p [] = p
last_page p (q ∷ qs) = last_page q.page qs

page_in : ℕ → ℕ → List PageSpan → ℕ
page_in offset last [] = last
page_in offset last (p ∷ ps) =
    let rest = page_in offset last ps in
    if leb p.start offset && ltb offset p.end_at then p.page else rest

unfoldable pub page_of : ℕ → List PageSpan → Option ℕ
unfolding page_in
page_of offset [] = none
page_of offset (p ∷ ps) = some (page_in offset (last_page p.page ps) (p ∷ ps))

pub record Piece : Type 0 where
  pub content : Text
  pub token_count : ℕ

-- What the loop of `chunkText` keeps.
pub record Packed : Type 0 where
  pub chunks : List Piece
  pub cur : Text
  pub cur_tok : ℕ

pub record Chunk : Type 0 where
  pub ordinal : ℕ
  pub content : Text
  pub token_count : ℕ
  pub page : Option ℕ

pub record ChunkOptions : Type 0 where
  pub max_tokens : ℕ
  pub overlap_tokens : ℕ
  pub min_tokens : ℕ

-- `cur ? ' ' + cur : ''`
abbrev spaced : Text → Text
spaced [] = []
spaced (c ∷ s) = 32 ∷ c ∷ s

abbrev separated : Text → Text → Text
separated [] leaf = leaf
separated (c ∷ s) leaf = (c ∷ s) ++ (32 ∷ leaf)

module _ (count : Text → ℕ) where
  -- Over the sentences from the last to the first.
  tail_from : ℕ → List Text → Text → Text
  tail_from overlap [] acc = acc
  tail_from overlap (s ∷ ss) acc =
      let next = s ++ spaced acc in
      let rest = tail_from overlap ss next in
      if ltb overlap (count next) && is_full acc then acc else rest

  take_tail : Text → ℕ → Text
  take_tail s overlap =
      let (first, others) = sentences false false s in
      tail_from overlap (reversed (first ∷ others)) []

  pub flush : ℕ → Packed → Packed
  flush overlap p = if is_blank p.cur then p else record {
    chunks = p.chunks ++ ((record { content = trim p.cur; token_count = p.cur_tok }) ∷ []);
    cur = take_tail p.cur overlap;
    cur_tok = count (take_tail p.cur overlap);
  }

  pub add_leaf : ChunkOptions → Packed → Text → Packed
  add_leaf o p leaf =
      let t = count leaf in
      let q =
        if ltb o.max_tokens (p.cur_tok + t) && is_full p.cur then flush o.overlap_tokens p else p in
      record { chunks = q.chunks; cur = separated q.cur leaf; cur_tok = q.cur_tok + t }

  pub add_leaves : ChunkOptions → Packed → List Text → Packed
  add_leaves o p [] = p
  add_leaves o p (leaf ∷ leaves) = add_leaves o (add_leaf o p leaf) leaves

  -- The chunk that is left over at the end.
  pub finish : Packed → List Piece
  finish p =
      if is_blank p.cur
      then p.chunks
      else p.chunks ++ ((record { content = trim p.cur; token_count = p.cur_tok }) ∷ [])

  abbrev pub merged : Piece → Piece → Piece
  merged prev last = record {
    content = prev.content ++ (10 ∷ last.content);
    token_count = count (prev.content ++ (10 ∷ last.content));
  }

  -- The merge of a last chunk that is too short into the one before it.
  pub merge_tail : ℕ → List Piece → List Piece
  merge_tail least [] = []
  merge_tail least (prev ∷ []) = prev ∷ []
  merge_tail least (prev ∷ last ∷ []) =
      if ltb last.token_count least then merged prev last ∷ [] else prev ∷ last ∷ []
  merge_tail least (first ∷ prev ∷ last ∷ more) = first ∷ merge_tail least (prev ∷ last ∷ more)

  -- `text.indexOf(part, from)`, over what is left of the text from an offset on.
  pub find_from : Text → ℕ → Text → Option ℕ
  find_from part at [] = if is_full part then none else some at
  find_from part at (c ∷ s) =
      let later = find_from part (at + 1) s in if starts_with part (c ∷ s) then some at else later

  pub number_chunks : Text → List PageSpan → ℕ → ℕ → List Piece → List Chunk
  number_chunks text pages ordinal cursor [] = []
  number_chunks text pages ordinal cursor (p ∷ ps) =
      let next = default_to cursor (find_from (take 40 p.content) cursor (drop cursor text)) in
      (record {
        ordinal = ordinal;
        content = p.content;
        token_count = p.token_count;
        page = page_of next pages;
      })
      ∷ number_chunks text pages (ordinal + 1) next ps

  pub packed_chunks : ChunkOptions → List Text → List Piece
  packed_chunks o leaves =
      merge_tail o.min_tokens
        (finish (add_leaves o (record { chunks = []; cur = []; cur_tok = 0 }) leaves))

  -- `markdown` says whether that is the format of the input.
  unfoldable pub chunk_text : Text → Bool → List PageSpan → ChunkOptions → List Chunk
  unfolding packed_chunks number_chunks
  chunk_text text markdown pages o = number_chunks text pages 0 0 (
      packed_chunks o (
        recursive_split count o.max_tokens (if markdown then md_separators else text_separators)
          text))
