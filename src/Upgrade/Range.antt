-- ===== src/Upgrade/Range.antt =====
-- `satisfiesUpgradeRange` and `rangePermitsVersionNewerThan` of upgrade-contract.ts. A range is
-- text: comparisons between white space, each an operator and a version.
pub mod Values
pub mod Candidates
pub mod Newer
use persistent_memory_stack.Prelude.{
  Bool, List, Option, [], false, if◌then◌else◌, none, not, some, true, ◌==◌, ◌||◌, ◌∷◌,
}
use persistent_memory_stack.Prelude.Text.{Text, is_blank, is_space}
use persistent_memory_stack.Prelude.Int.{ℤ}
use persistent_memory_stack.Prelude.Result.{Result, ok, ◌>>=◌}
use persistent_memory_stack.Upgrade.Version.{
  UpgradeError, Version, compare_versions, is_negative, is_positive, match_version,
  next_patch_version,
}

pub data Operator : Type 0 where
  at_least more_than at_most less_than exactly : Operator

-- `(>=|>|<=|<|=)?`, with what follows it; no operator is `=`.
pub split_operator : Text → Operator × Text
split_operator [] = (exactly, [])
split_operator (c ∷ []) =
    if c == b'>'
    then (more_than, [])
    else if c == b'<'
    then (less_than, [])
    else if c == b'='
    then (exactly, [])
    else (exactly, c ∷ [])
split_operator (c ∷ d ∷ s) =
    if c == b'>'
    then (if d == b'=' then (at_least, s) else (more_than, d ∷ s))
    else if c == b'<'
    then (if d == b'=' then (at_most, s) else (less_than, d ∷ s))
    else if c == b'='
    then (exactly, d ∷ s)
    else (exactly, c ∷ d ∷ s)

pub comparison_of : Operator → Text → Option Version → Option (Operator × Text)
comparison_of op version none = none
comparison_of op version (some v) = some (op, version)

-- `/^(>=|>|<=|<|=)?(\d+\.\d+\.\d+)$/u`: the operator and the text of the version.
unfoldable pub match_comparison : Text → Option (Operator × Text)
unfolding comparison_of split_operator
match_comparison comparison =
    let (op, version) = split_operator comparison in
    comparison_of op version (match_version version)

-- `trim().split(/\s+/u)` without its empty parts. The uses that keep an empty part, of a blank
-- range, match it against the pattern above, which it fails.
words_from : Text → Text × List Text
words_from [] = ([], [])
words_from (c ∷ s) =
    let (word, others) = words_from s in
    if is_space c then ([], if is_blank word then others else word ∷ others) else (c ∷ word, others)

unfoldable pub words : Text → List Text
unfolding words_from is_blank
words range =
    let (word, others) = words_from range in if is_blank word then others else word ∷ others

-- The ladder of `result >= 0`, `result > 0` and so on.
unfoldable pub holds : Operator → ℤ → Bool
holds at_least result = not (is_negative result)
holds more_than result = is_positive result
holds at_most result = not (is_positive result)
holds less_than result = is_negative result
holds exactly result = not (is_positive result || is_negative result)

unfoldable pub satisfies_comparison : Text → Text → Result UpgradeError Bool
satisfies_comparison version comparison = elim (match_comparison comparison) [
  | none ↦ ok false
  | some (op, bound) ↦ compare_versions version bound >>= λ result. ok (holds op result)
]

-- `comparisons.every(...)`, which stops at the first comparison that fails.
pub satisfies_every : Text → List Text → Result UpgradeError Bool
satisfies_every version [] = ok true
satisfies_every version (c ∷ cs) = satisfies_comparison version c >>= λ hit.
    let rest = satisfies_every version cs in if hit then rest else ok false

pub satisfies_nonempty : Text → List Text → Result UpgradeError Bool
satisfies_nonempty version [] = ok false
satisfies_nonempty version (c ∷ cs) = satisfies_every version (c ∷ cs)

unfoldable pub satisfies_range : Text → Text → Result UpgradeError Bool
unfolding satisfies_nonempty satisfies_every
satisfies_range version range = satisfies_nonempty version (words range)

-- The versions that the loop over the comparisons adds to the set of candidates.
pub bound_candidates : List Text → Result UpgradeError (List Text)
bound_candidates [] = ok []
bound_candidates (c ∷ cs) = elim (match_comparison c) [
  | none ↦ bound_candidates cs
  | some (op, bound) ↦ next_patch_version bound >>= λ next.
      bound_candidates cs >>= λ others. ok (bound ∷ next ∷ others)
]

-- `[...candidates].some(...)`; that a set drops repetitions changes no answer.
pub some_newer : Text → Text → List Text → Result UpgradeError Bool
some_newer range target [] = ok false
some_newer range target (c ∷ cs) = compare_versions c target >>= λ result.
    (if is_positive result then satisfies_range c range else ok false) >>= λ newer.
    let rest = some_newer range target cs in if newer then ok true else rest

unfoldable pub range_permits_newer : Text → Text → Result UpgradeError Bool
unfolding bound_candidates some_newer
range_permits_newer range target = do
  next ← next_patch_version target
  others ← bound_candidates (words range)
  some_newer range target (next ∷ others)
