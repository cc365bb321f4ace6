-- ===== src/Upgrade/Version.antt =====
-- `parseVersion`, `compareUpgradeVersions` and `nextPatchVersion` of upgrade-contract.ts.
-- A number is a mathematical one: the model is exact below 2^53, where JavaScript's are.

pub mod Printing
pub mod Order
pub mod Values
use persistent_memory_stack.Prelude.{
  Bool, List, Option, [], false, if◌then◌else◌, leb, ltb, none, not, some, suc, true, zero, ℕ, ◌%◌,
  ◌&&◌, ◌*◌, ◌++◌, ◌+◌, ◌-◌, ◌/◌, ◌==◌, ◌∷◌,
}
use persistent_memory_stack.Prelude.Text.{Text}
use persistent_memory_stack.Prelude.Int.{negsuc, pos, sub_ℕ, ℤ}
use persistent_memory_stack.Prelude.Result.{Result, err, ok, ◌>>=◌}

-- What the functions of upgrade-contract.ts throw, by the `throw` that makes it.
pub data UpgradeError : Type 0 where
  invalid_version not_an_object unsupported_field not_a_string invalid_range bad_schema_version :
      UpgradeError
  minimum_after_release permits_newer package_mismatch release_unavailable : UpgradeError
  bad_major_line major_line_mismatch not_arrays bad_coordinator : UpgradeError
  bridge_wrong_target stop_not_earlier stop_unavailable stop_duplicated stop_not_later :
      UpgradeError
  target_unavailable downgrade below_minimum stop_contract_unavailable stop_does_not_advance :
      UpgradeError
  stop_not_direct target_not_direct bridge_required : UpgradeError

pub record Version : Type 0 where
  pub major : ℕ
  pub minor : ℕ
  pub patch : ℕ

abbrev pub is_digit : ℕ → Bool
is_digit c = leb 48 c && leb c 57

pub digits_from : ℕ → Text → Option ℕ
digits_from n [] = some n
digits_from n (c ∷ s) =
    let rest = digits_from (n * 10 + (c - 48)) s in if is_digit c then rest else none

-- `(\d+)`, converted by `Number`.
pub digits : Text → Option ℕ
unfolding digits_from
digits [] = none
digits (c ∷ s) = digits_from 0 (c ∷ s)

-- The parts of a text between its dots.
unfoldable pub split_dots : Text → Text × List Text
split_dots [] = ([], [])
split_dots (c ∷ s) =
    let (part, parts) = split_dots s in if c == 46 then ([], part ∷ parts) else (c ∷ part, parts)

version_of : Option ℕ → Option ℕ → Option ℕ → Option Version
version_of (some a) (some b) (some c) = some (record { major = a; minor = b; patch = c })
version_of _ _ _ = none

version_parts : Text → List Text → Option Version
version_parts a (b ∷ c ∷ []) = version_of (digits a) (digits b) (digits c)
version_parts _ _ = none

-- `/^(\d+)\.(\d+)\.(\d+)$/u`, where no match is `none`.
unfoldable pub match_version : Text → Option Version
unfolding version_parts version_of digits split_dots
match_version value = let (a, rest) = split_dots value in version_parts a rest

unfoldable pub parse_version : Text → Result UpgradeError Version
parse_version value = elim (match_version value) [ none ↦ err invalid_version | some v ↦ ok v ]

-- The loop over `['major', 'minor', 'patch']`: the first difference that is not 0.
unfoldable pub compare_parsed : Version → Version → ℤ
compare_parsed left right =
    if not (left.major == right.major)
    then sub_ℕ left.major right.major
    else if not (left.minor == right.minor)
    then sub_ℕ left.minor right.minor
    else if not (left.patch == right.patch)
    then sub_ℕ left.patch right.patch
    else pos 0

unfoldable pub compare_versions : Text → Text → Result UpgradeError ℤ
compare_versions a b = do
  left ← parse_version a
  right ← parse_version b
  ok (compare_parsed left right)

-- The decimal digits of a number, as a template string prints them; `n` is enough fuel.
unfoldable pub print_from : ℕ → ℕ → Text
print_from zero n = (n + 48) ∷ []
print_from (suc f) n =
    let front = print_from f (n / 10) in
    if ltb n 10 then (n + 48) ∷ [] else front ++ (n % 10 + 48) ∷ []

unfoldable pub print_ℕ : ℕ → Text
unfolding print_from
print_ℕ n = print_from n n

unfoldable pub print_version : Version → Text
unfolding print_ℕ
print_version v = print_ℕ v.major ++ (46 ∷ (print_ℕ v.minor ++ (46 ∷ print_ℕ v.patch)))

abbrev pub next_patch : Version → Version
next_patch v = record v { patch = v.patch + 1 }

unfoldable pub next_patch_version : Text → Result UpgradeError Text
next_patch_version version = do
  parsed ← parse_version version
  ok (print_version (next_patch parsed))

abbrev pub is_positive : ℤ → Bool
is_positive (pos n) = ltb 0 n
is_positive (negsuc n) = false

abbrev pub is_negative : ℤ → Bool
is_negative (pos n) = false
is_negative (negsuc n) = true
