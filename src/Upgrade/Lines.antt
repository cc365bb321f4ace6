-- ===== src/Upgrade/Lines.antt =====
-- `validateReleaseLineContracts` of upgrade-contract.ts: the packages of one release line, of which
-- the first counts for each version, and the validation of all their contracts together.
pub mod Together
use persistent_memory_stack.Prelude.{
  Bool, List, Option, [], false, if◌then◌else◌, is_some, none, some, ◌∷◌,
}
use persistent_memory_stack.Prelude.Text.{Text, codes, text_eq}
use persistent_memory_stack.Prelude.Result.{Result, ok, ◌>>=◌}
use persistent_memory_stack.Prelude.Assoc.{insert, lookup}
use persistent_memory_stack.Json.{Json, Props, field, obj, str}
use persistent_memory_stack.Upgrade.Version.{UpgradeError}
use persistent_memory_stack.Upgrade.Contract.{Contract, require_version, validate_contract}

pub record ReleaseRecord : Type 0 where
  pub contract : Json
  pub package_json : Json

on_line : Text → Option Json → Bool
on_line line (some (str s)) = text_eq s line
on_line line _ = false

-- The fields of a package that is marked with the line.
marked : Text → Json → Option Props
marked line (obj ps) =
    if on_line line (field (codes "persistentMemoryReleaseLine") ps) then some ps else none
marked line _ = none

select_records :
    Text → List ReleaseRecord → List (Text × Json) → Result UpgradeError (List (Text × Json))
select_records line [] selected = ok selected
select_records line (r ∷ rs) selected = elim (marked line r.package_json) [
  | none ↦ select_records line rs selected
  | some ps ↦ require_version (field (codes "version") ps) >>= λ version.
      select_records line rs
        (if is_some (lookup version selected) then selected else insert version r.contract selected)
]

unfoldable pub validate_each :
    List Text → List (Text × Json) → Result UpgradeError (List (Text × Contract))
validate_each available [] = ok []
validate_each available ((version, raw) ∷ rest) = validate_contract raw version available >>= λ c.
    validate_each available rest >>= λ cs. ok ((version, c) ∷ cs)

abbrev pub versions_of : {A : Type 0} → List (Text × A) → List Text
versions_of [] = []
versions_of ((version, a) ∷ m) = version ∷ versions_of m

unfoldable pub validate_release_line :
    List ReleaseRecord → Text → Result UpgradeError (List (Text × Contract))
unfolding on_line marked select_records validate_each
validate_release_line records line =
    select_records line records [] >>= λ selected. validate_each (versions_of selected) selected
