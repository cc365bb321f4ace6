-- ===== src/Tests/Upgrade.antt =====
-- Runs of the definitions of Upgrade, and its theorems at concrete inputs.
use persistent_memory_stack.Prelude.{All, List, [], false, refl, some, true, ◌↔◌, ◌∷◌, ◌≡◌}
use persistent_memory_stack.Prelude.Text.{Text, codes, is_blank, text_eq}
use persistent_memory_stack.Prelude.Int.{pos}
use persistent_memory_stack.Prelude.Result.{ok}
use persistent_memory_stack.Json.{Json, arr, bool, cons, end, field, nil, null, num, obj, prop, str}
use persistent_memory_stack.Upgrade.Version.{
  Version, compare_parsed, compare_versions, match_version, next_patch_version, parse_version,
  print_version, print_ℕ,
}
use persistent_memory_stack.Upgrade.Version.Order.{Precedes}
use persistent_memory_stack.Upgrade.Version.Printing.{match_version-print_version}
use persistent_memory_stack.Upgrade.Range.{
  holds, match_comparison, range_permits_newer, satisfies_comparison, satisfies_range, words,
}
use persistent_memory_stack.Upgrade.Range.Newer.{range_permits_newer_iff}
use persistent_memory_stack.Upgrade.Contract.{Contract, require_version, validate_contract}
use persistent_memory_stack.Upgrade.Contract.Sound.{IsSound, validate_contract-IsSound}
use persistent_memory_stack.Prelude.Assoc.{HasUniqueKeys, insert, lookup}
use persistent_memory_stack.Upgrade.Lines.{ReleaseRecord, validate_release_line, versions_of}
use persistent_memory_stack.Upgrade.Lines.Together.{IsSoundAt, validate_release_line-IsSound}
use persistent_memory_stack.Upgrade.Plan.{contract_for, plan_upgrade_path}
use persistent_memory_stack.Upgrade.Plan.Route.{IsRoute, plan_upgrade_path-IsRoute}
use persistent_memory_stack.Upgrade.Plan.Climb.{AscendsTo, plan_upgrade_path-AscendsTo}

match_version-print_version_example :
    match_version (print_version (record { major = 1; minor = 10; patch = 0 }))
    ≡ some (record { major = 1; minor = 10; patch = 0 })
match_version-print_version_example =
    match_version-print_version (record { major = 1; minor = 10; patch = 0 })

abbrev v2 : Version
v2 = record { major = 2; minor = 0; patch = 0 }

range_permits_newer_iff_example :
    (range_permits_newer (codes ">=1.0.0 <2.0.1") (codes "2.0.0") ≡ ok true) ↔ (
      (s : Text) × (v : Version) × (match_version s ≡ some v)
      × Precedes v2 v
      × (satisfies_range s (codes ">=1.0.0 <2.0.1") ≡ ok true))
unfolding match_version
range_permits_newer_iff_example =
    range_permits_newer_iff (codes ">=1.0.0 <2.0.1") (codes "2.0.0") v2 refl

abbrev pub coordinator_json : Json
coordinator_json =
    obj (prop (codes "minimumVersion") (num (pos 1)) (prop (codes "bootstrap") (bool false) end))

abbrev pub stop_json : Json
stop_json = obj (
    prop (codes "when") (str (codes "<1.2.0")) (
      prop (codes "release") (str (codes "1.2.0"))
        (prop (codes "reason") (str (codes "migration")) end)))

abbrev pub contract_json : Json
contract_json = obj (
    prop (codes "schemaVersion") (num (pos 1)) (
      prop (codes "release") (str (codes "1.3.0")) (
        prop (codes "minimumSupportedSource") (str (codes "1.0.0")) (
          prop (codes "compatibleMajorLine") (num (pos 1)) (
            prop (codes "directFrom") (str (codes ">=1.2.0 <1.3.0")) (
              prop (codes "bridges") (arr nil) (
                prop (codes "requiredStops") (arr (cons stop_json nil))
                  (prop (codes "coordinator") coordinator_json end))))))))

abbrev published : List Text
published = codes "1.2.0" ∷ codes "1.3.0" ∷ []

abbrev pub contract_1_3 : Contract
contract_1_3 = record {
  release = codes "1.3.0";
  minimum_supported_source = codes "1.0.0";
  compatible_major_line = pos 1;
  direct_from = codes ">=1.2.0 <1.3.0";
  bridges = [];
  required_stops =
      (record { when = codes "<1.2.0"; release = codes "1.2.0"; reason = codes "migration" }) ∷ [];
  coordinator = record { minimum_version = pos 1; bootstrap = false };
}

contract_is_valid : validate_contract contract_json (codes "1.3.0") published ≡ ok contract_1_3
unfolding validate_contract next_patch_version print_version print_ℕ field text_eq is_blank words
    match_comparison match_version parse_version compare_parsed compare_versions range_permits_newer
    satisfies_comparison holds satisfies_range
contract_is_valid = refl

validate_contract-IsSound_example : IsSound (codes "1.3.0") published contract_1_3
validate_contract-IsSound_example =
    validate_contract-IsSound contract_json (codes "1.3.0") published contract_1_3 contract_is_valid

abbrev pub contract_1_2 : Contract
contract_1_2 = record contract_1_3 {
  release = codes "1.2.0";
  direct_from = codes ">=1.0.0 <1.2.0";
  required_stops = [];
}

abbrev all_contracts : List (Text × Contract)
all_contracts = (codes "1.2.0", contract_1_2) ∷ (codes "1.3.0", contract_1_3) ∷ []

abbrev stopover : List Text
stopover = codes "1.2.0" ∷ codes "1.3.0" ∷ []

path_is_planned : plan_upgrade_path (codes "1.1.0") contract_1_3 all_contracts ≡ ok stopover
unfolding plan_upgrade_path contract_for text_eq words match_comparison match_version parse_version
    compare_parsed compare_versions satisfies_comparison holds satisfies_range
path_is_planned = refl

plan_upgrade_path-IsRoute_example : IsRoute (codes "1.1.0") contract_1_3 all_contracts stopover
plan_upgrade_path-IsRoute_example =
    plan_upgrade_path-IsRoute (codes "1.1.0") contract_1_3 all_contracts stopover path_is_planned

plan_upgrade_path-AscendsTo_example : AscendsTo (codes "1.3.0") (codes "1.1.0") stopover
plan_upgrade_path-AscendsTo_example =
    plan_upgrade_path-AscendsTo contract_json (codes "1.3.0") published contract_1_3 (codes "1.1.0")
      all_contracts stopover contract_is_valid path_is_planned

abbrev pub contract_json_1_2 : Json
contract_json_1_2 = obj (
    prop (codes "schemaVersion") (num (pos 1)) (
      prop (codes "release") (str (codes "1.2.0")) (
        prop (codes "minimumSupportedSource") (str (codes "1.0.0")) (
          prop (codes "compatibleMajorLine") (num (pos 1)) (
            prop (codes "directFrom") (str (codes ">=1.0.0 <1.2.0")) (
              prop (codes "bridges") (arr nil) (
                prop (codes "requiredStops") (arr nil)
                  (prop (codes "coordinator") coordinator_json end))))))))

abbrev pub package_of : Text → Json
package_of version = obj (
    prop (codes "version") (str version)
      (prop (codes "persistentMemoryReleaseLine") (str (codes "public")) end))

-- The last one repeats a version, and does not count.
abbrev line_records : List ReleaseRecord
line_records =
    record { contract = contract_json_1_2; package_json = package_of (codes "1.2.0") }
    ∷ record { contract = contract_json; package_json = package_of (codes "1.3.0") }
    ∷ record { contract = null; package_json = null }
    ∷ record { contract = null; package_json = package_of (codes "1.2.0") }
    ∷ []

line_is_valid : validate_release_line line_records (codes "public") ≡ ok all_contracts
unfolding validate_release_line require_version lookup insert validate_contract next_patch_version
    print_version print_ℕ field text_eq is_blank words match_comparison match_version parse_version
    compare_parsed compare_versions range_permits_newer satisfies_comparison holds satisfies_range
line_is_valid = refl

validate_release_line-IsSound_example :
    All (IsSoundAt (versions_of all_contracts)) all_contracts × HasUniqueKeys all_contracts
validate_release_line-IsSound_example =
    validate_release_line-IsSound line_records (codes "public") all_contracts line_is_valid
