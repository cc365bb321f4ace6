-- ===== src/Tests/Releases.antt =====
-- Runs of Coordinator.Published and Coordinator.Planning, and their theorems at concrete inputs.
use persistent_memory_stack.Prelude.Text.{Text, codes, is_blank, text_eq}
use persistent_memory_stack.Prelude.Result.{err, ok}
use persistent_memory_stack.Prelude.{
  Bool, List, [], false, if◌then◌else◌, ltb, none, refl, some, true, ◌&&◌, ◌==◌, ◌||◌, ◌∷◌, ◌≡◌,
}
use persistent_memory_stack.Prelude.Assoc.{insert, lookup}
use persistent_memory_stack.Json.{field}
use persistent_memory_stack.Upgrade.Version.{
  compare_parsed, compare_versions, match_version, next_patch_version, parse_version, print_version,
  print_ℕ, split_dots,
}
use persistent_memory_stack.Upgrade.Range.{
  holds, match_comparison, range_permits_newer, satisfies_comparison, satisfies_range, words,
}
use persistent_memory_stack.Upgrade.Contract.{Contract, require_version, validate_contract}
use persistent_memory_stack.Upgrade.Lines.{validate_each}
use persistent_memory_stack.Upgrade.Plan.{contract_for, plan_upgrade_path}
use persistent_memory_stack.Tests.Upgrade.{
  contract_1_2, contract_1_3, contract_json, contract_json_1_2, package_of,
}
use persistent_memory_stack.Coordinator.{
  CoordinatorPlan, has_text, is_commit, is_release_version, is_set, same_text,
}
use persistent_memory_stack.Coordinator.Execute.Checkpoint.{IsPlan}
use persistent_memory_stack.Coordinator.Published.{
  PublishedReleasePin, Sources, fetch_published_release_commit, has_release_line, lift_thrown,
  lift_upgrade, load_all, load_published_upgrade_contracts, load_release, of_some, queue_stops,
  raw_stops, stop_release, valid_published_pin, version_at_commit, version_field,
  version_from_durable_state,
}
use persistent_memory_stack.Coordinator.Published.Closure.{
  IsLoaded, load_published_upgrade_contracts-IsLoaded,
}
use persistent_memory_stack.Coordinator.Published.Ends.{
  IsEnd, load_published_upgrade_contracts-IsEnd,
}
use persistent_memory_stack.Coordinator.Planning.{
  execution_plan, pin_plan, plan_coordinator_bootstrap, sort_pins,
}
use persistent_memory_stack.Coordinator.Planning.Execution.{execution_plan-IsPlan}

abbrev commit_1_2 : Text
commit_1_2 = codes "00112233445566778899aabbccddeeff00112233"

abbrev commit_1_3 : Text
commit_1_3 = codes "ffeeddccbbaa99887766554433221100ffeeddcc"

abbrev pin_1_2 : PublishedReleasePin
pin_1_2 = record { tag = codes "v1.2.0"; version = codes "1.2.0"; commit = commit_1_2 }

abbrev pin_1_3 : PublishedReleasePin
pin_1_3 = record { tag = codes "v1.3.0"; version = codes "1.3.0"; commit = commit_1_3 }

-- A repository with two published releases.
abbrev published_sources : Sources
published_sources = record {
  resolve =
      λ version. if text_eq version (codes "1.2.0") then ok pin_1_2 else err (codes "unknown");
  fetch = λ tag. if text_eq tag (codes "v1.3.0") then some commit_1_3 else some commit_1_2;
  package_at = λ commit.
      if text_eq commit commit_1_3
      then some (package_of (codes "1.3.0"))
      else some (package_of (codes "1.2.0"));
  contract_at =
      λ commit. if text_eq commit commit_1_3 then ok contract_json else ok contract_json_1_2;
  aborted = λ n. false;
}

abbrev loaded_contracts : List (Text × Contract)
loaded_contracts = (codes "1.3.0", contract_1_3) ∷ (codes "1.2.0", contract_1_2) ∷ []

abbrev loaded_releases : List (Text × PublishedReleasePin)
loaded_releases = (codes "1.3.0", pin_1_3) ∷ (codes "1.2.0", pin_1_2) ∷ []

-- The required stop of the target is loaded too.
loads_both :
    load_published_upgrade_contracts published_sources (codes "public") pin_1_3
    ≡ ok (loaded_contracts, loaded_releases)
unfolding load_published_upgrade_contracts load_all load_release validate_each lift_upgrade
    raw_stops stop_release queue_stops fetch_published_release_commit valid_published_pin
    version_at_commit version_field has_release_line version_from_durable_state of_some lift_thrown
    same_text is_release_version is_commit has_text split_dots require_version lookup insert
    validate_contract next_patch_version print_version print_ℕ field text_eq is_blank words
    match_comparison match_version parse_version compare_parsed compare_versions range_permits_newer
    satisfies_comparison holds satisfies_range
loads_both = refl

load_published_upgrade_contracts-IsLoaded_example :
    IsLoaded published_sources (codes "public") pin_1_3 loaded_contracts loaded_releases
load_published_upgrade_contracts-IsLoaded_example =
    load_published_upgrade_contracts-IsLoaded published_sources (codes "public") pin_1_3
      loaded_contracts loaded_releases loads_both

load_published_upgrade_contracts-IsEnd_example :
    IsEnd (load_published_upgrade_contracts published_sources (codes "public") pin_1_3)
load_published_upgrade_contracts-IsEnd_example =
    load_published_upgrade_contracts-IsEnd published_sources (codes "public") pin_1_3

abbrev planned : CoordinatorPlan
planned = record {
  release_line = some (codes "public");
  source_version = codes "1.1.0";
  target_version = codes "1.3.0";
  path = codes "1.2.0" ∷ codes "1.3.0" ∷ [];
  target_revision = none;
  release_commits = none;
}

abbrev is_less : Text → Text → Bool
is_less [] s = true
is_less (c ∷ s) [] = false
is_less (c ∷ s) (d ∷ t) = ltb c d || (c == d && is_less s t)

abbrev pinned : CoordinatorPlan
pinned = record planned {
  target_revision = some commit_1_3;
  release_commits = some ((codes "1.2.0", commit_1_2) ∷ (codes "1.3.0", commit_1_3) ∷ []);
}

plans_both :
    plan_coordinator_bootstrap
      (codes "public")
      contract_json
      (package_of (codes "1.3.0"))
      (codes "1.1.0")
      (some loaded_contracts)
    ≡ ok planned
unfolding plan_coordinator_bootstrap lift_upgrade has_release_line version_from_durable_state
    of_some version_field is_release_version split_dots plan_upgrade_path contract_for insert lookup
    require_version validate_contract next_patch_version print_version print_ℕ field text_eq
    is_blank words match_comparison match_version parse_version compare_parsed compare_versions
    range_permits_newer satisfies_comparison holds satisfies_range
plans_both = refl

pins_both : pin_plan is_less pin_1_3 (some commit_1_3) loaded_releases planned ≡ ok pinned
unfolding pin_plan sort_pins text_eq same_text is_set
pins_both = refl

execution_plan-IsPlan_example : IsPlan (execution_plan pinned)
execution_plan-IsPlan_example =
    execution_plan-IsPlan is_less published_sources (codes "public") pin_1_3 loaded_contracts
      loaded_releases contract_json (package_of (codes "1.3.0")) (codes "1.1.0") (some commit_1_3)
      planned pinned loads_both plans_both pins_both
