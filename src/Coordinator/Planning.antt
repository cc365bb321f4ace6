-- ===== src/Coordinator/Planning.antt =====
-- How apps/update-coordinator/src/index.ts makes a plan: which release is deployed and which is
-- chosen, the planned path, and the pins that `main` adds.
pub mod Runnable
pub mod Pins
pub mod Execution
use persistent_memory_stack.Prelude.Text.{Text, codes, is_space, text_eq}
use persistent_memory_stack.Prelude.Result.{Result, ok, require, ◌>>=◌, ◌>>◌}
use persistent_memory_stack.Prelude.{
  Bool, List, Option, [], default_to, if◌then◌else◌, is_some, leb, map, none, not, or_else, some,
  true, ℕ, ◌&&◌, ◌++◌, ◌==◌, ◌||◌, ◌∷◌,
}
use persistent_memory_stack.Prelude.Assoc.{insert}
use persistent_memory_stack.Json.{Json}
use persistent_memory_stack.Upgrade.Version.{is_digit}
use persistent_memory_stack.Upgrade.Contract.{Contract, validate_contract}
use persistent_memory_stack.Upgrade.Lines.{versions_of}
use persistent_memory_stack.Upgrade.Plan.{plan_upgrade_path}
use persistent_memory_stack.Coordinator.{
  CoordinatorError, CoordinatorPlan, deployed_unknown, foreign_package, history_missing,
  invalid_selection, is_set, same_text, target_differs, target_unresolved, version_differs,
  version_missing,
}
use persistent_memory_stack.Coordinator.Published.{
  PublishedReleasePin, Sources, has_release_line, lift_thrown, lift_upgrade, of_some,
  valid_published_pin, version_from_durable_state,
}

-- The text after a prefix.
after : Text → Text → Option Text
after [] s = some s
after (c ∷ p) [] = none
after (c ∷ p) (d ∷ s) = let rest = after p s in if c == d then rest else none

take_while : (ℕ → Bool) → Text → Text × Text
take_while p [] = ([], [])
take_while p (c ∷ s) =
    let (front, rest) = take_while p s in if p c then (c ∷ front, rest) else ([], c ∷ s)

-- `[0-9A-Za-z_]`
is_word : ℕ → Bool
is_word c = is_digit c || (leb 65 c && leb c 90) || c == 95 || (leb 97 c && leb c 122)

no_word : Text → Bool
unfolding is_word
no_word [] = true
no_word (c ∷ s) = not (is_word c)

-- `[0-9]+` at the front, and then the rest of the pattern on what follows.
some_digits : (Text → Option Text) → Text → Option Text
unfolding take_while
some_digits then_match s =
    let (front, rest) = take_while is_digit s in
    if text_eq front []
    then none
    else elim (then_match rest) [ none ↦ none | some matched ↦ some (front ++ matched) ]

a_dot : (Text → Option Text) → Text → Option Text
a_dot then_match [] = none
a_dot then_match (c ∷ s) = elim (then_match s) [
  | none ↦ none
  | some matched ↦ if c == 46 then some (46 ∷ matched) else none
]

-- `([0-9]+\.[0-9]+\.[0-9]+)\b`
version_here : Text → Option Text
unfolding some_digits a_dot no_word
version_here =
    some_digits
      (a_dot (some_digits (a_dot (some_digits (λ rest. if no_word rest then some [] else none)))))

heading_here : Text → Option Text
unfolding after take_while version_here
heading_here s = elim (after (codes "##") s) [
  | none ↦ none
  | some rest ↦
      let (space, matched) = take_while is_space rest in
      if text_eq space [] then none else version_here matched
]

-- A line ends after each of these.
abbrev is_line_end : ℕ → Bool
is_line_end c = c == 10 || c == 13 || c == 0x2028 || c == 0x2029

-- `/^##\s+([0-9]+\.[0-9]+\.[0-9]+)\b/mu`, the first match; the flag tells whether a line starts.
first_heading : Bool → Text → Option Text
unfolding heading_here
first_heading at_start [] = none
first_heading at_start (c ∷ s) =
    let later = first_heading (is_line_end c) s in
    if at_start then or_else (heading_here (c ∷ s)) later else later

includes : Text → Text → Bool
unfolding after
includes part [] = is_some (after part [])
includes part (c ∷ s) = is_some (after part (c ∷ s)) || includes part s

-- What the live history answers: whether the response is ok, and its text.
pub record History : Type 0 where
  pub response_ok : Bool
  pub text : Text

-- The deployed version in the live history, if it is one of this line.
version_in_history : Text → History → Option Text
unfolding first_heading includes
version_in_history line history =
    let marker = codes "<!-- persistent-memory-release-line: " ++ line ++ codes " -->" in
    if history.response_ok && includes marker history.text
    then first_heading true history.text
    else none

durable_version : Text → Option Json → Option Text
unfolding has_release_line version_from_durable_state
durable_version line none = none
durable_version line (some state) =
    if has_release_line state line (codes "releaseLine")
    then version_from_durable_state state
    else none

-- The durable state comes first, then the live history, whose address the options may leave out;
-- `none` is a file or a request that failed.
unfoldable pub resolve_deployed_version :
    Text → Option Json → Bool → Option History → Result CoordinatorError Text
unfolding durable_version version_in_history of_some
resolve_deployed_version line state has_url history = elim (durable_version line state) [
  | some version ↦ ok version
  | none ↦
      require has_url history_missing
      >> of_some deployed_unknown
          (elim history [ none ↦ none | some answer ↦ version_in_history line answer ])
]

package_target : Text → Json → Result CoordinatorError Text
unfolding has_release_line version_from_durable_state of_some
package_target line package_json =
    require (has_release_line package_json line (codes "persistentMemoryReleaseLine"))
      foreign_package
    >> of_some version_missing (version_from_durable_state package_json)

abbrev plan_for : Text → Text → Text → List Text → CoordinatorPlan
plan_for line source target path = record {
  release_line = some line;
  source_version = source;
  target_version = target;
  path = path;
  target_revision = none;
  release_commits = none;
}

-- `planCoordinatorBootstrap`; the contracts may be left out.
unfoldable pub plan_coordinator_bootstrap :
    Text
    → Json
    → Json
    → Text
    → Option (List (Text × Contract))
    → Result CoordinatorError CoordinatorPlan
unfolding package_target lift_upgrade validate_contract plan_upgrade_path insert
plan_coordinator_bootstrap line raw_contract package_json source given = do
  package_version ← package_target line package_json
  contract ← lift_upgrade (
      validate_contract raw_contract package_version
        (elim given [ none ↦ package_version ∷ [] | some contracts ↦ versions_of contracts ]))
  path ←
      lift_upgrade
        (plan_upgrade_path source contract (insert contract.release contract (default_to [] given)))
  ok (plan_for line source contract.release path)

-- A target without upgrade metadata is one hop.
unfoldable pub plan_legacy_bridge : Text → Json → Text → Result CoordinatorError CoordinatorPlan
unfolding package_target
plan_legacy_bridge line package_json source = do
  target ← package_target line package_json
  ok (plan_for line source target (target ∷ []))

-- The variables that choose the target.
pub record TargetChoice : Type 0 where
  pub release_tag : Option Text
  pub release_version : Option Text
  pub release_commit : Option Text
  pub source_mode : Option Text
  pub target_resolved : Option Text

abbrev chosen_pin : TargetChoice → PublishedReleasePin
chosen_pin choice = record {
  tag = default_to [] choice.release_tag;
  version = default_to [] choice.release_version;
  commit = default_to [] choice.release_commit;
}

abbrev is_legacy : TargetChoice → Bool
is_legacy choice =
    not (is_some choice.source_mode)
    && not (is_set choice.release_tag)
    && not (is_set choice.release_version)
    && not (is_set choice.release_commit)

require_pin : PublishedReleasePin → Result CoordinatorError PublishedReleasePin
unfolding valid_published_pin
require_pin release = require (valid_published_pin release) invalid_selection >> ok release

-- `publishedTargetForCoordinator`: a shell that knows no pins is resolved anew.
unfoldable pub published_target :
    Sources → Text → Json → TargetChoice → Result CoordinatorError PublishedReleasePin
unfolding is_set same_text require_pin version_from_durable_state has_release_line of_some
    lift_thrown
published_target sources line package_json choice =
    let legacy = (do
      require (same_text choice.target_resolved (some (codes "1"))) target_unresolved
      version ← of_some foreign_package (version_from_durable_state package_json)
      require (has_release_line package_json line (codes "persistentMemoryReleaseLine"))
          foreign_package
      release ← lift_thrown (sources.resolve version)
      pin ← require_pin release
      require (text_eq pin.version version) version_differs
      ok pin) in
    if is_legacy choice then legacy else require_pin (chosen_pin choice)

module _ (before : Text → Text → Bool) where
  -- `sort(([a], [b]) => a.localeCompare(b))`, where `before` tells the order of two versions.
  insert_sorted : Text × Text → List (Text × Text) → List (Text × Text)
  insert_sorted entry [] = entry ∷ []
  insert_sorted entry (other ∷ entries) =
      let rest = insert_sorted entry entries in
      if before other.0 entry.0 then other ∷ rest else entry ∷ other ∷ entries

  unfoldable pub sort_pins : List (Text × Text) → List (Text × Text)
  unfolding insert_sorted
  sort_pins [] = []
  sort_pins (entry ∷ entries) = insert_sorted entry (sort_pins entries)

  -- The plan with its revision and its pins, of which the published target has to be one.
  unfoldable pub pin_plan :
      PublishedReleasePin
      → Option Text
      → List (Text × PublishedReleasePin)
      → CoordinatorPlan
      → Result CoordinatorError CoordinatorPlan
  unfolding is_set same_text sort_pins
  pin_plan target revision releases plan = do
    require (text_eq plan.target_version target.version && same_text revision (some target.commit))
        target_differs
    ok (record plan {
      target_revision = if is_set revision then revision else none;
      release_commits = some (sort_pins (map (λ entry. (entry.0, entry.1.commit)) releases));
    })

-- The plan that is executed: an update to the version that is deployed still runs once.
unfoldable pub execution_plan : CoordinatorPlan → CoordinatorPlan
execution_plan plan = record plan {
  path = elim plan.path [ [] ↦ plan.target_version ∷ [] | release ∷ path ↦ release ∷ path ];
}
