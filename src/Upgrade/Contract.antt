-- ===== src/Upgrade/Contract.antt =====
-- `validateUpgradeContract` of upgrade-contract.ts, with the helpers that it calls, and the types
-- of a contract. The set of available releases is a list; only `has` is asked of it.
pub mod Sound
use persistent_memory_stack.Prelude.{
  Bool, List, Option, [], all, any, false, if◌then◌else◌, is_some, none, not, some, true, ◌==◌, ◌∷◌,
}
use persistent_memory_stack.Prelude.Text.{Text, codes, is_blank, text_eq}
use persistent_memory_stack.Prelude.Int.{negsuc, pos, ℤ}
use persistent_memory_stack.Prelude.Result.{Result, err, ok, require, ◌>>=◌, ◌>>◌}
use persistent_memory_stack.Json.{Json, Props, arr, bool, elems, field, keys, num, obj, str}
use persistent_memory_stack.Upgrade.Version.{
  UpgradeError, bad_coordinator, bad_major_line, bad_schema_version, bridge_wrong_target,
  compare_versions, invalid_range, is_negative, is_positive, major_line_mismatch,
  minimum_after_release, not_a_string, not_an_object, not_arrays, package_mismatch, parse_version,
  permits_newer, release_unavailable, stop_duplicated, stop_not_earlier, stop_not_later,
  stop_unavailable, unsupported_field,
}
use persistent_memory_stack.Upgrade.Range.{match_comparison, range_permits_newer, words}

pub record Bridge : Type 0 where
  pub from : Text
  pub to : Text
  pub requires : Text
  pub reason : Text

pub record Stop : Type 0 where
  pub when : Text
  pub release : Text
  pub reason : Text

pub record Coordinator : Type 0 where
  pub minimum_version : ℤ
  pub bootstrap : Bool

-- The field `schemaVersion` of the source is always 1.
pub record Contract : Type 0 where
  pub release : Text
  pub minimum_supported_source : Text
  pub compatible_major_line : ℤ
  pub direct_from : Text
  pub bridges : List Bridge
  pub required_stops : List Stop
  pub coordinator : Coordinator

abbrev pub has : List Text → Text → Bool
has names name = any (λ n. text_eq n name) names

-- `isRecord`, with the fields of the record.
is_record : Option Json → Result UpgradeError Props
is_record (some (obj ps)) = ok ps
is_record _ = err not_an_object

reject_unexpected : Props → List Text → Result UpgradeError (Unit {0})
reject_unexpected ps allowed = require (all (has allowed) (keys ps)) unsupported_field

require_string : Option Json → Result UpgradeError Text
require_string (some (str s)) = if is_blank s then err not_a_string else ok s
require_string _ = err not_a_string

require_range : Option Json → Result UpgradeError Text
require_range value = do
  range ← require_string value
  require (all (λ c. is_some (match_comparison c)) (words range)) invalid_range
  ok range

unfoldable pub require_version : Option Json → Result UpgradeError Text
unfolding require_string
require_version value = do
  version ← require_string value
  parsed ← parse_version version
  ok version

require_integer : Option Json → UpgradeError → Result UpgradeError ℤ
require_integer (some (num n)) e = ok n
require_integer _ e = err e

require_bool : Option Json → UpgradeError → Result UpgradeError Bool
require_bool (some (bool b)) e = ok b
require_bool _ e = err e

require_array : Option Json → UpgradeError → Result UpgradeError (List Json)
require_array (some (arr vs)) e = ok (elems vs)
require_array _ e = err e

abbrev same_integer : ℤ → ℤ → Bool
same_integer (pos a) (pos b) = a == b
same_integer (negsuc a) (negsuc b) = a == b
same_integer _ _ = false

require_one : Option Json → Result UpgradeError (Unit {0})
require_one (some (num n)) = require (same_integer n (pos 1)) bad_schema_version
require_one _ = err bad_schema_version

coordinator_of : Option Json → Result UpgradeError Coordinator
coordinator_of (some (obj ps)) = do
  minimum ← require_integer (field (codes "minimumVersion") ps) bad_coordinator
  require (is_positive minimum) bad_coordinator
  bootstrap ← require_bool (field (codes "bootstrap") ps) bad_coordinator
  reject_unexpected ps (codes "minimumVersion" ∷ codes "bootstrap" ∷ [])
  ok (record { minimum_version = minimum; bootstrap = bootstrap })
coordinator_of _ = err bad_coordinator

module _ (available : List Text) (release : Text) where
  bridge_of : Json → Result UpgradeError Bridge
  bridge_of raw = do
    ps ← is_record (some raw)
    reject_unexpected ps (codes "from" ∷ codes "to" ∷ codes "requires" ∷ codes "reason" ∷ [])
    to ← require_version (field (codes "to") ps)
    require (text_eq to release) bridge_wrong_target
    require (has available to) release_unavailable
    from ← require_range (field (codes "from") ps)
    requires ← require_range (field (codes "requires") ps)
    reason ← require_string (field (codes "reason") ps)
    ok (record { from = from; to = to; requires = requires; reason = reason })

  bridges_of : List Json → Result UpgradeError (List Bridge)
  bridges_of [] = ok []
  bridges_of (raw ∷ raws) = bridge_of raw >>= λ b. bridges_of raws >>= λ bs. ok (b ∷ bs)

  -- `previousStop && compareUpgradeVersions(stopRelease, previousStop) <= 0`
  advances_from : Option Text → Text → Result UpgradeError Bool
  advances_from none stop = ok true
  advances_from (some previous) stop =
      compare_versions stop previous >>= λ result. ok (is_positive result)

  stop_of : List Text → Option Text → Json → Result UpgradeError Stop
  stop_of seen previous raw = do
    ps ← is_record (some raw)
    reject_unexpected ps (codes "when" ∷ codes "release" ∷ codes "reason" ∷ [])
    stop ← require_version (field (codes "release") ps)
    result ← compare_versions stop release
    require (is_negative result) stop_not_earlier
    require (has available stop) stop_unavailable
    require (not (has seen stop)) stop_duplicated
    later ← advances_from previous stop
    require later stop_not_later
    range ← require_range (field (codes "when") ps)
    reason ← require_string (field (codes "reason") ps)
    ok (record { when = range; release = stop; reason = reason })

  -- The callback of `map`, with the variables that it changes.
  stops_of : List Text → Option Text → List Json → Result UpgradeError (List Stop)
  stops_of seen previous [] = ok []
  stops_of seen previous (raw ∷ raws) = stop_of seen previous raw >>= λ s.
      stops_of (s.release ∷ seen) (some s.release) raws >>= λ ss. ok (s ∷ ss)

allowed_fields : List Text
allowed_fields =
    codes "schemaVersion"
    ∷ codes "release"
    ∷ codes "minimumSupportedSource"
    ∷ codes "compatibleMajorLine"
    ∷ codes "directFrom"
    ∷ codes "bridges"
    ∷ codes "requiredStops"
    ∷ codes "coordinator"
    ∷ []

unfoldable pub validate_contract : Json → Text → List Text → Result UpgradeError Contract
unfolding is_record reject_unexpected require_string require_range require_version require_integer
    require_bool require_array require_one coordinator_of bridge_of bridges_of advances_from stop_of
    stops_of allowed_fields
validate_contract value package_version available = do
  ps ← is_record (some value)
  reject_unexpected ps allowed_fields
  require_one (field (codes "schemaVersion") ps)
  release ← require_version (field (codes "release") ps)
  minimum ← require_version (field (codes "minimumSupportedSource") ps)
  direct_from ← require_range (field (codes "directFrom") ps)
  result ← compare_versions minimum release
  require (not (is_positive result)) minimum_after_release
  newer ← range_permits_newer direct_from release
  require (not newer) permits_newer
  require (text_eq release package_version) package_mismatch
  require (has available release) release_unavailable
  line ← require_integer (field (codes "compatibleMajorLine") ps) bad_major_line
  parsed ← parse_version release
  require (same_integer (pos parsed.major) line) major_line_mismatch
  raw_bridges ← require_array (field (codes "bridges") ps) not_arrays
  raw_stops ← require_array (field (codes "requiredStops") ps) not_arrays
  coordinator ← coordinator_of (field (codes "coordinator") ps)
  bridges ← bridges_of available release raw_bridges
  stops ← stops_of available release [] none raw_stops
  ok (record {
    release = release;
    minimum_supported_source = minimum;
    compatible_major_line = line;
    direct_from = direct_from;
    bridges = bridges;
    required_stops = stops;
    coordinator = coordinator;
  })
