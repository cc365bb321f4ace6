-- ===== src/Upgrade/Plan.antt =====
-- `planUpgradePath` of upgrade-contract.ts. The map of contracts is an association list by release.
pub mod Route
pub mod Climb
use persistent_memory_stack.Prelude.{
  Bool, List, Option, [], false, if◌then◌else◌, is_some, none, not, some, true, ◌++◌, ◌==◌, ◌∷◌,
}
use persistent_memory_stack.Prelude.Text.{Text, text_eq}
use persistent_memory_stack.Prelude.Result.{Result, err, ok, require, ◌>>=◌, ◌>>◌}
use persistent_memory_stack.Upgrade.Version.{
  UpgradeError, below_minimum, bridge_required, compare_versions, downgrade, is_negative,
  is_positive, parse_version, stop_contract_unavailable, stop_does_not_advance, stop_not_direct,
  target_not_direct, target_unavailable,
}
use persistent_memory_stack.Upgrade.Range.{satisfies_range}
use persistent_memory_stack.Upgrade.Contract.{Bridge, Contract, Stop}

unfoldable pub contract_for : Text → List (Text × Contract) → Option Contract
contract_for release [] = none
contract_for release ((r, c) ∷ cs) = if text_eq r release then some c else contract_for release cs

-- One round of the loop over `requiredStops` whose range `current` satisfies.
take_stop : List (Text × Contract) → Text → Stop → Result UpgradeError (Unit {0})
take_stop contracts current stop = elim (contract_for stop.release contracts) [
  | none ↦ err stop_contract_unavailable
  | some contract ↦ do
    result ← compare_versions stop.release current
    require (is_positive result) stop_does_not_advance
    direct ← satisfies_range current contract.direct_from
    require direct stop_not_direct
    ok tt
]

-- The loop: the version that it ends at, and the stops that it pushed on the path.
follow_stops : List (Text × Contract) → Text → List Stop → Result UpgradeError (Text × List Text)
follow_stops contracts current [] = ok (current, [])
follow_stops contracts current (stop ∷ stops) =
    let skip = follow_stops contracts current stops in
    let go_on = follow_stops contracts stop.release stops in
    satisfies_range current stop.when >>= λ needed.
    if needed
    then (take_stop contracts current stop >>= λ _. go_on >>= λ r. ok (r.0, stop.release ∷ r.1))
    else skip

find_bridge : Text → Text → List Bridge → Result UpgradeError Bool
find_bridge current release [] = ok false
find_bridge current release (b ∷ bs) =
    (if text_eq b.to release then satisfies_range current b.from else ok false) >>= λ from.
    (if from then satisfies_range current b.requires else ok false) >>= λ fits.
    let rest = find_bridge current release bs in if fits then ok true else rest

-- The bridge that a change of the major version wants.
cross_major : Text → Contract → Result UpgradeError (Unit {0})
cross_major current target = do
  source ← parse_version current
  destination ← parse_version target.release
  if source.major == destination.major then ok tt else do
    found ← find_bridge current target.release target.bridges
    require found bridge_required
    ok tt

last_hop : Text → Contract → Result UpgradeError (List Text)
last_hop current target = if text_eq current target.release then ok [] else do
  direct ← satisfies_range current target.direct_from
  require direct target_not_direct
  cross_major current target
  ok (target.release ∷ [])

unfoldable pub plan_upgrade_path :
    Text → Contract → List (Text × Contract) → Result UpgradeError (List Text)
unfolding take_stop follow_stops find_bridge cross_major last_hop contract_for
plan_upgrade_path source target contracts = do
  require (is_some (contract_for target.release contracts)) target_unavailable
  ahead ← compare_versions source target.release
  require (not (is_positive ahead)) downgrade
  behind ← compare_versions source target.minimum_supported_source
  require (not (is_negative behind)) below_minimum
  stops ← follow_stops contracts source target.required_stops
  last ← last_hop stops.0 target
  ok (stops.1 ++ last)
