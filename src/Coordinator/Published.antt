-- ===== src/Coordinator/Published.antt =====
-- The releases that an update needs, from apps/update-coordinator/src/index.ts: their pins, and the
-- contracts that are loaded from the pinned tags and from a trusted branch.
pub mod Queue
pub mod Closure
pub mod Ends
use persistent_memory_stack.Prelude.Text.{Text, codes, text_eq}
use persistent_memory_stack.Prelude.Result.{Result, err, ok, require, ◌>>=◌, ◌>>◌}
use persistent_memory_stack.Prelude.{
  Bool, List, Option, [], false, if◌then◌else◌, is_some, length, ltb, none, not, some, suc, zero, ℕ,
  ◌&&◌, ◌++◌, ◌∷◌,
}
use persistent_memory_stack.Prelude.Assoc.{insert, lookup}
use persistent_memory_stack.Json.{Json, arr, elems, field, obj, str}
use persistent_memory_stack.Upgrade.Contract.{Contract}
use persistent_memory_stack.Upgrade.Lines.{validate_each, versions_of}
use persistent_memory_stack.Upgrade.Version.{UpgradeError}
use persistent_memory_stack.Coordinator.{
  CoordinatorError, fetch_failed, has_text, invalid_contract, invalid_selection, invalid_stop,
  is_commit, is_release_version, out_of_fuel, same_text, tag_changed, tag_mismatch, thrown,
  timed_out, too_many_releases, upgrade, wrong_version,
}

pub record PublishedReleasePin : Type 0 where
  pub tag : Text
  pub version : Text
  pub commit : Text

-- What git, GitHub and the clock answer, or the message of what they throw. `fetch` gives the commit that a tag was fetched at, or
-- `none` where git fails; `aborted` is asked before each release, by the number of those loaded.
pub record Sources : Type 0 where
  pub resolve : Text → Result Text PublishedReleasePin
  pub fetch : Text → Option Text
  pub package_at : Text → Option Json
  pub contract_at : Text → Result Text Json
  pub aborted : ℕ → Bool

unfoldable pub version_field : Option Json → Option Text
unfolding is_release_version
version_field (some (str version)) = if is_release_version version then some version else none
version_field _ = none

unfoldable pub version_from_durable_state : Json → Option Text
unfolding version_field
version_from_durable_state (obj ps) = version_field (field (codes "version") ps)
version_from_durable_state _ = none

is_text : Text → Option Json → Bool
is_text line (some (str s)) = text_eq s line
is_text line _ = false

unfoldable pub has_release_line : Json → Text → Text → Bool
unfolding is_text
has_release_line (obj ps) line key = not (text_eq line []) && is_text line (field key ps)
has_release_line _ line key = false

unfoldable pub valid_published_pin : PublishedReleasePin → Bool
unfolding is_release_version is_commit
valid_published_pin release =
    is_release_version release.version
    && text_eq release.tag (codes "v" ++ release.version)
    && is_commit release.commit

package_version : Text → Option Json → Option Text
unfolding has_release_line version_from_durable_state
package_version line none = none
package_version line (some package_json) =
    if has_release_line package_json line (codes "persistentMemoryReleaseLine")
    then version_from_durable_state package_json
    else none

-- The array `requiredStops` of a contract that has not been validated yet.
stops_field : Option Json → Option (List Json)
stops_field (some (arr stops)) = some (elems stops)
stops_field _ = none

unfoldable pub raw_stops : Json → Option (List Json)
unfolding stops_field
raw_stops (obj ps) = stops_field (field (codes "requiredStops") ps)
raw_stops _ = none

unfoldable pub stop_release : Json → Option Text
unfolding version_field
stop_release (obj ps) = version_field (field (codes "release") ps)
stop_release _ = none

unfoldable pub of_some {ℓ} : {A E : Type ℓ} → E → Option A → Result E A
of_some e none = err e
of_some e (some a) = ok a

unfoldable pub lift_thrown : {A : Type 0} → Result Text A → Result CoordinatorError A
lift_thrown (ok a) = ok a
lift_thrown (err message) = err (thrown message)

unfoldable pub lift_upgrade : {A : Type 0} → Result UpgradeError A → Result CoordinatorError A
lift_upgrade (ok a) = ok a
lift_upgrade (err e) = err (upgrade e)

-- The releases that are loaded, with their contracts as parsed, the set of the versions that were
-- ever queued and the queue.
pub record Loading : Type 0 where
  pub releases : List (Text × PublishedReleasePin)
  pub raw_contracts : List (Text × Json)
  pub queued : List Text
  pub pending : List Text

-- `for (const stop of requiredStops)`
unfoldable pub queue_stops : List Json → Loading → Result CoordinatorError Loading
unfolding stop_release has_text of_some
queue_stops [] st = ok st
queue_stops (raw ∷ stops) st = of_some invalid_stop (stop_release raw) >>= λ stop.
    queue_stops stops (
      if has_text stop st.queued
      then st
      else record st { queued = st.queued ++ stop ∷ []; pending = st.pending ++ stop ∷ [] })

module _ (sources : Sources) (line : Text) where
  unfoldable pub version_at_commit : Text → Option Text
  unfolding package_version
  version_at_commit commit = package_version line (sources.package_at commit)

  unfoldable pub fetch_published_release_commit : PublishedReleasePin → Result CoordinatorError Text
  unfolding valid_published_pin version_at_commit same_text of_some
  fetch_published_release_commit release = do
    require (valid_published_pin release) invalid_selection
    fetched ← of_some fetch_failed (sources.fetch release.tag)
    require (text_eq fetched release.commit) tag_changed
    require (same_text (version_at_commit fetched) (some release.version)) tag_mismatch
    ok fetched

  module _ (target : PublishedReleasePin) where
    -- One turn of the loop: the next version of the queue is loaded.
    unfoldable pub load_release : Text → Loading → Result CoordinatorError Loading
    unfolding fetch_published_release_commit raw_stops queue_stops insert of_some lift_thrown
    load_release version st = do
      require (not (sources.aborted (length st.releases))) timed_out
      require (ltb (length st.releases) 25) too_many_releases
      release ←
          if text_eq version target.version
          then ok target
          else lift_thrown (sources.resolve version)
      require (text_eq release.version version) wrong_version
      commit ← fetch_published_release_commit release
      raw ← lift_thrown (sources.contract_at release.commit)
      stops ← of_some invalid_contract (raw_stops raw)
      queue_stops stops (record st {
        releases = insert version release st.releases;
        raw_contracts = insert version raw st.raw_contracts;
      })

    unfoldable pub load_all : ℕ → List Text → Loading → Result CoordinatorError Loading
    unfolding load_release
    load_all fuel [] st = ok st
    load_all zero (version ∷ pending) st = err out_of_fuel
    load_all (suc fuel) (version ∷ pending) st =
        load_release version (record st { pending = pending }) >>= λ next.
        load_all fuel next.pending next

    abbrev pub at_target : Loading
    at_target = record {
      releases = [];
      raw_contracts = [];
      queued = target.version ∷ [];
      pending = target.version ∷ [];
    }

    -- `loadPublishedUpgradeContracts`. A turn adds a release and at most 25 are added, so 25 turns
    -- and the end of the queue are enough fuel.
    unfoldable pub load_published_upgrade_contracts :
        Result CoordinatorError (List (Text × Contract) × List (Text × PublishedReleasePin))
    unfolding load_all validate_each lift_upgrade
    load_published_upgrade_contracts = do
      st ← load_all 26 (target.version ∷ []) at_target
      contracts ← lift_upgrade (validate_each (versions_of st.releases) st.raw_contracts)
      ok (contracts, st.releases)

  -- `loadTrustedUpgradeContracts`, over the commits of the branch with the latest first: the first
  -- commit with a readable contract counts for its version.
  trusted_raw : List Text → List (Text × Json) → List (Text × Json)
  unfolding version_at_commit insert lookup
  trusted_raw [] found = found
  trusted_raw (commit ∷ commits) found = elim (version_at_commit commit) [
    | none ↦ trusted_raw commits found
    | some version ↦ elim (sources.contract_at commit) [
      | err e ↦ trusted_raw commits found
      | ok raw ↦
          trusted_raw commits
            (if is_some (lookup version found) then found else insert version raw found)
    ]
  ]

  unfoldable pub load_trusted_upgrade_contracts :
      List Text → Result CoordinatorError (List (Text × Contract))
  unfolding trusted_raw validate_each lift_upgrade
  load_trusted_upgrade_contracts commits =
      let found = trusted_raw commits [] in lift_upgrade (validate_each (versions_of found) found)
