-- ===== src/Coordinator.antt =====
-- The journal of apps/update-coordinator/src/index.ts: the plan, the state that is saved between
-- hops, and the tests that a saved state has to pass. A saved state is a record, so of
-- `isExecutionState` the tests that are left are those that its type does not imply.
pub mod Releases
pub mod Execute
pub mod Published
pub mod Planning
use persistent_memory_stack.Prelude.Text.{Text, text_eq}
use persistent_memory_stack.Prelude.Result.{Result, require, ◌>>=◌, ◌>>◌}
use persistent_memory_stack.Prelude.{
  Bool, List, Option, [], all, any, false, get_elem?, is_some, leb, length, none, not, some, true,
  ℕ, ◌&&◌, ◌++◌, ◌==◌, ◌||◌, ◌∷◌,
}
use persistent_memory_stack.Prelude.Assoc.{lookup}
use persistent_memory_stack.Upgrade.Version.{UpgradeError, is_digit, split_dots}

-- What the coordinator throws, by the `throw` that makes it; `thrown` is an error of a
-- callback, `upgrade` one of upgrade-contract.ts.
pub data CoordinatorError : Type 0 where
  invalid_pins unreadable_journal invalid_journal pin_changed different_plan : CoordinatorError
  not_a_prefix snapshot_disagrees hops_without_snapshot : CoordinatorError
  complete_disagrees failed_disagrees running_disagrees snapshot_unknown : CoordinatorError
  invalid_selection target_unresolved foreign_package version_differs fetch_failed :
      CoordinatorError
  tag_changed tag_mismatch timed_out too_many_releases wrong_version : CoordinatorError
  invalid_contract invalid_stop version_missing history_missing : CoordinatorError
  deployed_unknown target_differs : CoordinatorError
  out_of_fuel : CoordinatorError
  thrown : Text → CoordinatorError
  upgrade : UpgradeError → CoordinatorError

pub data Status : Type 0 where
  running complete failed : Status

pub data SnapshotStatus : Type 0 where
  snapshot_running snapshot_complete : SnapshotStatus

pub record CoordinatorPlan : Type 0 where
  pub release_line : Option Text
  pub source_version : Text
  pub target_version : Text
  pub path : List Text
  pub target_revision : Option Text
  pub release_commits : Option (List (Text × Text))

pub record CoordinatorExecutionState : Type 0 where
  pub protocol_version : ℕ
  pub release_line : Option Text
  pub source_version : Text
  pub target_version : Text
  pub path : List Text
  pub target_revision : Option Text
  pub release_commits : Option (List (Text × Text))
  pub status : Status
  pub snapshot_status : Option SnapshotStatus
  pub snapshot_at : Option Text
  pub current_hop : Option Text
  pub completed_hops : List Text
  pub failed_hop : Option Text
  pub error : Option Text
  pub updated_at : Text
  pub completed_at : Option Text

-- `0|[1-9]\d*`
is_number : Text → Bool
is_number [] = false
is_number (c ∷ s) = all is_digit (c ∷ s) && (not (c == 48) || text_eq s [])

is_triple : List Text → Bool
is_triple (_ ∷ _ ∷ []) = true
is_triple _ = false

-- `/^(?:0|[1-9]\d*)\.(?:0|[1-9]\d*)\.(?:0|[1-9]\d*)$/u`
unfoldable pub is_release_version : Text → Bool
unfolding is_number is_triple split_dots
is_release_version s =
    let (first, rest) = split_dots s in is_number first && all is_number rest && is_triple rest

is_lower_hex : ℕ → Bool
is_lower_hex c = is_digit c || (leb 97 c && leb c 102)

-- `/^[0-9a-f]{40}$/u`
unfoldable pub is_commit : Text → Bool
unfolding is_lower_hex
is_commit s = length s == 40 && all is_lower_hex s

-- `a === b` of two texts that may be absent.
unfoldable pub same_text : Option Text → Option Text → Bool
same_text none none = true
same_text (some s) (some t) = text_eq s t
same_text none (some _) = false
same_text (some _) none = false

unfoldable pub has_text : Text → List Text → Bool
has_text release completed = any (text_eq release) completed

-- A text that is present and not empty counts as true.
unfoldable pub is_set : Option Text → Bool
is_set none = false
is_set (some []) = false
is_set (some (_ ∷ _)) = true

module _ (path : List Text) (target_version : Text) (target_revision : Option Text) where
  pins_cover : Option (List (Text × Text)) → Bool
  unfolding is_release_version is_commit same_text lookup
  pins_cover none = true
  pins_cover (some pins) =
      all (λ pin. is_release_version pin.0 && is_commit pin.1) pins
      && all (λ version. is_some (lookup version pins)) path
      && same_text (lookup target_version pins) target_revision

unfoldable pub valid_plan_pins : CoordinatorPlan → Bool
unfolding pins_cover
valid_plan_pins plan =
    pins_cover plan.path plan.target_version plan.target_revision plan.release_commits

unfoldable pub is_execution_state : CoordinatorExecutionState → Bool
unfolding pins_cover
is_execution_state state =
    state.protocol_version == 1
    && pins_cover state.path state.target_version state.target_revision state.release_commits

unfoldable pub new_execution_state : Text → CoordinatorPlan → CoordinatorExecutionState
new_execution_state time plan = record {
  protocol_version = 1;
  release_line = plan.release_line;
  source_version = plan.source_version;
  target_version = plan.target_version;
  path = plan.path;
  target_revision = plan.target_revision;
  release_commits = plan.release_commits;
  status = running;
  snapshot_status = none;
  snapshot_at = none;
  current_hop = none;
  completed_hops = [];
  failed_hop = none;
  error = none;
  updated_at = time;
  completed_at = none;
}

-- `path.join('\u0000')`
pub join_null : List Text → Text
join_null [] = []
join_null (s ∷ []) = s
join_null (s ∷ t ∷ rest) = s ++ 0 ∷ join_null (t ∷ rest)

-- Two pins, or lists of them, print the same JSON.
same_entries : List (Text × Text) → List (Text × Text) → Bool
same_entries [] [] = true
same_entries ((k, v) ∷ m) ((j, w) ∷ n) = text_eq k j && text_eq v w && same_entries m n
same_entries _ _ = false

same_pins : Option (List (Text × Text)) → Option (List (Text × Text)) → Bool
unfolding same_entries
same_pins none none = true
same_pins (some m) (some n) = same_entries m n
same_pins _ _ = false

unfoldable pub matches_release_path : CoordinatorExecutionState → CoordinatorPlan → Bool
unfolding same_text join_null
matches_release_path state plan =
    same_text state.release_line plan.release_line
    && text_eq state.source_version plan.source_version
    && text_eq state.target_version plan.target_version
    && text_eq (join_null state.path) (join_null plan.path)

unfoldable pub matches_plan : CoordinatorExecutionState → CoordinatorPlan → Bool
unfolding matches_release_path same_text same_pins
matches_plan state plan =
    matches_release_path state plan
    && same_text state.target_revision plan.target_revision
    && same_pins state.release_commits plan.release_commits

abbrev pub is_failed : Status → Bool
is_failed failed = true
is_failed _ = false

unfoldable pub can_retry_failed_revision : CoordinatorExecutionState → CoordinatorPlan → Bool
unfolding matches_release_path same_text
can_retry_failed_revision state plan =
    is_failed state.status
    && not (is_some state.release_commits)
    && not (is_some plan.release_commits)
    && length state.completed_hops == 0
    && matches_release_path state plan
    && not (same_text state.target_revision plan.target_revision)

unfoldable pub is_ordered_prefix : List Text → List Text → Bool
is_ordered_prefix [] path = true
is_ordered_prefix (release ∷ releases) [] = false
is_ordered_prefix (release ∷ releases) (planned ∷ path) =
    text_eq release planned && is_ordered_prefix releases path

-- The snapshot's status contradicts its checkpoint, of which the first argument tells the presence.
abbrev pub disagrees : Bool → Option SnapshotStatus → Bool
disagrees true (some snapshot_running) = true
disagrees false (some snapshot_complete) = true
disagrees _ _ = false

-- The part of the test that depends on the status, of which `next` is the first unfinished hop.
validate_status :
    CoordinatorExecutionState → List Text → Option Text → Status → Result CoordinatorError Unit
unfolding is_set same_text
validate_status state path next complete =
    require
      (length state.completed_hops == length path
        && not (is_set state.current_hop)
        && not (is_set state.failed_hop))
      complete_disagrees
validate_status state path next failed =
    require (is_set next && same_text state.current_hop next && same_text state.failed_hop next)
      failed_disagrees
validate_status state path next running =
    require (not (is_some state.current_hop) || same_text state.current_hop next) running_disagrees

unfoldable pub validate_recovery_state :
    CoordinatorExecutionState → List Text → Result CoordinatorError Unit
unfolding is_ordered_prefix is_set validate_status
validate_recovery_state state path =
    let completed = state.completed_hops in
    do
      require (is_ordered_prefix completed path) not_a_prefix
      require (not (disagrees (is_set state.snapshot_at) state.snapshot_status)) snapshot_disagrees
      require (length completed == 0 || is_set state.snapshot_at) hops_without_snapshot
      validate_status state path (get_elem? path (length completed)) state.status
