-- ===== src/Worker/Graph.antt =====
-- apps/api/src/services/graph-lifecycle.ts, `buildGraphDeletionPlan` and
-- `assertProjectMovePreservesGraphBoundary`; and apps/worker/src/steps/graph-lifecycle.ts,
-- `replayGraphLifecycleOperations`, in which the calls of the graph service are parameters.
pub mod Deletion
pub mod Replay
use persistent_memory_stack.Prelude.{
  Bool, List, Option, [], any, false, if◌then◌else◌, none, not, some, true, ◌&&◌, ◌++◌, ◌∷◌,
}
use persistent_memory_stack.Prelude.Text.{Text, text_eq}

pub record GraphEpisodeReference : Type 0 where
  pub group_id : Text
  pub episode_id : Text

-- `${item.groupId}\u0000${item.episodeId}`
abbrev pub episode_key : GraphEpisodeReference → Text
episode_key r = r.group_id ++ (0 ∷ r.episode_id)

abbrev pub is_seen : List Text → Text → Bool
is_seen seen key = any (λ k. text_eq k key) seen

dedupe : List Text → List GraphEpisodeReference → List GraphEpisodeReference
dedupe seen [] = []
dedupe seen (r ∷ rs) =
    let without = dedupe seen rs in
    let further = dedupe (episode_key r ∷ seen) rs in
    if is_seen seen (episode_key r) then without else r ∷ further

abbrev pub plus_current :
    List GraphEpisodeReference → Option GraphEpisodeReference → List GraphEpisodeReference
plus_current provenance none = provenance
plus_current provenance (some r) = provenance ++ (r ∷ [])

unfoldable pub build_graph_deletion_plan :
    Option GraphEpisodeReference → List GraphEpisodeReference → List GraphEpisodeReference
unfolding dedupe
build_graph_deletion_plan current provenance = dedupe [] (plus_current provenance current)

-- Whether a subject may be moved; the source throws where this is false.
unfoldable may_move_project : Text → Text → Bool → Bool
may_move_project current next has_history = not (not (text_eq current next) && has_history)

pub record GraphOperationRow : Type 0 where
  pub id : Text
  pub graph_group_id : Text
  pub graph_episode_id : Text

pub record EpisodeImpact : Type 0 where
  pub episode_uuid : Text
  pub is_present : Bool

pub record ReplayResult : Type 0 where
  pub completed_ids : List Text
  pub failed_ids : List Text

-- What the two calls give for a row: nothing where one throws.
abbrev pub still_there : Text → List EpisodeImpact → Bool
still_there episode impacts =
    any
      (λ impact.
        text_eq (EpisodeImpact.episode_uuid impact) episode && EpisodeImpact.is_present impact)
      impacts

module _ (remove : Text → Text → Bool) (impact : Text → Text → Option (List EpisodeImpact)) where
  -- The `try` of a round, which ends normally or not; `remove` says whether the call returns.
  abbrev checked : Text → Option (List EpisodeImpact) → Bool
  checked episode none = false
  checked episode (some impacts) = not (still_there episode impacts)

  abbrev pub succeeds : GraphOperationRow → Bool
  succeeds row =
      remove row.graph_group_id row.graph_episode_id
      && checked row.graph_episode_id (impact row.graph_group_id row.graph_episode_id)

  abbrev add_row : Bool → Text → ReplayResult → ReplayResult
  add_row true id r = record r { completed_ids = id ∷ r.completed_ids }
  add_row false id r = record r { failed_ids = id ∷ r.failed_ids }

  unfoldable pub replay_operations : List GraphOperationRow → ReplayResult
  replay_operations [] = record { completed_ids = []; failed_ids = [] }
  replay_operations (row ∷ rows) = add_row (succeeds row) row.id (replay_operations rows)
