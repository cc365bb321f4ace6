-- ===== src/Coordinator/Execute.antt =====
-- `executeCoordinatorPlan` of apps/update-coordinator/src/index.ts. A run returns, with its result,
-- what it does in order; where the process is killed, a prefix of it has been done.
pub mod Checkpoint
pub mod History
pub mod Steady
pub mod Loading
pub mod Restarts
pub mod Outcome
pub mod Progress
pub mod Refusal
use persistent_memory_stack.Prelude.Text.{Text, text_eq}
use persistent_memory_stack.Prelude.Result.{Result, err, ok, require, ◌>>=◌, ◌>>◌}
use persistent_memory_stack.Prelude.{
  Bool, List, Option, [], all, default_to, false, if◌then◌else◌, none, not, some, true, ◌++◌, ◌∷◌,
}
use persistent_memory_stack.Prelude.Assoc.{lookup}
use persistent_memory_stack.Coordinator.{
  CoordinatorError, CoordinatorExecutionState, CoordinatorPlan, SnapshotStatus, Status,
  can_retry_failed_revision, complete, different_plan, failed, has_text, invalid_journal,
  invalid_pins, is_execution_state, is_set, matches_plan, new_execution_state, pin_changed, running,
  snapshot_complete, snapshot_running, snapshot_unknown, thrown, unreadable_journal,
  valid_plan_pins, validate_recovery_state,
}

-- The file state/hop-progress.json. `unreadable` is a file that cannot be read as JSON.
pub data Journal : Type 0 where
  missing : Journal
  unreadable : Journal
  saved : CoordinatorExecutionState → Journal

-- The callbacks, by the message they throw, and the clock, which is read at most twice between two
-- changes of the state, so its time is a function of the state. `started` is its time at the start.
pub record Outcomes : Type 0 where
  pub now : CoordinatorExecutionState → Text
  pub started : Text
  pub snapshot : Option Text
  pub run_hop : Text → Option Text
  pub on_noop : Option Text

pub data Effect : Type 0 where
  wrote : CoordinatorExecutionState → Effect
  took_snapshot : Option Text → Effect
  ran_hop : Text → Option Text → Effect
  nooped : CoordinatorExecutionState → Effect

pub record Run : Type 0 where
  pub effects : List Effect
  pub result : Result CoordinatorError CoordinatorExecutionState

abbrev pub after_effect : Effect → Run → Run
after_effect effect run = record run { effects = effect ∷ run.effects }

abbrev pub stop : CoordinatorError → Run
stop e = record { effects = []; result = err e }

-- `selected && selected !== commit`
differs : Option Text → Text → Bool
differs none commit = false
differs (some []) commit = false
differs (some (c ∷ s)) commit = not (text_eq (c ∷ s) commit)

pins_kept : List (Text × Text) → Option (List (Text × Text)) → Bool
unfolding differs lookup
pins_kept saved_pins none = true
pins_kept saved_pins (some pins) = all (λ pin. not (differs (lookup pin.0 pins) pin.1)) saved_pins

abbrev pub is_complete : Status → Bool
is_complete complete = true
is_complete _ = false

-- A failed state at a new revision starts again with its snapshot.
unfoldable pub retry : Text → Option Text → CoordinatorExecutionState → CoordinatorExecutionState
retry time revision state = record state {
  target_revision = revision;
  status = running;
  current_hop = none;
  failed_hop = none;
  error = none;
  updated_at = time;
}

recover :
    Outcomes
    → CoordinatorPlan
    → CoordinatorExecutionState
    → Result CoordinatorError CoordinatorExecutionState
unfolding matches_plan can_retry_failed_revision validate_recovery_state retry new_execution_state
recover env plan existing =
    if matches_plan existing plan
    then validate_recovery_state existing plan.path >> ok existing
    else if can_retry_failed_revision existing plan
    then validate_recovery_state existing existing.path
      >> ok (retry (env.now existing) plan.target_revision existing)
    else (require (is_complete existing.status) different_plan
        >> (validate_recovery_state existing existing.path
            >> ok (new_execution_state env.started plan)))

unfoldable pub load_state :
    Outcomes → CoordinatorPlan → Journal → Result CoordinatorError CoordinatorExecutionState
unfolding is_execution_state new_execution_state pins_kept recover
load_state env plan missing = ok (new_execution_state env.started plan)
load_state env plan unreadable = err unreadable_journal
load_state env plan (saved existing) = do
  require (is_execution_state existing) invalid_journal
  require (pins_kept (default_to [] existing.release_commits) plan.release_commits) pin_changed
  recover env plan existing

-- The states that are written, each at a time.
unfoldable pub snapshot_begins : Text → CoordinatorExecutionState → CoordinatorExecutionState
snapshot_begins time state = record state {
  snapshot_status = some snapshot_running;
  status = running;
  updated_at = time;
}

unfoldable pub snapshot_ends : Text → CoordinatorExecutionState → CoordinatorExecutionState
snapshot_ends time state = record state {
  snapshot_at = some time;
  snapshot_status = some snapshot_complete;
  status = running;
  updated_at = time;
}

unfoldable pub hop_begins : Text → Text → CoordinatorExecutionState → CoordinatorExecutionState
hop_begins time release state = record state {
  status = running;
  current_hop = some release;
  failed_hop = none;
  error = none;
  updated_at = time;
}

unfoldable pub hop_fails :
    Text → Text → Text → CoordinatorExecutionState → CoordinatorExecutionState
hop_fails time release message state = record state {
  status = failed;
  failed_hop = some release;
  error = some message;
  updated_at = time;
}

unfoldable pub hop_ends : Text → Text → CoordinatorExecutionState → CoordinatorExecutionState
hop_ends time release state = record state {
  completed_hops = state.completed_hops ++ release ∷ [];
  current_hop = none;
  updated_at = time;
}

unfoldable pub completes : Text → CoordinatorExecutionState → CoordinatorExecutionState
completes time state = record state {
  status = complete;
  current_hop = none;
  failed_hop = none;
  completed_at = some time;
  updated_at = time;
}

abbrev pub is_pending : Option SnapshotStatus → Bool
is_pending (some snapshot_running) = true
is_pending _ = false

module _ (env : Outcomes) where
  -- The loop over the path; the set of the completed hops holds what `completed_hops` does.
  unfoldable pub run_hops : List Text → CoordinatorExecutionState → Run
  unfolding completes has_text hop_begins hop_fails hop_ends
  run_hops [] state =
      let last = completes (env.now state) state in
      record { effects = wrote last ∷ []; result = ok last }
  run_hops (release ∷ path) state =
      let begun = hop_begins (env.now state) release state in
      let time = env.now begun in
      let skipped = run_hops path state in
      let rest = run_hops path (hop_ends time release begun) in
      if has_text release state.completed_hops
      then skipped
      else (after_effect (wrote begun) (
          after_effect (ran_hop release (env.run_hop release)) (elim (env.run_hop release) [
            | some message ↦
                after_effect (wrote (hop_fails time release message begun)) (stop (thrown message))
            | none ↦ after_effect (wrote (hop_ends time release begun)) rest
          ])))

  unfoldable pub take_snapshot : List Text → CoordinatorExecutionState → Run
  unfolding snapshot_begins snapshot_ends run_hops
  take_snapshot path state =
      let begun = snapshot_begins (env.now state) state in
      let ended = snapshot_ends (env.now begun) begun in
      after_effect (wrote begun) (
        after_effect (took_snapshot env.snapshot) (elim env.snapshot [
          | some message ↦ stop (thrown message)
          | none ↦ after_effect (wrote ended) (run_hops path ended)
        ]))

  unfoldable pub proceed : List Text → CoordinatorExecutionState → Run
  unfolding is_set take_snapshot run_hops
  proceed path state =
      if is_complete state.status
      then after_effect (nooped state) (record {
        effects = [];
        result = elim env.on_noop [ some message ↦ err (thrown message) | none ↦ ok state ];
      })
      else if is_set state.snapshot_at
      then run_hops path state
      else if is_pending state.snapshot_status
      then stop snapshot_unknown
      else take_snapshot path state

  after_loading : List Text → Result CoordinatorError CoordinatorExecutionState → Run
  unfolding proceed
  after_loading path (err e) = stop e
  after_loading path (ok state) = proceed path state

  unfoldable pub execute_plan : CoordinatorPlan → Journal → Run
  unfolding valid_plan_pins load_state after_loading
  execute_plan plan journal =
      if valid_plan_pins plan
      then after_loading plan.path (load_state env plan journal)
      else stop invalid_pins
