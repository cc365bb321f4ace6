-- ===== src/Tests/Coordinator.antt =====
-- Runs of the definitions of Coordinator, and its theorems at concrete inputs.
use persistent_memory_stack.Prelude.Result.{err}
use persistent_memory_stack.Coordinator.Execute.Outcome.{Reaches-HasRun, Reaches-IsOrderly}
use persistent_memory_stack.Coordinator.Execute.Progress.{
  Finishes, IsClear, IsExpected, IsWorking, execute_plan-Finishes, execute_plan-IsExpected,
}
use persistent_memory_stack.Coordinator.Execute.Refusal.{MayFollow, execute_plan-MayFollow}
use persistent_memory_stack.Prelude.Text.{Text, codes, text_eq}
use persistent_memory_stack.Prelude.{
  List, [], drop, if◌then◌else◌, none, refl, some, sym, take, take-append-drop, true, ◌∷◌, ◌≡◌, ◌⊎◌,
}
use persistent_memory_stack.Prelude.Assoc.{HasUniqueKeys, lookup}
use persistent_memory_stack.Coordinator.{
  CoordinatorExecutionState, CoordinatorPlan, complete, has_text, is_commit, is_execution_state,
  is_ordered_prefix, is_release_version, is_set, matches_plan, matches_release_path,
  new_execution_state, same_text, snapshot_unknown, valid_plan_pins, validate_recovery_state,
}
use persistent_memory_stack.Coordinator.Execute.{
  Effect, Journal, Outcomes, completes, execute_plan, hop_begins, hop_ends, hop_fails, load_state,
  missing, proceed, ran_hop, run_hops, saved, snapshot_begins, snapshot_ends, take_snapshot,
  unreadable,
}
use persistent_memory_stack.Coordinator.Execute.Checkpoint.{IsPlan}
use persistent_memory_stack.Coordinator.Execute.History.{
  HasRun, IsOrderly, World, apply_effect, apply_effects,
}
use persistent_memory_stack.Coordinator.Execute.Restarts.{Reaches, restarted, untouched}

abbrev first_commit : Text
first_commit = codes "00112233445566778899aabbccddeeff00112233"

abbrev second_commit : Text
second_commit = codes "ffeeddccbbaa99887766554433221100ffeeddcc"

-- An update from 1.0.0 to 1.2.0 by way of 1.1.0, both at pinned commits.
abbrev two_hops : CoordinatorPlan
two_hops = record {
  release_line = some (codes "open");
  source_version = codes "1.0.0";
  target_version = codes "1.2.0";
  path = codes "1.1.0" ∷ codes "1.2.0" ∷ [];
  target_revision = some second_commit;
  release_commits = some ((codes "1.1.0", first_commit) ∷ (codes "1.2.0", second_commit) ∷ []);
}

abbrev outage : Outcomes
outage = record {
  now = λ s. codes "now";
  started = codes "start";
  snapshot = none;
  run_hop = λ r. if text_eq r (codes "1.2.0") then some (codes "offline") else none;
  on_noop = none;
}

abbrev working : Outcomes
working = record outage { run_hop = λ r. none }

two_hops-IsPlan : IsPlan two_hops
unfolding valid_plan_pins is_release_version is_commit same_text lookup HasUniqueKeys is_set
    has_text text_eq
two_hops-IsPlan = record {
  pins = refl;
  distinct = (refl, (refl, tt));
  named = (refl, (refl, tt));
  unique = (refl, (refl, tt));
}

abbrev nothing_done : World
nothing_done = record { journal = missing; log = [] }

abbrev failing_run : List Effect
failing_run = (execute_plan outage two_hops missing).effects

-- The process is killed after the first hop has been written down.
abbrev killed : World
killed = apply_effects (take 6 failing_run) nothing_done

killed-Reaches : Reaches two_hops killed
unfolding is_set
killed-Reaches =
    restarted outage (take 6 failing_run) (drop 6 failing_run) nothing_done (λ s. refl) untouched
      (sym (take-append-drop 6 failing_run))

abbrev state_of : Journal → CoordinatorExecutionState
state_of missing = new_execution_state [] two_hops
state_of unreadable = new_execution_state [] two_hops
state_of (saved s) = s

killed-saved : killed.journal ≡ saved (state_of killed.journal)
unfolding execute_plan load_state new_execution_state valid_plan_pins proceed take_snapshot run_hops
    is_set snapshot_begins snapshot_ends hop_begins hop_ends hop_fails completes has_text text_eq
    is_release_version is_commit same_text lookup apply_effects apply_effect
killed-saved = refl

killed_once : (state_of killed.journal).completed_hops ≡ codes "1.1.0" ∷ []
unfolding execute_plan load_state new_execution_state valid_plan_pins proceed take_snapshot run_hops
    is_set snapshot_begins snapshot_ends hop_begins hop_ends hop_fails completes has_text text_eq
    is_release_version is_commit same_text lookup apply_effects apply_effect
killed_once = refl

killed-IsClear : IsClear killed.journal
unfolding IsClear execute_plan load_state new_execution_state valid_plan_pins proceed take_snapshot
    run_hops is_set snapshot_begins snapshot_ends hop_begins hop_ends hop_fails completes has_text
    text_eq is_release_version is_commit same_text lookup apply_effects apply_effect
killed-IsClear = refl

Reaches-IsOrderly_example : IsOrderly killed.log
Reaches-IsOrderly_example = Reaches-IsOrderly two_hops killed two_hops-IsPlan killed-Reaches

Reaches-HasRun_example :
    HasRun (state_of killed.journal).completed_hops killed.log
    × ((state_of killed.journal).status ≡ complete → HasRun two_hops.path killed.log)
Reaches-HasRun_example =
    Reaches-HasRun two_hops killed (state_of killed.journal) two_hops-IsPlan killed-Reaches
      killed-saved

execute_plan-IsExpected_example :
    IsExpected killed.journal (execute_plan outage two_hops killed.journal).result
execute_plan-IsExpected_example =
    execute_plan-IsExpected outage two_hops killed two_hops-IsPlan killed-Reaches

working-IsWorking : IsWorking working
unfolding is_set
working-IsWorking = record {
  clock = λ s. refl;
  snapshot_works = refl;
  hops_work = λ r. refl;
  noop_works = refl;
}

execute_plan-Finishes_example :
    Finishes two_hops.path (execute_plan working two_hops killed.journal) killed.journal
execute_plan-Finishes_example =
    execute_plan-Finishes working working-IsWorking two_hops killed two_hops-IsPlan killed-Reaches
      killed-IsClear

-- Another update, while the first is under way.
abbrev other_plan : CoordinatorPlan
other_plan = record two_hops {
  path = codes "1.2.0" ∷ [];
  release_commits = some ((codes "1.2.0", second_commit) ∷ []);
}

execute_plan-MayFollow_example :
    ((execute_plan working other_plan (saved (state_of killed.journal))).effects ≡ [])
    ⊎ (MayFollow other_plan (state_of killed.journal)
        × (is_execution_state (state_of killed.journal) ≡ true))
execute_plan-MayFollow_example = execute_plan-MayFollow working other_plan (state_of killed.journal)

abbrev hops_of : List Effect → List Text
hops_of [] = []
hops_of (ran_hop r x ∷ log) = r ∷ hops_of log
hops_of (_ ∷ log) = hops_of log

-- The run after the kill runs the second hop only.
resumed_hops : hops_of (execute_plan working two_hops killed.journal).effects ≡ codes "1.2.0" ∷ []
unfolding execute_plan load_state new_execution_state valid_plan_pins proceed take_snapshot run_hops
    is_set snapshot_begins snapshot_ends hop_begins hop_ends hop_fails completes has_text text_eq
    is_release_version is_commit same_text lookup apply_effects apply_effect
resumed_hops = refl

abbrev no_snapshot : Outcomes
no_snapshot = record working { snapshot = some (codes "exit code 1") }

-- A snapshot that throws is taken for one that was interrupted: the next run is refused.
failed_snapshot_blocks :
    (execute_plan working two_hops
      (apply_effects
        (execute_plan no_snapshot two_hops missing).effects
        nothing_done).journal).result
    ≡ err snapshot_unknown
unfolding execute_plan load_state new_execution_state valid_plan_pins proceed take_snapshot run_hops
    is_set snapshot_begins snapshot_ends hop_begins hop_ends hop_fails completes has_text text_eq
    is_release_version is_commit same_text lookup apply_effects apply_effect is_execution_state
    matches_plan matches_release_path validate_recovery_state is_ordered_prefix
failed_snapshot_blocks = refl
