-- ===== src/Coordinator/Execute/Outcome.antt =====
-- What `executeCoordinatorPlan` promises of an update, however often it is interrupted.
use persistent_memory_stack.Prelude.Text.{Text}
use persistent_memory_stack.Prelude.{List, [], append-nil, sym, ◌++◌, ◌≡◌}
use persistent_memory_stack.Coordinator.{CoordinatorExecutionState, CoordinatorPlan, complete}
use persistent_memory_stack.Coordinator.Execute.{Effect, Journal, saved}
use persistent_memory_stack.Coordinator.Execute.Checkpoint.{IsPlan, validate-IsRecoverable}
use persistent_memory_stack.Coordinator.Execute.History.{
  HasRun, IsOrderly, Tells, World, on_consistent,
}
use persistent_memory_stack.Coordinator.Execute.Restarts.{Reaches, Reaches-IsConsistent}

-- Over any number of runs of one plan, each cut off between any two effects, the snapshot is taken
-- at most once, and a hop is run only after a snapshot that succeeded and never after a saved state
-- has called it completed; where the plan's pins are in order, its releases differ and the clock's
-- times are not empty.
pub Reaches-IsOrderly :
    (plan : CoordinatorPlan) (w : World) → IsPlan plan → Reaches plan w → IsOrderly w.log
unfolding IsOrderly
Reaches-IsOrderly plan w good r =
    on_consistent (λ _ log. IsOrderly log) plan w tt (λ s log k. k.orderly)
      (Reaches-IsConsistent plan w good r)

-- What holds of the callbacks' world when the journal calls the update complete.
pub complete-covers :
    (plan : CoordinatorPlan) (s : CoordinatorExecutionState) (log : List Effect)
    → Tells plan s log
    → s.status ≡ complete
    → s.completed_hops ≡ plan.path
complete-covers plan s log k c =
    let facts = validate-IsRecoverable s plan.path k.valid in
    covers plan.path facts.rest (facts.ended c) facts.split
  where
    covers :
        (path rest : List Text)
        → rest ≡ []
        → path ≡ s.completed_hops ++ rest
        → s.completed_hops ≡ path
    covers path rest e h = sym (rw (e, append-nil) at h)

told :
    (plan : CoordinatorPlan) (t : CoordinatorExecutionState) (log : List Effect)
    → Tells plan t log
    → HasRun t.completed_hops log × (t.status ≡ complete → HasRun plan.path log)
told plan t log k = (k.has_run, λ c. rw (complete-covers plan t log k c) at k.has_run)

-- Whenever the journal holds a state, every hop that it calls completed has been run and has
-- succeeded, in this run or an earlier one; and when it calls the update complete, this is every
-- hop of the plan.
pub Reaches-HasRun :
    (plan : CoordinatorPlan) (w : World) (s : CoordinatorExecutionState)
    → IsPlan plan
    → Reaches plan w
    → w.journal ≡ saved s
    → HasRun s.completed_hops w.log × (s.status ≡ complete → HasRun plan.path w.log)
Reaches-HasRun plan w s good r j =
    on_consistent holds plan w (λ j. absurd (cc)) (λ t log k j. here t log k (cc j))
      (Reaches-IsConsistent plan w good r) j
  where
    holds : Journal → List Effect → Type 0
    holds journal log =
        journal ≡ saved s
        → HasRun s.completed_hops log × (s.status ≡ complete → HasRun plan.path log)

    here :
        (t : CoordinatorExecutionState) (log : List Effect)
        → Tells plan t log
        → t ≡ s
        → HasRun s.completed_hops log × (s.status ≡ complete → HasRun plan.path log)
    here t log k e = rw e at (told plan t log k)
