-- ===== src/Coordinator/Execute/Progress.antt =====
-- How a run of `executeCoordinatorPlan` ends.
use persistent_memory_stack.Coordinator.Execute.Outcome.{complete-covers}
use persistent_memory_stack.Prelude.Text.{Text}
use persistent_memory_stack.Prelude.Result.{Result, err, ok}
use persistent_memory_stack.Prelude.{
  List, Option, Option-cases, [], append-nil, append_assoc, arith, false, inl, inr, none, on_if,
  refl, some, sym, true, ◌++◌, ◌∷◌, ◌≡◌, ◌⊎◌,
}
use persistent_memory_stack.Coordinator.Releases.{IsDistinct, open_hop}
use persistent_memory_stack.Coordinator.{
  CoordinatorError, CoordinatorExecutionState, CoordinatorPlan, SnapshotStatus, Status, complete,
  failed, has_text, is_set, new_execution_state, running, snapshot_running, snapshot_unknown,
  thrown,
}
use persistent_memory_stack.Coordinator.Execute.{
  Effect, Journal, Outcomes, Run, completes, execute_plan, hop_begins, hop_ends, is_complete,
  is_pending, missing, proceed, run_hops, saved, snapshot_begins, snapshot_ends, take_snapshot,
  unreadable,
}
use persistent_memory_stack.Coordinator.Execute.Checkpoint.{IsPlan, validate-IsRecoverable}
use persistent_memory_stack.Coordinator.Execute.History.{Tells, World, last_saved, on_consistent}
use persistent_memory_stack.Coordinator.Execute.Loading.{execute-loaded, load-saved}
use persistent_memory_stack.Coordinator.Execute.Restarts.{
  Reaches, Reaches-IsConsistent, first, first-load, first-proceed, run_hops-resumed,
}

-- The journal says that a snapshot was begun, and not that there is one: it was cut off, or it failed.
pub IsPending : Journal → Type 0
IsPending missing = ⊥
IsPending unreadable = ⊥
IsPending (saved s) = (s.snapshot_status ≡ some snapshot_running) × (is_set s.snapshot_at ≡ false)

-- The ways in which a run that finds this journal ends that its callers must expect.
unfoldable pub IsExpected : Journal → Result CoordinatorError CoordinatorExecutionState → Type 0
IsExpected journal (ok s) = Unit
IsExpected journal (err e) =
    ((e ≡ snapshot_unknown) × IsPending journal) ⊎ ((message : Text) × (e ≡ thrown message))

is_pending-running : (o : Option SnapshotStatus) → is_pending o ≡ true → o ≡ some snapshot_running
is_pending-running o h = ground arith

run_hops-IsExpected :
    (env : Outcomes) (journal : Journal) (path : List Text) (s : CoordinatorExecutionState)
    → IsExpected journal (run_hops env path s).result
unfolding run_hops IsExpected
run_hops-IsExpected env journal [] s = tt
run_hops-IsExpected env journal (r ∷ path) s =
    on_if holds (has_text r s.completed_hops) _ _ (λ _. run_hops-IsExpected env journal path s)
      (λ _. elim (Option-cases (env.run_hop r)) [
        | inl e ↦ rw e (run_hops-IsExpected env journal path _)
        | inr (message, e) ↦ rw e (inr (message, refl))
      ])
  where
    holds : Run → Type 0
    holds run = IsExpected journal run.result

proceed-IsExpected :
    (env : Outcomes) (path : List Text) (s : CoordinatorExecutionState)
    → IsExpected (saved s) (proceed env path s).result
unfolding proceed take_snapshot IsExpected IsPending
proceed-IsExpected env path s =
    on_if holds (is_complete s.status) _ _ (λ _. noop)
      (λ _.
        on_if holds (is_set s.snapshot_at) _ _ (λ _. run_hops-IsExpected env (saved s) path s)
          (λ unset.
            on_if holds (is_pending s.snapshot_status) _ _
              (λ p. inl (refl, (is_pending-running s.snapshot_status p, unset))) (λ _. snapshot)))
  where
    holds : Run → Type 0
    holds run = IsExpected (saved s) run.result

    noop :
        IsExpected
          (saved s)
          (elim env.on_noop [ some message ↦ err (thrown message) | none ↦ ok s ])
    noop = elim (Option-cases env.on_noop) [
      | inl e ↦ rw e tt
      | inr (message, e) ↦ rw e (inr (message, refl))
    ]

    snapshot : IsExpected (saved s) (take_snapshot env path s).result
    snapshot = elim (Option-cases env.snapshot) [
      | inl e ↦ rw e (run_hops-IsExpected env (saved s) path _)
      | inr (message, e) ↦ rw e (inr (message, refl))
    ]

fresh-IsExpected :
    (journal : Journal) (time : Text) (plan : CoordinatorPlan)
    (r : Result CoordinatorError CoordinatorExecutionState)
    → IsExpected (saved (new_execution_state time plan)) r
    → IsExpected journal r
unfolding IsExpected IsPending new_execution_state
fresh-IsExpected journal time plan (ok s) h = tt
fresh-IsExpected journal time plan (err e) (inl (_, (q, _))) = absurd (cc q)
fresh-IsExpected journal time plan (err e) (inr h) = inr h

-- A restart of a plan refuses the journal that its earlier runs have left, wherever they were cut
-- off, in one case only: where the journal says that a snapshot was begun and not that there is one,
-- as after a snapshot that was cut off or that threw. Otherwise a run fails only by what a callback
-- throws.
pub execute_plan-IsExpected :
    (env : Outcomes) (plan : CoordinatorPlan) (w : World)
    → IsPlan plan
    → Reaches plan w
    → IsExpected w.journal (execute_plan env plan w.journal).result
unfolding first new_execution_state
execute_plan-IsExpected env plan w good r =
    on_consistent holds plan w
      (rw (execute-loaded env plan missing _ good.pins (first-load env plan))
        (fresh-IsExpected missing _ plan _ (proceed-IsExpected env plan.path _)))
      (λ s log k.
        rw (execute-loaded env plan (saved s) s good.pins (load-saved plan s k.of env good k.valid))
          (proceed-IsExpected env plan.path s))
      (Reaches-IsConsistent plan w good r)
  where
    holds : Journal → List Effect → Type 0
    holds journal log = IsExpected journal (execute_plan env plan journal).result

-- No callback throws, and the clock's times are not empty.
pub record IsWorking (env : Outcomes) : Type 0 where
  pub clock : (s : CoordinatorExecutionState) → is_set (some (env.now s)) ≡ true
  pub snapshot_works : env.snapshot ≡ none
  pub hops_work : (release : Text) → env.run_hop release ≡ none
  pub noop_works : env.on_noop ≡ none

-- The journal does not hold a snapshot of which the outcome is unknown.
unfoldable pub IsClear : Journal → Type 0
IsClear (saved s) = is_set s.snapshot_at ≡ true
IsClear _ = Unit

-- A run that returns a complete state, which is the one in the journal, with every hop of the path.
unfoldable pub Finishes : List Text → Run → Journal → Type 0
Finishes path run journal =
    (s : CoordinatorExecutionState) × (run.result ≡ ok s)
    × (s.status ≡ complete)
    × (s.completed_hops ≡ path)
    × (last_saved run.effects journal ≡ saved s)

is_complete_lem : (x : Status) → is_complete x ≡ true → x ≡ complete
is_complete_lem running h = absurd (cc)
is_complete_lem complete h = refl
is_complete_lem failed h = absurd (cc)

module _ (env : Outcomes) (works : IsWorking env) where
  run_hops-Finishes :
      (path rest : List Text) (s : CoordinatorExecutionState) (journal : Journal)
      → path ≡ s.completed_hops ++ rest
      → IsDistinct path
      → Finishes path (run_hops env rest s) journal
  unfolding run_hops Finishes last_saved completes hop_ends hop_begins
  run_hops-Finishes path [] s journal split d =
      (completes (env.now s) s, refl, refl, sym (rw append-nil at split), refl)
  run_hops-Finishes path (r ∷ rest) s journal split d =
      rw (open_hop s.completed_hops r rest (rw split at d), works.hops_work r)
        (run_hops-Finishes path rest
          (hop_ends (env.now (hop_begins (env.now s) r s)) r (hop_begins (env.now s) r s)) _
          (rw (split, ← append_assoc s.completed_hops (r ∷ []) rest) refl) d)

  take_snapshot-Finishes :
      (plan : CoordinatorPlan) (journal : Journal)
      → IsDistinct plan.path
      → Finishes plan.path (take_snapshot env plan.path (first env plan)) journal
  unfolding take_snapshot Finishes last_saved snapshot_ends snapshot_begins first
      new_execution_state
  take_snapshot-Finishes plan journal d =
      rw works.snapshot_works (run_hops-Finishes plan.path plan.path _ _ refl d)

  saved-Finishes :
      (plan : CoordinatorPlan) (s : CoordinatorExecutionState) (log : List Effect)
      → IsPlan plan
      → Tells plan s log
      → is_set s.snapshot_at ≡ true
      → Finishes plan.path (proceed env plan.path s) (saved s)
  unfolding proceed Finishes last_saved
  saved-Finishes plan s log good k v =
      on_if holds (is_complete s.status) _ _
        (λ c. (
          s,
          rw works.noop_works refl,
          is_complete_lem s.status c,
          complete-covers plan s log k (is_complete_lem s.status c),
          refl,
        ))
        (λ _.
          on_if holds (is_set s.snapshot_at) _ _
            (λ _.
              let facts = validate-IsRecoverable s plan.path k.valid in
              rw (run_hops-resumed env works.clock plan good s plan.path facts.rest facts.split)
                (run_hops-Finishes plan.path facts.rest s (saved s) facts.split good.distinct))
            (λ n. absurd (cc (n, v))))
    where
      holds : Run → Type 0
      holds run = Finishes plan.path run (saved s)

  -- From wherever earlier runs of the plan were cut off, short of a snapshot under way, a run whose
  -- callbacks work ends, returns a complete state with every hop of the path, and leaves it in the
  -- journal.
  pub execute_plan-Finishes :
      (plan : CoordinatorPlan) (w : World)
      → IsPlan plan
      → Reaches plan w
      → IsClear w.journal
      → Finishes plan.path (execute_plan env plan w.journal) w.journal
  unfolding IsClear
  execute_plan-Finishes plan w good r =
      on_consistent holds plan w
        (λ _.
          rw (execute-loaded env plan missing _ good.pins (first-load env plan))
            (rw (first-proceed env plan) (take_snapshot-Finishes plan missing good.distinct)))
        (λ s log k v.
          rw
            (execute-loaded env plan (saved s) s good.pins
              (load-saved plan s k.of env good k.valid))
            (saved-Finishes plan s log good k v))
        (Reaches-IsConsistent plan w good r)
    where
      holds : Journal → List Effect → Type 0
      holds journal log =
          IsClear journal → Finishes plan.path (execute_plan env plan journal) journal
