-- ===== src/Coordinator/Execute/Restarts.antt =====
-- Runs of `executeCoordinatorPlan` for one plan, one after the other, any of them cut off between
-- two effects.
use persistent_memory_stack.Prelude.Result.{ok}
use persistent_memory_stack.Coordinator.Execute.Loading.{execute-loaded, load-saved}
use persistent_memory_stack.Prelude.Text.{Text}
use persistent_memory_stack.Prelude.{
  Elem, List, Option, Option-cases, [], false, inl, inr, is_some, none, on_if, refl, some, true,
  ◌++◌, ◌∷◌, ◌≡◌,
}
use persistent_memory_stack.Coordinator.Releases.{HasDone, HasDone-self}
use persistent_memory_stack.Coordinator.{
  CoordinatorExecutionState, CoordinatorPlan, SnapshotStatus, disagrees, has_text, is_set,
  new_execution_state, snapshot_complete, snapshot_running,
}
use persistent_memory_stack.Coordinator.Execute.{
  Effect, Journal, Outcomes, Run, execute_plan, is_complete, is_pending, load_state, missing,
  nooped, proceed, run_hops, saved, snapshot_begins, snapshot_ends, take_snapshot, took_snapshot,
  unreadable, wrote,
}
use persistent_memory_stack.Coordinator.Execute.Checkpoint.{
  IsPlan, pending-validate, running-validate, validate-IsRecoverable,
}
use persistent_memory_stack.Coordinator.Execute.History.{
  Allowed, IsConsistent, IsOrderly, Tells, Tells-quiet, Tells-wrote, World, apply_effect,
  apply_effects,
}
use persistent_memory_stack.Coordinator.Execute.Steady.{
  Ready, Steady, Steady-front, journaled, run_hops-Steady,
}

first_grows :
    (s t : CoordinatorExecutionState)
    → Elem (wrote t) (wrote s ∷ [])
    → (r : Text) → has_text r t.completed_hops ≡ true
    → has_text r s.completed_hops ≡ true
first_grows s t (inl p) r h = let same : s ≡ t = cc p in rw same h
first_grows s t (inr p) r h = absurd p

module _ (env : Outcomes) (plan : CoordinatorPlan) where
  -- The state of a plan of which nothing is saved.
  unfoldable pub first : CoordinatorExecutionState
  first = new_execution_state env.started plan

  pub first-load : load_state env plan missing ≡ ok first
  unfolding load_state first
  first-load = refl

  pub first-proceed : proceed env plan.path first ≡ take_snapshot env plan.path first
  unfolding proceed first new_execution_state is_set
  first-proceed = refl

module _ (env : Outcomes)
    (clock : (s : CoordinatorExecutionState) → is_set (some (env.now s)) ≡ true)
    (plan : CoordinatorPlan) (good : IsPlan plan) where
  -- The loop passes over the hops that are completed.
  run_hops-done :
      (done rest : List Text) (s : CoordinatorExecutionState)
      → HasDone done s.completed_hops
      → run_hops env (done ++ rest) s ≡ run_hops env rest s
  unfolding HasDone run_hops
  run_hops-done [] rest s h = refl
  run_hops-done (r ∷ done) rest s (p, h) = rw p (run_hops-done done rest s h)

  pub run_hops-resumed :
      (s : CoordinatorExecutionState) (path rest : List Text)
      → path ≡ s.completed_hops ++ rest
      → run_hops env path s ≡ run_hops env rest s
  run_hops-resumed s path rest split =
      rw split (run_hops-done s.completed_hops rest s (HasDone-self s.completed_hops))

  resume-Steady :
      (s : CoordinatorExecutionState) (log : List Effect)
      → Tells plan s log
      → is_set s.snapshot_at ≡ true
      → Steady plan (run_hops env plan.path s).effects (journaled s log)
  resume-Steady s log k v =
      let split = validate-IsRecoverable s plan.path k.valid in
      rw (run_hops-resumed s plan.path split.rest split.split) (
        run_hops-Steady env clock plan good split.rest s log
          (record { left = split.split; verified = (v, rw v at split.agrees); tells = k }))

  begun : CoordinatorExecutionState
  unfolding first
  begun = snapshot_begins (env.now (first env plan)) (first env plan)

  ended : CoordinatorExecutionState
  unfolding begun
  ended = snapshot_ends (env.now begun) begun

  begun-Tells : Tells plan begun (wrote begun ∷ [])
  unfolding begun first new_execution_state snapshot_begins IsOrderly Allowed is_set
  begun-Tells = record {
    of = (refl, refl, refl, refl, refl, refl, refl);
    valid = pending-validate begun plan.path refl refl refl refl refl;
    begun = refl;
    taken = λ h. absurd (cc);
    has_run = tt;
    grows = first_grows begun;
    orderly = (tt, tt);
  }

  took-Tells : (x : Option Text) → Tells plan begun (took_snapshot x ∷ wrote begun ∷ [])
  unfolding Allowed
  took-Tells x =
      Tells-quiet plan begun (wrote begun ∷ []) (took_snapshot x) (λ t h. cc h) alone begun-Tells
    where
      alone : (y : Option Text) → ¬ Elem (took_snapshot y) (wrote begun ∷ [])
      alone y (inl p) = cc p
      alone y (inr p) = p

  ended-Ready :
      Ready env clock plan good plan.path ended
        (wrote ended ∷ took_snapshot none ∷ wrote begun ∷ [])
  unfolding ended begun first new_execution_state snapshot_begins snapshot_ends
  ended-Ready = record {
    left = refl;
    verified = (clock begun, refl);
    tells =
        Tells-wrote plan begun (took_snapshot none ∷ wrote begun ∷ []) ended
          (refl, refl, refl, refl, refl, refl, refl)
          (running-validate ended plan.path (clock begun, refl) refl (inl refl)) refl
          (λ h. inl refl) tt (λ r h. h) (took-Tells none);
  }

  take-Steady :
      Steady plan
        (take_snapshot env plan.path (first env plan)).effects
        (record { journal = missing; log = [] })
  unfolding take_snapshot Steady apply_effect IsConsistent ended begun
  take-Steady = elim (Option-cases env.snapshot) [
    | inl e ↦ rw e (
      refl,
      (
        begun-Tells,
        (took-Tells none, run_hops-Steady env clock plan good plan.path ended _ ended-Ready),
      ),
    )
    | inr (message, e) ↦ rw e (refl, (begun-Tells, took-Tells (some message)))
  ]

  saved-Steady :
      (s : CoordinatorExecutionState) (log : List Effect)
      → Tells plan s log
      → Steady plan (proceed env plan.path s).effects (journaled s log)
  unfolding proceed Steady apply_effect IsConsistent Allowed
  saved-Steady s log k =
      on_if holds (is_complete s.status) _ _
        (λ c. (k, Tells-quiet plan s log (nooped s) (λ t h. cc h) tt k))
        (λ r.
          on_if holds (is_set s.snapshot_at) _ _ (λ v. resume-Steady s log k v)
            (λ v.
              on_if holds (is_pending s.snapshot_status) _ _ (λ p. k)
                (λ p. absurd (
                  not_begun s.snapshot_status k.begun
                    (rw v at (validate-IsRecoverable s plan.path k.valid).agrees) p))))
    where
      holds : Run → Type 0
      holds run = Steady plan run.effects (journaled s log)

      not_begun :
          (x : Option SnapshotStatus)
          → is_some x ≡ true
          → disagrees false x ≡ false
          → is_pending x ≡ false
          → ⊥
      not_begun none b d p = cc b
      not_begun (some snapshot_running) b d p = cc p
      not_begun (some snapshot_complete) b d p = cc d

  execute-Steady :
      (journal : Journal) (log : List Effect)
      → IsConsistent plan (record { journal = journal; log = log })
      → Steady plan
          (execute_plan env plan journal).effects
          (record { journal = journal; log = log })
  unfolding IsConsistent
  execute-Steady missing log h =
      rw (execute-loaded env plan missing (first env plan) good.pins (first-load env plan))
        (rw (first-proceed env plan, h) take-Steady)
  execute-Steady unreadable log h = absurd h
  execute-Steady (saved s) log h =
      rw (execute-loaded env plan (saved s) s good.pins (load-saved plan s h.of env good h.valid))
        (saved-Steady s log h)

-- The worlds that runs of the plan lead to, each run cut off anywhere.
pub data Reaches (plan : CoordinatorPlan) : World → Type 0 where
  untouched : Reaches plan (record { journal = missing; log = [] })
  restarted :
      (env : Outcomes) (front back : List Effect) (w : World)
      → ((s : CoordinatorExecutionState) → is_set (some (env.now s)) ≡ true)
      → Reaches plan w
      → (execute_plan env plan w.journal).effects ≡ front ++ back
      → Reaches plan (apply_effects front w)

pub Reaches-IsConsistent :
    (plan : CoordinatorPlan) (w : World) → IsPlan plan → Reaches plan w → IsConsistent plan w
unfolding IsConsistent
Reaches-IsConsistent plan _ good untouched = refl
Reaches-IsConsistent plan _ good (restarted env front back w clock r split) =
    Steady-front plan front back w (
      rw split at
        (execute-Steady env clock plan good w.journal w.log (Reaches-IsConsistent plan w good r)))
