-- ===== src/Coordinator/Execute/History.antt =====
-- What has happened to the journal of `executeCoordinatorPlan` and in what order, over runs of one
-- plan that may each be cut off between two effects.
use persistent_memory_stack.Prelude.Text.{Text}
use persistent_memory_stack.Prelude.Result.{ok}
use persistent_memory_stack.Prelude.{
  All, Elem, List, Option, [], false, inl, inr, is_some, none, sym, true, ◌∷◌, ◌≡◌, ◌≢◌,
}
use persistent_memory_stack.Coordinator.{
  CoordinatorExecutionState, CoordinatorPlan, has_text, is_set, validate_recovery_state,
}
use persistent_memory_stack.Coordinator.Execute.{
  Effect, Journal, missing, ran_hop, saved, took_snapshot, unreadable, wrote,
}
use persistent_memory_stack.Coordinator.Execute.Checkpoint.{IsOf}

-- The journal, and all effects with the latest first.
pub record World : Type 0 where
  pub journal : Journal
  pub log : List Effect

abbrev pub journal_after : Effect → Journal → Journal
journal_after (wrote s) journal = saved s
journal_after _ journal = journal

unfoldable pub apply_effect : Effect → World → World
apply_effect effect w = record { journal = journal_after effect w.journal; log = effect ∷ w.log }

unfoldable pub apply_effects : List Effect → World → World
apply_effects [] w = w
apply_effects (effect ∷ effects) w = apply_effects effects (apply_effect effect w)

-- The journal at the end of a run.
unfoldable pub last_saved : List Effect → Journal → Journal
last_saved [] journal = journal
last_saved (effect ∷ effects) journal = last_saved effects (journal_after effect journal)

-- Every saved state leaves this hop open.
abbrev pub IsOpen : Text → List Effect → Type 0
IsOpen release log =
    (s : CoordinatorExecutionState) → Elem (wrote s) log → has_text release s.completed_hops ≡ false

-- When an effect may follow the earlier ones: one snapshot at most, and a hop only after a snapshot
-- that succeeded and while no saved state has called it completed.
unfoldable pub Allowed : Effect → List Effect → Type 0
Allowed (took_snapshot outcome) log = (x : Option Text) → ¬ Elem (took_snapshot x) log
Allowed (ran_hop release outcome) log = Elem (took_snapshot none) log × IsOpen release log
Allowed _ log = Unit

unfoldable pub IsOrderly : List Effect → Type 0
IsOrderly [] = Unit
IsOrderly (effect ∷ log) = Allowed effect log × IsOrderly log

-- The hops that a state calls completed have been run, and succeeded.
abbrev pub HasRun : List Text → List Effect → Type 0
HasRun releases log = All (λ release. Elem (ran_hop release none) log) releases

-- A saved state of the plan beside what has happened.
pub record Tells (plan : CoordinatorPlan) (s : CoordinatorExecutionState) (log : List Effect)
    : Type 0 where
  pub of : IsOf plan s
  pub valid : validate_recovery_state s plan.path ≡ ok tt
  pub begun : is_some s.snapshot_status ≡ true
  pub taken : is_set s.snapshot_at ≡ true → Elem (took_snapshot none) log
  pub has_run : HasRun s.completed_hops log
  pub grows :
      (t : CoordinatorExecutionState)
      → Elem (wrote t) log
      → (r : Text) → has_text r t.completed_hops ≡ true
      → has_text r s.completed_hops ≡ true
  pub orderly : IsOrderly log

unfoldable pub IsConsistent : CoordinatorPlan → World → Type 0
IsConsistent plan w = elim w.journal [
  | missing ↦ w.log ≡ []
  | unreadable ↦ ⊥
  | saved s ↦ Tells plan s w.log
]

HasRun-later :
    (e : Effect) (log : List Effect) (rs : List Text) → HasRun rs log → HasRun rs (e ∷ log)
HasRun-later e log [] h = tt
HasRun-later e log (r ∷ rs) (p, h) = (inr p, HasRun-later e log rs h)

module _ (plan : CoordinatorPlan) (s : CoordinatorExecutionState) (log : List Effect) where
  -- An effect that writes nothing.
  pub Tells-quiet :
      (e : Effect)
      → ((t : CoordinatorExecutionState) → wrote t ≢ e)
      → Allowed e log
      → Tells plan s log
      → Tells plan s (e ∷ log)
  unfolding IsOrderly
  Tells-quiet e quiet allowed k = record {
    of = k.of;
    valid = k.valid;
    begun = k.begun;
    taken = λ h. inr (k.taken h);
    has_run = HasRun-later e log s.completed_hops k.has_run;
    grows = grow;
    orderly = (allowed, k.orderly);
  }
    where
      grow :
          (t : CoordinatorExecutionState)
          → Elem (wrote t) (e ∷ log)
          → (r : Text) → has_text r t.completed_hops ≡ true
          → has_text r s.completed_hops ≡ true
      grow t (inl p) r h = absurd (quiet t (sym p))
      grow t (inr p) r h = k.grows t p r h

  -- A state that is written over the last one.
  pub Tells-wrote :
      (t : CoordinatorExecutionState)
      → IsOf plan t
      → validate_recovery_state t plan.path ≡ ok tt
      → is_some t.snapshot_status ≡ true
      → (is_set t.snapshot_at ≡ true → Elem (took_snapshot none) log)
      → HasRun t.completed_hops log
      → ((r : Text) → has_text r s.completed_hops ≡ true → has_text r t.completed_hops ≡ true)
      → Tells plan s log
      → Tells plan t (wrote t ∷ log)
  unfolding IsOrderly Allowed
  Tells-wrote t o v b a d g k = record {
    of = o;
    valid = v;
    begun = b;
    taken = λ h. inr (a h);
    has_run = HasRun-later (wrote t) log t.completed_hops d;
    grows = grow;
    orderly = (tt, k.orderly);
  }
    where
      grow :
          (u : CoordinatorExecutionState)
          → Elem (wrote u) (wrote t ∷ log)
          → (r : Text) → has_text r u.completed_hops ≡ true
          → has_text r t.completed_hops ≡ true
      grow u (inl p) r h = let same : t ≡ u = cc p in rw same h
      grow u (inr p) r h = g r (k.grows u p r h)

-- A consistent world, by what its journal is.
pub on_consistent {ℓ} :
    (P : Journal → List Effect → Type ℓ) (plan : CoordinatorPlan) (w : World)
    → P missing []
    → ((s : CoordinatorExecutionState) (log : List Effect) → Tells plan s log → P (saved s) log)
    → IsConsistent plan w
    → P w.journal w.log
unfolding IsConsistent
on_consistent P plan w empty full h = go w.journal w.log h
  where
    go :
        (journal : Journal) (log : List Effect)
        → IsConsistent plan (record { journal = journal; log = log })
        → P journal log
    go missing log h = rw h empty
    go unreadable log h = absurd h
    go (saved s) log h = full s log h
