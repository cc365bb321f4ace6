-- ===== src/Coordinator/Execute/Loading.antt =====
-- What `executeCoordinatorPlan` takes over from the journal.
use persistent_memory_stack.Prelude.Text.{Text, text_eq, text_eq_iff, text_eq_refl}
use persistent_memory_stack.Prelude.Result.{ok}
use persistent_memory_stack.Prelude.{
  All, Bool-cases, List, Option, [], all, default_to, false, inl, inr, none, not, refl, some, true,
  ◌∷◌, ◌≡◌,
}
use persistent_memory_stack.Prelude.Assoc.{HasUniqueKeys, lookup}
use persistent_memory_stack.Coordinator.{
  CoordinatorExecutionState, CoordinatorPlan, is_execution_state, join_null, matches_plan,
  matches_release_path, same_entries, same_pins, valid_plan_pins, validate_recovery_state,
}
use persistent_memory_stack.Coordinator.Execute.{
  Journal, Outcomes, after_loading, differs, execute_plan, load_state, pins_kept, proceed, recover,
  saved,
}
use persistent_memory_stack.Coordinator.Execute.Checkpoint.{IsOf, IsPlan, same_text_refl}

-- Each entry of the first list is the one that the second holds for its key.
abbrev IsFound : List (Text × Text) → List (Text × Text) → Type 0
IsFound n m = All (λ pin. lookup pin.0 m ≡ some pin.1) n

IsFound-later :
    (k v : Text) (n m : List (Text × Text))
    → lookup k m ≡ none
    → IsFound n m
    → IsFound n ((k, v) ∷ m)
unfolding lookup
IsFound-later k v [] m h f = tt
IsFound-later k v ((j, w) ∷ n) m h (p, f) = elim (Bool-cases (text_eq k j)) [
  | inl e ↦ absurd (cc ((text_eq_iff k j).0 e, h, p))
  | inr e ↦ (rw (e, lookup) p, IsFound-later k v n m h f)
]

IsFound-self : (m : List (Text × Text)) → HasUniqueKeys m → IsFound m m
unfolding HasUniqueKeys lookup
IsFound-self [] h = tt
IsFound-self ((k, v) ∷ m) (p, h) =
    (rw (text_eq_refl k) refl, IsFound-later k v m m p (IsFound-self m h))

not_differs : (v : Text) → differs (some v) v ≡ false
unfolding differs
not_differs [] = refl
not_differs (c ∷ s) = rw (text_eq_refl (c ∷ s)) refl

kept_all :
    (n m : List (Text × Text))
    → IsFound n m
    → all (λ pin. not (differs (lookup pin.0 m) pin.1)) n ≡ true
kept_all [] m h = refl
kept_all ((k, v) ∷ n) m (p, h) = rw (p, not_differs v) (kept_all n m h)

same_entries_refl : (m : List (Text × Text)) → same_entries m m ≡ true
unfolding same_entries
same_entries_refl [] = refl
same_entries_refl ((k, v) ∷ m) = rw (text_eq_refl k, text_eq_refl v) (same_entries_refl m)

same_pins_refl : (m : Option (List (Text × Text))) → same_pins m m ≡ true
unfolding same_pins
same_pins_refl none = refl
same_pins_refl (some m) = same_entries_refl m

pins_kept_refl :
    (pins : Option (List (Text × Text)))
    → HasUniqueKeys (default_to [] pins)
    → pins_kept (default_to [] pins) pins ≡ true
unfolding pins_kept
pins_kept_refl none h = refl
pins_kept_refl (some m) h = kept_all m m (IsFound-self m h)

module _ (plan : CoordinatorPlan) (s : CoordinatorExecutionState) (same : IsOf plan s) where
  IsOf-matches : matches_plan s plan ≡ true
  unfolding matches_plan matches_release_path
  IsOf-matches =
      let (_, line, source, target, path, revision, commits) = same in
      rw (line, source, target, path, revision, commits)
        (rw
          (
            same_text_refl plan.release_line,
            text_eq_refl plan.source_version,
            text_eq_refl plan.target_version,
            text_eq_refl (join_null plan.path),
          )
          (rw (same_text_refl plan.target_revision, same_pins_refl plan.release_commits) refl))

  IsOf-execution : valid_plan_pins plan ≡ true → is_execution_state s ≡ true
  unfolding valid_plan_pins is_execution_state
  IsOf-execution h =
      let (protocol, _, _, target, path, revision, commits) = same in
      rw (protocol, target, path, revision, commits) h

  IsOf-kept :
      HasUniqueKeys (default_to [] plan.release_commits)
      → pins_kept (default_to [] s.release_commits) plan.release_commits ≡ true
  IsOf-kept h =
      let (_, _, _, _, _, _, commits) = same in rw commits (pins_kept_refl plan.release_commits h)

  IsOf-recover :
      (env : Outcomes) → validate_recovery_state s plan.path ≡ ok tt → recover env plan s ≡ ok s
  unfolding recover
  IsOf-recover env valid = rw IsOf-matches (rw valid refl)

  -- A recoverable state of the plan is taken over as it is.
  pub load-saved :
      (env : Outcomes)
      → IsPlan plan
      → validate_recovery_state s plan.path ≡ ok tt
      → load_state env plan (saved s) ≡ ok s
  unfolding load_state
  load-saved env good valid =
      rw (IsOf-execution good.pins, IsOf-kept good.unique) (IsOf-recover env valid)

pub execute-loaded :
    (env : Outcomes) (plan : CoordinatorPlan) (journal : Journal) (s : CoordinatorExecutionState)
    → valid_plan_pins plan ≡ true
    → load_state env plan journal ≡ ok s
    → execute_plan env plan journal ≡ proceed env plan.path s
unfolding execute_plan after_loading
execute-loaded env plan journal s h k = rw (h, k) refl
