-- ===== src/Coordinator/Execute/Refusal.antt =====
-- When `executeCoordinatorPlan` leaves a journal alone.
use persistent_memory_stack.Prelude.Result.{Result, err, ok, on_require}
use persistent_memory_stack.Prelude.Text.{Text, text_eq, text_eq_iff}
use persistent_memory_stack.Prelude.{
  ==_iff, List, Option, [], and_split, ap, arith, inl, inr, is_some, length, none, not, on_if, refl,
  some, true, ◌&&◌, ◌==◌, ◌↔◌, ◌∷◌, ◌≡◌, ◌≢◌, ◌⊎◌,
}
use persistent_memory_stack.Coordinator.{
  CoordinatorError, CoordinatorExecutionState, CoordinatorPlan, Status, can_retry_failed_revision,
  complete, failed, is_execution_state, is_failed, join_null, matches_plan, matches_release_path,
  same_entries, same_pins, same_text, valid_plan_pins,
}
use persistent_memory_stack.Coordinator.Execute.{
  Outcomes, Run, after_loading, execute_plan, is_complete, load_state, recover, saved,
}

-- The same release line, versions and path, which the source joins by NUL to compare.
abbrev pub IsSameRoute : CoordinatorPlan → CoordinatorExecutionState → Type 0
IsSameRoute plan s =
    (s.release_line ≡ plan.release_line)
    × (s.source_version ≡ plan.source_version)
    × (s.target_version ≡ plan.target_version)
    × (join_null s.path ≡ join_null plan.path)

-- The state is of this plan: its route, its revision and its pins.
abbrev pub IsOwn : CoordinatorPlan → CoordinatorExecutionState → Type 0
IsOwn plan s =
    IsSameRoute plan s
    × (s.target_revision ≡ plan.target_revision)
    × (s.release_commits ≡ plan.release_commits)

-- The state failed before a hop ended, no commit is pinned, and only the revision is another.
abbrev pub IsOtherRevision : CoordinatorPlan → CoordinatorExecutionState → Type 0
IsOtherRevision plan s =
    (s.status ≡ failed)
    × (s.release_commits ≡ none)
    × (plan.release_commits ≡ none)
    × (s.completed_hops ≡ [])
    × IsSameRoute plan s
    × (s.target_revision ≢ plan.target_revision)

-- The ways in which a plan may go on from a saved state.
abbrev pub MayFollow : CoordinatorPlan → CoordinatorExecutionState → Type 0
MayFollow plan s = IsOwn plan s ⊎ ((s.status ≡ complete) ⊎ IsOtherRevision plan s)

same_text_iff : (a b : Option Text) → (same_text a b ≡ true) ↔ (a ≡ b)
unfolding same_text
same_text_iff none none = ((λ h. refl), λ h. refl)
same_text_iff none (some t) = ((λ h. absurd (cc h)), λ h. absurd (cc h))
same_text_iff (some s) none = ((λ h. absurd (cc h)), λ h. absurd (cc h))
same_text_iff (some s) (some t) = ground (arith, text_eq_iff s t)

same_entries-equal : (m n : List (Text × Text)) → same_entries m n ≡ true → m ≡ n
unfolding same_entries
same_entries-equal [] [] h = refl
same_entries-equal [] (q ∷ n) h = absurd (cc h)
same_entries-equal (p ∷ m) [] h = absurd (cc h)
same_entries-equal ((k, v) ∷ m) ((j, w) ∷ n) h =
    let (first, rest) = and_split (text_eq k j && text_eq v w) (same_entries m n) h in
    let (a, b) = and_split (text_eq k j) (text_eq v w) first in
    cc ((text_eq_iff k j).0 a, (text_eq_iff v w).0 b, same_entries-equal m n rest)

same_pins-equal : (m n : Option (List (Text × Text))) → same_pins m n ≡ true → m ≡ n
unfolding same_pins
same_pins-equal none none h = refl
same_pins-equal (some m) (some n) h = ap some (same_entries-equal m n h)
same_pins-equal none (some n) h = absurd (cc h)
same_pins-equal (some m) none h = absurd (cc h)

is_complete-equal : (s : Status) → is_complete s ≡ true → s ≡ complete
is_complete-equal s h = ground arith

is_failed-equal : (s : Status) → is_failed s ≡ true → s ≡ failed
is_failed-equal s h = ground arith

matches_release_path-IsSameRoute :
    (plan : CoordinatorPlan) (s : CoordinatorExecutionState)
    → matches_release_path s plan ≡ true
    → IsSameRoute plan s
unfolding matches_release_path
matches_release_path-IsSameRoute plan s h =
    let (abc, d) = and_split _ _ h in
    let (ab, c) = and_split _ _ abc in
    let (a, b) = and_split _ _ ab in
    ((same_text_iff _ _).0 a, (text_eq_iff _ _).0 b, (text_eq_iff _ _).0 c, (text_eq_iff _ _).0 d)

matches_plan-IsOwn :
    (plan : CoordinatorPlan) (s : CoordinatorExecutionState)
    → matches_plan s plan ≡ true
    → IsOwn plan s
unfolding matches_plan
matches_plan-IsOwn plan s h =
    let (ab, c) = and_split _ _ h in
    let (a, b) = and_split _ _ ab in
    (matches_release_path-IsSameRoute plan s a, (same_text_iff _ _).0 b, same_pins-equal _ _ c)

can_retry_failed_revision-IsOtherRevision :
    (plan : CoordinatorPlan) (s : CoordinatorExecutionState)
    → can_retry_failed_revision s plan ≡ true
    → IsOtherRevision plan s
unfolding can_retry_failed_revision
can_retry_failed_revision-IsOtherRevision plan s h =
    let (abcde, f) = and_split _ _ h in
    let (abcd, e) = and_split _ _ abcde in
    let (abc, d) = and_split _ _ abcd in
    let (ab, c) = and_split _ _ abc in
    let (a, b) = and_split _ _ ab in
    (
      is_failed-equal s.status a,
      absent s.release_commits b,
      absent plan.release_commits c,
      no_hops s.completed_hops d,
      matches_release_path-IsSameRoute plan s e,
      λ same. cc (f, (same_text_iff s.target_revision plan.target_revision).1 same),
    )
  where
    absent : (o : Option (List (Text × Text))) → not (is_some o) ≡ true → o ≡ none
    absent o h = ground arith

    no_hops : (hops : List Text) → (length hops == 0) ≡ true → hops ≡ []
    no_hops [] h = refl
    no_hops (r ∷ hops) h = absurd (omega (arith, (==_iff _ _).0 h))

-- No effect, or else the plan may go on.
IsGuarded : CoordinatorPlan → CoordinatorExecutionState → Run → Type 0
IsGuarded plan s run = (run.effects ≡ []) ⊎ (MayFollow plan s × (is_execution_state s ≡ true))

after_loading-IsGuarded :
    (env : Outcomes) (plan : CoordinatorPlan) (s : CoordinatorExecutionState)
    (loaded : Result CoordinatorError CoordinatorExecutionState)
    → ((t : CoordinatorExecutionState)
        → loaded ≡ ok t
        → MayFollow plan s × (is_execution_state s ≡ true))
    → IsGuarded plan s (after_loading env plan.path loaded)
unfolding after_loading IsGuarded
after_loading-IsGuarded env plan s (err e) h = inl refl
after_loading-IsGuarded env plan s (ok t) h = inr (h t refl)

recover-MayFollow :
    (env : Outcomes) (plan : CoordinatorPlan) (s t : CoordinatorExecutionState)
    → recover env plan s ≡ ok t
    → MayFollow plan s
unfolding recover
recover-MayFollow env plan s t h =
    on_if holds (matches_plan s plan) _ _ (λ m _. inl (matches_plan-IsOwn plan s m))
      (λ _.
        on_if holds (can_retry_failed_revision s plan) _ _
          (λ r _. inr (inr (can_retry_failed_revision-IsOtherRevision plan s r)))
          (λ _ k. on_require _ _ _ k λ c _. inr (inl (is_complete-equal s.status c))))
      h
  where
    holds : Result CoordinatorError CoordinatorExecutionState → Type 0
    holds loaded = loaded ≡ ok t → MayFollow plan s

load_state-MayFollow :
    (env : Outcomes) (plan : CoordinatorPlan) (s t : CoordinatorExecutionState)
    → load_state env plan (saved s) ≡ ok t
    → MayFollow plan s × (is_execution_state s ≡ true)
unfolding load_state
load_state-MayFollow env plan s t h =
    on_require _ _ _ h λ i h. on_require _ _ _ h λ _ h. (recover-MayFollow env plan s t h, i)

-- The journal of an unfinished update is kept for its own plan: a run of any plan writes nothing,
-- takes no snapshot and runs no hop, unless the saved state has the form of one, and has this plan's
-- release line, versions, path, revision and pins, or is complete, or has failed with no hop ended
-- and no commits pinned and differs from this plan, which pins none, in the revision alone.
pub execute_plan-MayFollow :
    (env : Outcomes) (plan : CoordinatorPlan) (s : CoordinatorExecutionState)
    → ((execute_plan env plan (saved s)).effects ≡ [])
      ⊎ (MayFollow plan s × (is_execution_state s ≡ true))
unfolding execute_plan IsGuarded
execute_plan-MayFollow env plan s =
    on_if (IsGuarded plan s) (valid_plan_pins plan) _ _
      (λ _. after_loading-IsGuarded env plan s _ (load_state-MayFollow env plan s)) (λ _. inl refl)
