-- ===== src/Coordinator/Execute/Checkpoint.antt =====
-- Which states of one plan may be saved: the test of a saved state on each state that a run of
-- `executeCoordinatorPlan` writes.
use persistent_memory_stack.Prelude.Text.{Text, text_eq, text_eq_iff, text_eq_refl}
use persistent_memory_stack.Prelude.Result.{ok, on_require, require}
use persistent_memory_stack.Prelude.{
  ==_iff, All, Bool, Bool-cases, List, Option, [], and_split, append-nil, arith, default_to, false,
  get_elem?, head?, inl, inr, length, length-append, none, not, refl, some, true, ◌&&◌, ◌++◌, ◌==◌,
  ◌||◌, ◌∷◌, ◌≡◌, ◌⊎◌,
}
use persistent_memory_stack.Prelude.Assoc.{HasUniqueKeys}
use persistent_memory_stack.Coordinator.Releases.{IsDistinct}
use persistent_memory_stack.Coordinator.{
  CoordinatorError, CoordinatorExecutionState, CoordinatorPlan, complete, complete_disagrees,
  disagrees, failed, is_ordered_prefix, is_set, running, same_text, snapshot_running,
  valid_plan_pins, validate_recovery_state, validate_status,
}

-- A plan as the coordinator makes it: the pins are in order, and its path names releases that
-- differ.
pub record IsPlan (plan : CoordinatorPlan) : Type 0 where
  pub pins : valid_plan_pins plan ≡ true
  pub distinct : IsDistinct plan.path
  pub named : All (λ release. is_set (some release) ≡ true) plan.path
  pub unique : HasUniqueKeys (default_to [] plan.release_commits)

-- A state of this plan.
abbrev pub IsOf : CoordinatorPlan → CoordinatorExecutionState → Type 0
IsOf plan s =
    (s.protocol_version ≡ 1)
    × (s.release_line ≡ plan.release_line)
    × (s.source_version ≡ plan.source_version)
    × (s.target_version ≡ plan.target_version)
    × (s.path ≡ plan.path)
    × (s.target_revision ≡ plan.target_revision)
    × (s.release_commits ≡ plan.release_commits)

pub prefix-append : (done rest : List Text) → is_ordered_prefix done (done ++ rest) ≡ true
unfolding is_ordered_prefix
prefix-append [] rest = refl
prefix-append (r ∷ done) rest = rw (text_eq_refl r) (prefix-append done rest)

pub next-append : (done rest : List Text) → get_elem? (done ++ rest) (length done) ≡ head? rest
next-append [] [] = refl
next-append [] (r ∷ rest) = refl
next-append (r ∷ done) rest = next-append done rest

pub prefix-split :
    (done path : List Text)
    → is_ordered_prefix done path ≡ true
    → (rest : List Text) × (path ≡ done ++ rest)
unfolding is_ordered_prefix
prefix-split [] path h = (path, refl)
prefix-split (r ∷ done) [] h = absurd (cc)
prefix-split (r ∷ done) (p ∷ path) h = elim (Bool-cases (text_eq r p)) [
  | inr e ↦ absurd (cc (rw e at h))
  | inl e ↦
      let (rest, split) = prefix-split done path (rw e at h) in
      (rest, cc ((text_eq_iff r p).0 e, split))
]

or_true : (b : Bool) → (b || true) ≡ true
or_true true = refl
or_true false = refl

pub same_text_refl : (t : Option Text) → same_text t t ≡ true
unfolding same_text
same_text_refl none = refl
same_text_refl (some t) = text_eq_refl t

-- The snapshot of a state is taken.
abbrev pub IsVerified : CoordinatorExecutionState → Type 0
IsVerified s = (is_set s.snapshot_at ≡ true) × (disagrees true s.snapshot_status ≡ false)

module _ (s : CoordinatorExecutionState) (rest : List Text) where
  abbrev done : List Text
  done = s.completed_hops

  module _ (v : IsVerified s) where
    verified-validate :
        validate_recovery_state s (done ++ rest)
        ≡ validate_status s (done ++ rest) (head? rest) s.status
    unfolding validate_recovery_state
    verified-validate =
        rw (prefix-append done rest, next-append done rest, v.0, v.1)
          (rw (or_true (length done == 0)) refl)

    pub running-validate :
        s.status ≡ running
        → (s.current_hop ≡ none) ⊎ (s.current_hop ≡ head? rest)
        → validate_recovery_state s (done ++ rest) ≡ ok tt
    unfolding validate_status
    running-validate st (inl c) = rw verified-validate (rw (st, c) refl)
    running-validate st (inr c) =
        rw verified-validate (rw (st, c) (rw (same_text_refl (head? rest), or_true _) refl))

    pub failed-validate :
        (r : Text)
        → s.status ≡ failed
        → head? rest ≡ some r
        → is_set (some r) ≡ true
        → s.current_hop ≡ some r
        → s.failed_hop ≡ some r
        → validate_recovery_state s (done ++ rest) ≡ ok tt
    unfolding validate_status
    failed-validate r st h n c f =
        rw verified-validate (rw (st, c, f, h, n) (rw (same_text_refl (some r)) refl))

    pub complete-validate :
        s.status ≡ complete
        → rest ≡ []
        → s.current_hop ≡ none
        → s.failed_hop ≡ none
        → validate_recovery_state s (done ++ rest) ≡ ok tt
    unfolding validate_status is_set
    complete-validate st h c f =
        rw verified-validate
          (rw (st, c, f, h) (rw (append-nil, (==_iff (length done) (length done)).1 refl) refl))

-- Before the snapshot no hop is completed.
pub pending-validate :
    (s : CoordinatorExecutionState) (path : List Text)
    → s.completed_hops ≡ []
    → s.snapshot_at ≡ none
    → s.snapshot_status ≡ some snapshot_running
    → s.status ≡ running
    → s.current_hop ≡ none
    → validate_recovery_state s path ≡ ok tt
unfolding validate_recovery_state validate_status is_set is_ordered_prefix
pending-validate s path d a t r h = rw (d, a, t, r, h) refl

-- What the test of a saved state shows.
pub record IsRecoverable (s : CoordinatorExecutionState) (path : List Text) : Type 0 where
  pub rest : List Text
  pub split : path ≡ s.completed_hops ++ rest
  pub agrees : disagrees (is_set s.snapshot_at) s.snapshot_status ≡ false
  pub verified : (length s.completed_hops == 0 || is_set s.snapshot_at) ≡ true
  pub ended : s.status ≡ complete → rest ≡ []

refuted : (b : Bool) → not b ≡ true → b ≡ false
refuted false h = refl
refuted true h = absurd (cc)

required : (b : Bool) (e : CoordinatorError) → require b e ≡ ok tt → b ≡ true
required true e h = refl
required false e h = absurd (cc)

length-none : (xs rest : List Text) → length xs ≡ length (xs ++ rest) → rest ≡ []
length-none xs [] h = refl
length-none xs (r ∷ rest) h = absurd (omega (arith, h, length-append xs (r ∷ rest)))

complete-ends :
    (s : CoordinatorExecutionState) (path rest : List Text)
    → path ≡ s.completed_hops ++ rest
    → validate_status s path (get_elem? path (length s.completed_hops)) complete ≡ ok tt
    → rest ≡ []
unfolding validate_status
complete-ends s path rest split h =
    let hop = not (is_set s.current_hop) in
    let (both, _) =
      and_split (length s.completed_hops == length path && hop) _
        (required _ complete_disagrees h) in
    let (same, _) = and_split (length s.completed_hops == length path) hop both in
    let lengths : length s.completed_hops ≡ length path = (==_iff _ _).0 same in
    length-none s.completed_hops rest (rw split at lengths)

pub validate-IsRecoverable :
    (s : CoordinatorExecutionState) (path : List Text)
    → validate_recovery_state s path ≡ ok tt
    → IsRecoverable s path
unfolding validate_recovery_state
validate-IsRecoverable s path h = on_require _ _ _ h λ p h. on_require _ _ _ h λ a h.
    on_require _ _ _ h λ v h.
      let (rest, split) = prefix-split s.completed_hops path p in
      record {
        rest = rest;
        split = split;
        agrees = refuted _ a;
        verified = v;
        ended = λ c. complete-ends s path rest split (rw c at h);
      }
