-- ===== src/Coordinator/Execute/Steady.antt =====
-- The journal of `executeCoordinatorPlan` stays consistent with what has happened after each effect
-- of a run.
use persistent_memory_stack.Prelude.Text.{Text}
use persistent_memory_stack.Prelude.{
  All, All-append, Bool-cases, Elem, List, Option, Option-cases, [], append_assoc, false, inl, inr,
  none, refl, some, true, ◌++◌, ◌∷◌, ◌≡◌,
}
use persistent_memory_stack.Coordinator.Releases.{has_text-append, open_hop}
use persistent_memory_stack.Coordinator.{
  CoordinatorExecutionState, CoordinatorPlan, has_text, is_set,
}
use persistent_memory_stack.Coordinator.Execute.{
  Effect, Outcomes, completes, hop_begins, hop_ends, hop_fails, ran_hop, run_hops, saved, wrote,
}
use persistent_memory_stack.Coordinator.Execute.Checkpoint.{
  IsPlan, IsVerified, complete-validate, failed-validate, running-validate,
}
use persistent_memory_stack.Coordinator.Execute.History.{
  Allowed, HasRun, IsConsistent, IsOpen, Tells, Tells-quiet, Tells-wrote, World, apply_effect,
  apply_effects,
}

unfoldable pub Steady : CoordinatorPlan → List Effect → World → Type 0
Steady plan [] w = IsConsistent plan w
Steady plan (e ∷ es) w = IsConsistent plan w × Steady plan es (apply_effect e w)

pub Steady-front :
    (plan : CoordinatorPlan) (front back : List Effect) (w : World)
    → Steady plan (front ++ back) w
    → IsConsistent plan (apply_effects front w)
unfolding Steady apply_effects
Steady-front plan [] [] w h = h
Steady-front plan [] (e ∷ back) w (h, _) = h
Steady-front plan (e ∷ front) back w (_, h) = Steady-front plan front back (apply_effect e w) h

HasRun-last :
    (log : List Effect) (r : Text) (rs : List Text)
    → HasRun rs log
    → Elem (ran_hop r none) log
    → HasRun (rs ++ r ∷ []) log
HasRun-last log r rs h p = All-append (λ x. Elem (ran_hop x none) log) rs (r ∷ []) h (p, tt)

abbrev pub journaled : CoordinatorExecutionState → List Effect → World
journaled s log = record { journal = saved s; log = log }

module _ (env : Outcomes)
    (clock : (s : CoordinatorExecutionState) → is_set (some (env.now s)) ≡ true)
    (plan : CoordinatorPlan) (good : IsPlan plan) where
  -- What holds before each turn of the loop.
  pub record Ready (rest : List Text) (s : CoordinatorExecutionState) (log : List Effect)
      : Type 0 where
    pub left : plan.path ≡ s.completed_hops ++ rest
    pub verified : IsVerified s
    pub tells : Tells plan s log

  begin-Tells :
      (r : Text) (rest : List Text) (s : CoordinatorExecutionState) (log : List Effect) (t : Text)
      → Ready (r ∷ rest) s log
      → Tells plan (hop_begins t r s) (wrote (hop_begins t r s) ∷ log)
  unfolding hop_begins
  begin-Tells r rest s log t k =
      Tells-wrote plan s log (hop_begins t r s) k.tells.of
        (rw k.left (running-validate (hop_begins t r s) (r ∷ rest) k.verified refl (inr refl)))
        k.tells.begun k.tells.taken k.tells.has_run (λ x h. h) k.tells

  end-Tells :
      (r : Text) (rest : List Text) (s : CoordinatorExecutionState) (log : List Effect)
      {older : List Effect} (t u : Text)
      → Ready (r ∷ rest) s older
      → Tells plan (hop_begins t r s) log
      → Elem (ran_hop r none) log
      → Tells plan (hop_ends u r (hop_begins t r s)) (wrote (hop_ends u r (hop_begins t r s)) ∷ log)
  unfolding hop_begins hop_ends
  end-Tells r rest s log t u k b ran =
      Tells-wrote plan (hop_begins t r s) log (hop_ends u r (hop_begins t r s)) k.tells.of
        (rw (k.left, ← append_assoc s.completed_hops (r ∷ []) rest)
          (running-validate (hop_ends u r (hop_begins t r s)) rest k.verified refl (inl refl)))
        b.begun b.taken (HasRun-last log r s.completed_hops b.has_run ran)
        (λ x h. has_text-append x s.completed_hops (r ∷ []) h) b

  fail-Tells :
      (r : Text) (rest : List Text) (s : CoordinatorExecutionState) (log : List Effect)
      {older : List Effect} (t u : Text) (message : Text)
      → Ready (r ∷ rest) s older
      → is_set (some r) ≡ true
      → Tells plan (hop_begins t r s) log
      → Tells plan
          (hop_fails u r message (hop_begins t r s))
          (wrote (hop_fails u r message (hop_begins t r s)) ∷ log)
  unfolding hop_begins hop_fails
  fail-Tells r rest s log t u message k n b =
      let failure = hop_fails u r message (hop_begins t r s) in
      Tells-wrote plan (hop_begins t r s) log failure k.tells.of
        (rw k.left (failed-validate failure (r ∷ rest) k.verified r refl refl n refl refl)) b.begun
        b.taken b.has_run (λ x h. h) b

  complete-Tells :
      (s : CoordinatorExecutionState) (log : List Effect) (t : Text)
      → Ready [] s log
      → Tells plan (completes t s) (wrote (completes t s) ∷ log)
  unfolding completes
  complete-Tells s log t k =
      Tells-wrote plan s log (completes t s) k.tells.of
        (rw k.left (complete-validate (completes t s) [] k.verified refl refl refl refl))
        k.tells.begun k.tells.taken k.tells.has_run (λ x h. h) k.tells

  ran-Tells :
      (r : Text) (x : Option Text) (s : CoordinatorExecutionState) (log : List Effect)
      → is_set s.snapshot_at ≡ true
      → has_text r s.completed_hops ≡ false
      → Tells plan s log
      → Tells plan s (ran_hop r x ∷ log)
  unfolding Allowed
  ran-Tells r x s log v free k =
      Tells-quiet plan s log (ran_hop r x) (λ t h. cc h) (k.taken v, not_completed) k
    where
      not_completed : IsOpen r log
      not_completed t p = elim (Bool-cases (has_text r t.completed_hops)) [
        | inl e ↦ absurd (cc (free, k.grows t p r e))
        | inr e ↦ e
      ]

  named_at :
      (done : List Text) (r : Text) (rest path : List Text)
      → path ≡ done ++ r ∷ rest
      → All (λ release. is_set (some release) ≡ true) path
      → is_set (some r) ≡ true
  named_at [] r rest path p h = let (n, _) = rw p at h in n
  named_at (d ∷ done) r rest path p h = let (_, k) = rw p at h in named_at done r rest _ refl k

  pub run_hops-Steady :
      (rest : List Text) (s : CoordinatorExecutionState) (log : List Effect)
      → Ready rest s log
      → Steady plan (run_hops env rest s).effects (journaled s log)
  unfolding run_hops Steady apply_effect IsConsistent
  run_hops-Steady [] s log k = (k.tells, complete-Tells s log (env.now s) k)
  run_hops-Steady (r ∷ rest) s log k = elim (Option-cases (env.run_hop r)) [
    | inl e ↦
        rw (free, e)
          (
            k.tells,
            (
              b,
              (
                ran none,
                run_hops-Steady rest ended (wrote ended ∷ ran_hop r none ∷ begun_log) (record {
                  left = rw (k.left, ← append_assoc s.completed_hops (r ∷ []) rest) refl;
                  verified = k.verified;
                  tells =
                      end-Tells r rest s (ran_hop r none ∷ begun_log) t (env.now begun) k (ran none)
                        (inl refl);
                }),
              ),
            ),
          )
    | inr (message, e) ↦
        rw (free, e)
          (
            k.tells,
            (
              b,
              (
                ran (some message),
                fail-Tells r rest s (ran_hop r (some message) ∷ begun_log) t (env.now begun) message
                    k (named_at s.completed_hops r rest plan.path k.left good.named)
                    (ran (some message)),
              ),
            ),
          )
  ]
    where
      free : has_text r s.completed_hops ≡ false
      free = open_hop s.completed_hops r rest (rw k.left at good.distinct)

      t : Text
      t = env.now s

      begun : CoordinatorExecutionState
      begun = hop_begins (env.now s) r s

      begun_log : List Effect
      begun_log = wrote (hop_begins (env.now s) r s) ∷ log

      ended : CoordinatorExecutionState
      ended = hop_ends (env.now (hop_begins (env.now s) r s)) r (hop_begins (env.now s) r s)

      b : Tells plan (hop_begins (env.now s) r s) (wrote (hop_begins (env.now s) r s) ∷ log)
      b = begin-Tells r rest s log (env.now s) k

      ran :
          (x : Option Text)
          → Tells plan
              (hop_begins (env.now s) r s)
              (ran_hop r x ∷ wrote (hop_begins (env.now s) r s) ∷ log)
      ran x = ran-Tells r x (hop_begins (env.now s) r s) _ k.verified.0 free b
