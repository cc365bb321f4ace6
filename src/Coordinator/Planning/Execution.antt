-- ===== src/Coordinator/Planning/Execution.antt =====
-- What `main` hands to `executeCoordinatorPlan` for published releases.
use persistent_memory_stack.Prelude.Result.{ok, ok-injective, on_require}
use persistent_memory_stack.Json.{Json}
use persistent_memory_stack.Upgrade.Contract.{Contract}
use persistent_memory_stack.Coordinator.Published.Closure.{
  load_published_upgrade_contracts-IsLoaded,
}
use persistent_memory_stack.Coordinator.Planning.{
  execution_plan, pin_plan, plan_coordinator_bootstrap, sort_pins,
}
use persistent_memory_stack.Coordinator.Planning.Runnable.{plan_coordinator_bootstrap-IsPlanned}
use persistent_memory_stack.Prelude.Text.{Text, text_eq, text_eq_iff, text_eq_refl}
use persistent_memory_stack.Prelude.{
  All, Bool, Bool-cases, List, Option, [], all, and_split, inl, inr, is_some, refl, some, true,
  ◌&&◌, ◌∷◌, ◌≡◌,
}
use persistent_memory_stack.Prelude.Assoc.{lookup}
use persistent_memory_stack.Upgrade.Lines.{versions_of}
use persistent_memory_stack.Coordinator.{
  CoordinatorPlan, has_text, is_commit, is_release_version, is_set, pins_cover, same_text,
  target_differs, valid_plan_pins,
}
use persistent_memory_stack.Coordinator.Releases.{IsDistinct, same_text_value, text_eq_sym}
use persistent_memory_stack.Coordinator.Execute.Checkpoint.{IsPlan}
use persistent_memory_stack.Coordinator.Published.{
  PublishedReleasePin, Sources, load_published_upgrade_contracts,
}
use persistent_memory_stack.Coordinator.Planning.Pins.{
  All-left, IsDistinct-HasUniqueKeys, IsGoodPin, Pins, all_of, commits_of, lookup_among,
  lookup_only, sorted-Pins,
}

commit_set : (c : Text) → is_commit c ≡ true → is_set (some c) ≡ true
unfolding is_commit is_set
commit_set [] h = absurd (cc)
commit_set (d ∷ c) h = refl

module _ (before : Text → Text → Bool) (sources : Sources) (line : Text)
    (target : PublishedReleasePin) where
  good_commit :
      (m : List (Text × Text))
      → All (IsGoodPin before sources line target) m
      → has_text target.version (versions_of m) ≡ true
      → is_commit target.commit ≡ true
  unfolding IsGoodPin has_text
  good_commit [] a h = absurd (cc)
  good_commit ((v, c) ∷ m) ((p, q), a) h = elim (Bool-cases (text_eq v target.version)) [
    | inl e ↦ let (_, k) = and_split (is_release_version v) (is_commit c) p in rw (← q e) k
    | inr e ↦ good_commit m a (rw (text_eq_sym v target.version e) at h)
  ]

  module _ (releases : List (Text × PublishedReleasePin)) (m : List (Text × Text))
      (pins : Pins before sources line target releases m) where
    path_covered :
        (path : List Text)
        → All (λ r. has_text r (versions_of releases) ≡ true) path
        → all (λ version. is_some (lookup version m)) path ≡ true
    path_covered [] h = refl
    path_covered (r ∷ path) (p, h) = rw (lookup_among r m (pins.covers r p)) (path_covered path h)

    target_found :
        has_text target.version (versions_of releases) ≡ true
        → lookup target.version m ≡ some target.commit
    unfolding IsGoodPin
    target_found h =
        lookup_only target.version target.commit m
          (All-left before sources line target (λ e p. p.1) m pins.good)
          (pins.covers target.version h)

    pins_cover-lem :
        (path : List Text)
        → All (λ r. has_text r (versions_of releases) ≡ true) path
        → has_text target.version (versions_of releases) ≡ true
        → pins_cover path target.version (some target.commit) (some m) ≡ true
    unfolding pins_cover same_text IsGoodPin
    pins_cover-lem path h t =
        rw
          (
            all_of (λ pin. is_release_version pin.0 && is_commit pin.1) m
                (All-left before sources line target (λ e p. p.0) m pins.good),
            path_covered path h,
            target_found t,
          )
          (text_eq_refl target.commit)

    with_pins : CoordinatorPlan → List Text → CoordinatorPlan
    with_pins plan path = record plan {
      path = path;
      target_revision = some target.commit;
      release_commits = some m;
    }

    covered-IsPlan :
        (plan : CoordinatorPlan) (path : List Text)
        → plan.target_version ≡ target.version
        → IsDistinct path
        → All (λ r. is_set (some r) ≡ true) path
        → All (λ r. has_text r (versions_of releases) ≡ true) path
        → has_text target.version (versions_of releases) ≡ true
        → IsPlan (with_pins plan path)
    unfolding with_pins valid_plan_pins
    covered-IsPlan plan path e d n a t = record {
      pins = rw e (pins_cover-lem path a t);
      distinct = d;
      named = n;
      unique = IsDistinct-HasUniqueKeys m pins.separate;
    }

    execution-IsPlan :
        (plan : CoordinatorPlan) (path : List Text)
        → plan.target_version ≡ target.version
        → is_set (some plan.target_version) ≡ true
        → IsDistinct path
        → All (λ r. is_set (some r) ≡ true) path
        → All (λ r. has_text r (versions_of releases) ≡ true) path
        → has_text target.version (versions_of releases) ≡ true
        → IsPlan (execution_plan (with_pins plan path))
    unfolding execution_plan with_pins has_text
    execution-IsPlan plan [] e s d n a t =
        covered-IsPlan plan (plan.target_version ∷ []) e (refl, tt) (s, tt) (rw e (t, tt)) t
    execution-IsPlan plan (r ∷ path) e s d n a t = covered-IsPlan plan (r ∷ path) e d n a t

  -- Whatever releases are loaded for a published target and whatever version is deployed, the plan
  -- that the coordinator makes of them and pins can be executed: the pins are in form, cover every
  -- hop and name the target's commit, and the hops differ and are not empty.
  pub execution_plan-IsPlan :
      (contracts : List (Text × Contract)) (releases : List (Text × PublishedReleasePin))
      (raw package_json : Json) (source : Text) (revision : Option Text)
      (plan pinned : CoordinatorPlan)
      → load_published_upgrade_contracts sources line target ≡ ok (contracts, releases)
      → plan_coordinator_bootstrap line raw package_json source (some contracts) ≡ ok plan
      → pin_plan before target revision releases plan ≡ ok pinned
      → IsPlan (execution_plan pinned)
  unfolding pin_plan with_pins
  execution_plan-IsPlan contracts releases raw package_json source revision plan pinned l b p =
      let loaded =
        load_published_upgrade_contracts-IsLoaded sources line target contracts releases l in
      let planned =
        rw loaded.same_versions at
          (plan_coordinator_bootstrap-IsPlanned line raw package_json source contracts plan b) in
      let pins =
        sorted-Pins before sources line target releases loaded.all_pinned
          loaded.distinct_versions in
      on_require
        (text_eq plan.target_version target.version && same_text revision (some target.commit))
        target_differs _ p
        λ both p.
          let (t, r) = and_split (text_eq plan.target_version target.version) _ both in
          let e : plan.target_version ≡ target.version = (text_eq_iff _ _).0 t in
          let commit = commit_set target.commit (
            good_commit (sort_pins before (commits_of releases)) pins.good
              (pins.covers target.version loaded.has_target)) in
          rw (← ok-injective p) (
            rw (same_text_value revision target.commit r, commit)
              (execution-IsPlan releases (sort_pins before (commits_of releases)) pins plan
                plan.path e planned.target_named planned.path_distinct planned.path_named
                planned.path_available loaded.has_target))
