-- ===== src/Coordinator/Planning/Runnable.antt =====
-- A plan that `main` pins to published releases meets what `executeCoordinatorPlan` needs of it.
use persistent_memory_stack.Prelude.Result.{ok, ok-injective, on_bind}
use persistent_memory_stack.Prelude.Assoc.{insert}
use persistent_memory_stack.Json.{Json}
use persistent_memory_stack.Upgrade.Contract.{Contract, Stop, has, validate_contract}
use persistent_memory_stack.Upgrade.Lines.{versions_of}
use persistent_memory_stack.Upgrade.Plan.{plan_upgrade_path}
use persistent_memory_stack.Upgrade.Plan.Route.{Follows, LastHop, plan_upgrade_path-IsRoute}
use persistent_memory_stack.Coordinator.Published.Queue.{on_lifted}
use persistent_memory_stack.Coordinator.Published.{lift_upgrade}
use persistent_memory_stack.Coordinator.Planning.{
  package_target, plan_coordinator_bootstrap, plan_for,
}
use persistent_memory_stack.Prelude.Text.{Text, text_eq, text_eq_iff, text_eq_refl}
use persistent_memory_stack.Prelude.{
  All, All-append, Bool-cases, List, Option, [], false, inl, inr, none, refl, some, true, ◌∷◌, ◌≡◌,
  ◌⊎◌,
}
use persistent_memory_stack.Upgrade.Version.{Version, match_version}
use persistent_memory_stack.Upgrade.Version.Order.{Precedes-irrefl, Precedes-trans}
use persistent_memory_stack.Upgrade.Contract.Sound.{Climbs, IsBefore, validate_contract-IsSound}
use persistent_memory_stack.Upgrade.Plan.Climb.{AscendsTo, plan_upgrade_path-AscendsTo}
use persistent_memory_stack.Coordinator.{CoordinatorPlan, has_text, is_set}
use persistent_memory_stack.Coordinator.Releases.{IsDistinct, has_text-later}

IsBefore-differs : (a b : Text) → IsBefore a b → text_eq a b ≡ false
IsBefore-differs a b h = elim (Bool-cases (text_eq a b)) [
  | inr e ↦ e
  | inl e ↦
      let same : a ≡ b = (text_eq_iff a b).0 e in
      let later : match_version a ≡ some h.later = rw same h.later_parses in
      let equal : h.earlier ≡ h.later = cc (later, h.earlier_parses) in
      absurd (Precedes-irrefl h.later (rw equal at h.precedes))
]

IsBefore-trans : (a b c : Text) → IsBefore a b → IsBefore b c → IsBefore a c
IsBefore-trans a b c h k =
    let equal : k.earlier ≡ h.later = cc (k.earlier_parses, h.later_parses) in
    record {
      earlier = h.earlier;
      later = k.later;
      earlier_parses = h.earlier_parses;
      later_parses = k.later_parses;
      precedes = Precedes-trans h.earlier h.later k.later h.precedes (rw equal at k.precedes);
    }

-- No version that a path still climbs to is one that the path has passed.
passed :
    (release x current : Text) (rs : List Text)
    → (x ≡ current) ⊎ IsBefore x current
    → IsBefore x release
    → AscendsTo release current rs
    → has_text x rs ≡ false
unfolding has_text
passed release x current [] below before h = refl
passed release x current (r ∷ rs) below before (inl (last, same, _)) =
    rw (last, same) (rw (IsBefore-differs x release before) refl)
passed release x current (r ∷ rs) below before (inr (step, _, rest)) =
    let lower : IsBefore x r = elim below [
      | inl e ↦ rw e step
      | inr k ↦ IsBefore-trans x current r k step
    ] in
    rw (IsBefore-differs x r lower) (passed release x r rs (inr lower) before rest)

AscendsTo-IsDistinct :
    (release current : Text) (rs : List Text) → AscendsTo release current rs → IsDistinct rs
unfolding has_text
AscendsTo-IsDistinct release current [] h = tt
AscendsTo-IsDistinct release current (r ∷ rs) (inl (last, _, _)) = rw last (refl, tt)
AscendsTo-IsDistinct release current (r ∷ rs) (inr (_, below, rest)) =
    (passed release r r rs (inl refl) below rest, AscendsTo-IsDistinct release r rs rest)

parses-named : (r : Text) (v : Version) → match_version r ≡ some v → is_set (some r) ≡ true
unfolding is_set match_version
parses-named [] v h = absurd (cc (h))
parses-named (c ∷ r) v h = refl

AscendsTo-named :
    (release current : Text) (rs : List Text)
    → AscendsTo release current rs
    → All (λ r. is_set (some r) ≡ true) rs
AscendsTo-named release current [] h = tt
AscendsTo-named release current (r ∷ rs) (inl (last, _, k)) =
    rw last (parses-named r k.second k.second_parses, tt)
AscendsTo-named release current (r ∷ rs) (inr (step, _, rest)) =
    (parses-named r step.later step.later_parses, AscendsTo-named release r rs rest)

-- Each release of a planned path is available.
module _ (contracts : List (Text × Contract)) (available : List Text) (release : Text) where
  Follows-available :
      (previous : Option Text) (current final : Text) (ss : List Stop) (path : List Text)
      → Climbs available release previous ss
      → Follows contracts current ss final path
      → All (λ r. has available r ≡ true) path
  Follows-available previous current final [] path c (_, e) = rw e tt
  Follows-available previous current final (s ∷ ss) path c (inl (_, f)) =
      Follows-available (some s.release) current final ss path c.3 f
  Follows-available previous current final (s ∷ ss) path c (inr (_, _, (rest, e, f))) =
      rw e (c.0, Follows-available (some s.release) s.release final ss rest c.3 f)

has-text : (names : List Text) (r : Text) → has names r ≡ true → has_text r names ≡ true
unfolding has_text
has-text [] r h = h
has-text (n ∷ names) r h = elim (Bool-cases (text_eq n r)) [
  | inl e ↦ rw ((text_eq_iff n r).0 e) (rw (text_eq_refl r) refl)
  | inr e ↦ has_text-later r n names (has-text names r (rw e at h))
]

All-has-text :
    (names path : List Text)
    → All (λ r. has names r ≡ true) path
    → All (λ r. has_text r names ≡ true) path
All-has-text names [] h = tt
All-has-text names (r ∷ path) (p, h) = (has-text names r p, All-has-text names path h)

-- What a plan from `planCoordinatorBootstrap` is.
pub record IsPlanned (available : List Text) (plan : CoordinatorPlan) : Type 0 where
  pub path_distinct : IsDistinct plan.path
  pub path_named : All (λ r. is_set (some r) ≡ true) plan.path
  pub path_available : All (λ r. has_text r available ≡ true) plan.path
  pub target_named : is_set (some plan.target_version) ≡ true
  pub target_available : has_text plan.target_version available ≡ true

last_available :
    (available : List Text) (final : Text) (last : List Text) (c : Contract)
    → has available c.release ≡ true
    → LastHop final c last
    → All (λ r. has available r ≡ true) last
last_available available final last c h (inl (_, e)) = rw e tt
last_available available final last c h (inr (_, _, _, e)) = rw e (h, tt)

pub plan_coordinator_bootstrap-IsPlanned :
    (line : Text) (raw package_json : Json) (source : Text) (contracts : List (Text × Contract))
    (plan : CoordinatorPlan)
    → plan_coordinator_bootstrap line raw package_json source (some contracts) ≡ ok plan
    → IsPlanned (versions_of contracts) plan
unfolding plan_coordinator_bootstrap
plan_coordinator_bootstrap-IsPlanned line raw package_json source contracts plan h =
    on_bind (package_target line package_json) _ h λ installed _ h.
      on_bind (lift_upgrade (validate_contract raw installed (versions_of contracts))) _ h
        λ contract v h.
          on_bind
            (lift_upgrade
              (plan_upgrade_path source contract (insert contract.release contract contracts)))
            _ h
            λ path p h. rw (← ok-injective h) (
              planned path (insert contract.release contract contracts) installed contract
                (on_lifted (validate_contract raw installed (versions_of contracts)) contract v)
                (on_lifted _ path p))
  where
    planned :
        (path : List Text) (known : List (Text × Contract)) (installed : Text) (c : Contract)
        → validate_contract raw installed (versions_of contracts) ≡ ok c
        → plan_upgrade_path source c known ≡ ok path
        → IsPlanned (versions_of contracts) (plan_for line source c.release path)
    planned path known installed c v p =
        let sound = validate_contract-IsSound raw installed (versions_of contracts) c v in
        let route = plan_upgrade_path-IsRoute source c known path p in
        let climb =
          plan_upgrade_path-AscendsTo raw installed (versions_of contracts) c source known path v
            p in
        record {
          path_distinct = AscendsTo-IsDistinct c.release source path climb;
          path_named = AscendsTo-named c.release source path climb;
          path_available = All-has-text (versions_of contracts) path (
              rw route.whole (
                All-append (λ r. has (versions_of contracts) r ≡ true) route.stops route.last
                  (Follows-available known (versions_of contracts) c.release none source route.final
                    c.required_stops route.stops sound.stops route.follows)
                  (last_available (versions_of contracts) route.final route.last c sound.published
                    route.arrives)));
          target_named = parses-named c.release sound.version sound.parses;
          target_available = has-text (versions_of contracts) c.release sound.published;
        }
