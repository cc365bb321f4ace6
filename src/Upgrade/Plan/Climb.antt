-- ===== src/Upgrade/Plan/Climb.antt =====
-- A path planned for a validated contract climbs to its release.
use persistent_memory_stack.Prelude.{
  List, Option, [], inl, inr, none, refl, some, ◌++◌, ◌∙◌, ◌∷◌, ◌≡◌, ◌⊎◌,
}
use persistent_memory_stack.Prelude.Text.{Text}
use persistent_memory_stack.Prelude.Result.{ok}
use persistent_memory_stack.Json.{Json}
use persistent_memory_stack.Upgrade.Version.{Version, match_version}
use persistent_memory_stack.Upgrade.Version.Order.{Precedes, Precedes-irrefl, Precedes-trans}
use persistent_memory_stack.Upgrade.Contract.{Contract, Stop, validate_contract}
use persistent_memory_stack.Upgrade.Contract.Sound.{Climbs, IsBefore, validate_contract-IsSound}
use persistent_memory_stack.Upgrade.Plan.{plan_upgrade_path}
use persistent_memory_stack.Upgrade.Plan.Route.{Follows, LastHop, plan_upgrade_path-IsRoute}

pub record IsNotAfter (a b : Text) : Type 0 where
  pub first : Version
  pub second : Version
  pub first_parses : match_version a ≡ some first
  pub second_parses : match_version b ≡ some second
  pub ordered : ¬ Precedes second first

-- Each release but the last is strictly later than the one before and strictly earlier than the
-- target; the last is the target. An empty path means that the target is installed already.
abbrev pub AscendsTo : Text → Text → List Text → Type 0
AscendsTo release current [] = current ≡ release
AscendsTo release current (r ∷ rs) =
    ((rs ≡ []) × (r ≡ release) × IsNotAfter current r)
    ⊎ (IsBefore current r × IsBefore r release × AscendsTo release r rs)

IsNotAfter-of_IsBefore : (a b : Text) → IsBefore a b → IsNotAfter a b
IsNotAfter-of_IsBefore a b h = record {
  first = h.earlier;
  second = h.later;
  first_parses = h.earlier_parses;
  second_parses = h.later_parses;
  ordered =
      λ k. Precedes-irrefl h.earlier (Precedes-trans h.earlier h.later h.earlier h.precedes k);
}

module _ (available : List Text) (contracts : List (Text × Contract)) (target : Contract) where
  Follows-AscendsTo :
      (ss : List Stop) (previous : Option Text) (current final : Text) (stops last : List Text)
      → Climbs available target.release previous ss
      → Follows contracts current ss final stops
      → LastHop final target last
      → IsNotAfter current target.release
      → AscendsTo target.release current (stops ++ last)
  Follows-AscendsTo [] previous current final stops last climbs (same, e) (inl (here, f)) not_past =
      rw (e, f) (same ∙ here)
  Follows-AscendsTo [] previous current final stops last climbs (same, e) (inr (_, _, _, f))
        not_past =
      rw (e, f) (inl (refl, refl, not_past))
  Follows-AscendsTo (s ∷ ss) previous current final stops last climbs (inl (_, follows)) arrives
        not_past =
      Follows-AscendsTo ss (some s.release) current final stops last climbs.3 follows arrives
        not_past
  Follows-AscendsTo (s ∷ ss) previous current final stops last climbs
        (inr (_, direct, (rest, e, follows))) arrives not_past =
      rw e (
        inr (
          direct.advances,
          climbs.1,
          Follows-AscendsTo ss (some s.release) s.release final rest last climbs.3 follows arrives
              (IsNotAfter-of_IsBefore s.release target.release climbs.1),
        ))

-- For a validated target contract, the planned path climbs from the source to the target.
pub plan_upgrade_path-AscendsTo :
    (value : Json) (installed : Text) (available : List Text) (target : Contract) (source : Text)
    (contracts : List (Text × Contract)) (path : List Text)
    → validate_contract value installed available ≡ ok target
    → plan_upgrade_path source target contracts ≡ ok path
    → AscendsTo target.release source path
plan_upgrade_path-AscendsTo value installed available target source contracts path valid planned =
    let sound = validate_contract-IsSound value installed available target valid in
    let route = plan_upgrade_path-IsRoute source target contracts path planned in
    rw route.whole (
      Follows-AscendsTo available contracts target target.required_stops none source route.final
        route.stops route.last sound.stops route.follows route.arrives
        (record {
          first = route.start;
          second = route.destination;
          first_parses = route.start_parses;
          second_parses = route.destination_parses;
          ordered = route.no_downgrade;
        }))
