-- ===== src/Upgrade/Plan/Route.antt =====
-- What a planned path is: each hop, each stop skipped or taken, and how it climbs to the target.
use persistent_memory_stack.Prelude.{
  ==_iff, Bool, Elem, List, Option-cases, [], ap, arith, false, if◌then◌else◌, inl, inr, is_some,
  not, refl, some, sym, true, ◌++◌, ◌==◌, ◌∷◌, ◌≡◌, ◌≢◌, ◌⊎◌,
}
use persistent_memory_stack.Prelude.Text.{Text, text_eq, text_eq_iff}
use persistent_memory_stack.Prelude.Int.{ℤ}
use persistent_memory_stack.Prelude.Result.{
  Result, err, ok, ok-injective, on_bind, on_require, require, ◌>>=◌, ◌>>◌,
}
use persistent_memory_stack.Upgrade.Version.{
  UpgradeError, Version, below_minimum, bridge_required, compare_parsed, compare_versions,
  downgrade, is_negative, is_positive, match_version, parse_version, stop_does_not_advance,
  stop_not_direct, target_not_direct, target_unavailable,
}
use persistent_memory_stack.Upgrade.Version.Order.{
  Precedes, is_negative-compare, is_positive-compare,
}
use persistent_memory_stack.Upgrade.Version.Values.{parse_version-ok}
use persistent_memory_stack.Upgrade.Range.{satisfies_range}
use persistent_memory_stack.Upgrade.Contract.{Bridge, Contract, Stop}
use persistent_memory_stack.Upgrade.Contract.Sound.{IsBefore, not_positive}
use persistent_memory_stack.Upgrade.Plan.{
  contract_for, cross_major, find_bridge, follow_stops, last_hop, plan_upgrade_path, take_stop,
}

-- A hop that the contract of its destination allows, and that advances.
pub record IsDirect (contracts : List (Text × Contract)) (current release : Text) : Type 0 where
  pub contract : Contract
  pub listed : contract_for release contracts ≡ some contract
  pub advances : IsBefore current release
  pub allowed : satisfies_range current contract.direct_from ≡ ok true

-- A stop is skipped exactly when its range leaves the current version out.
abbrev pub Follows : List (Text × Contract) → Text → List Stop → Text → List Text → Type 0
Follows contracts current [] final path = (current ≡ final) × (path ≡ [])
Follows contracts current (s ∷ ss) final path =
    ((satisfies_range current s.when ≡ ok false) × Follows contracts current ss final path)
    ⊎ ((satisfies_range current s.when ≡ ok true)
        × IsDirect contracts current s.release
        × ((rest : List Text) × (path ≡ s.release ∷ rest)
            × Follows contracts s.release ss final rest))

abbrev IsBridge : Text → Text → Bridge → Type 0
IsBridge current release b =
    (b.to ≡ release)
    × (satisfies_range current b.from ≡ ok true)
    × (satisfies_range current b.requires ≡ ok true)

-- A change of the major version has a declared bridge.
abbrev IsBridged : Text → Contract → Type 0
IsBridged current target =
    (v : Version) × (w : Version) × (match_version current ≡ some v)
    × (match_version target.release ≡ some w)
    × ((v.major ≡ w.major)
        ⊎ ((b : Bridge) × Elem b target.bridges × IsBridge current target.release b))

abbrev pub LastHop : Text → Contract → List Text → Type 0
LastHop final target last =
    ((final ≡ target.release) × (last ≡ []))
    ⊎ ((final ≢ target.release)
        × (satisfies_range final target.direct_from ≡ ok true)
        × IsBridged final target
        × (last ≡ target.release ∷ []))

pub record IsRoute (source : Text) (target : Contract) (contracts : List (Text × Contract))
    (path : List Text) : Type 0 where
  pub final : Text
  pub stops : List Text
  pub last : List Text
  pub whole : path ≡ stops ++ last
  pub start : Version
  pub destination : Version
  pub start_parses : match_version source ≡ some start
  pub destination_parses : match_version target.release ≡ some destination
  pub no_downgrade : ¬ Precedes destination start
  pub supported :
      (v : Version) → match_version target.minimum_supported_source ≡ some v → ¬ Precedes start v
  pub follows : Follows contracts source target.required_stops final stops
  pub arrives : LastHop final target last

compare_versions-ok :
    (a b : Text) (r : ℤ)
    → compare_versions a b ≡ ok r
    → (v : Version) × (w : Version) × (match_version a ≡ some v)
      × (match_version b ≡ some w)
      × (r ≡ compare_parsed v w)
compare_versions-ok a b r h =
    parsed (parse_version a) (parse_version b) refl refl (unfold compare_versions in h)
  where
    parsed :
        (p q : Result UpgradeError Version)
        → parse_version a ≡ p
        → parse_version b ≡ q
        → (p >>= λ v. q >>= λ w. ok (compare_parsed v w)) ≡ ok r
        → (v : Version) × (w : Version) × (match_version a ≡ some v)
          × (match_version b ≡ some w)
          × (r ≡ compare_parsed v w)
    parsed (ok v) (ok w) e f k =
        (v, w, parse_version-ok a v e, parse_version-ok b w f, sym (ok-injective k))
    parsed (ok v) (err _) e f k = absurd (cc)
    parsed (err _) q e f k = absurd (cc)

take_stop-IsDirect :
    (contracts : List (Text × Contract)) (current : Text) (stop : Stop) (u : Unit {0})
    → take_stop contracts current stop ≡ ok u
    → IsDirect contracts current stop.release
take_stop-IsDirect contracts current stop u h =
    elim (Option-cases (contract_for stop.release contracts)) [
      | inl missed ↦ absurd (unfold take_stop in (ground (arith, missed)))
      | inr (c, found) ↦ found_contract c found (unfold take_stop in (rw (found, take_stop) at h))
    ]
  where
    found_contract :
        (c : Contract)
        → contract_for stop.release contracts ≡ some c
        → (compare_versions stop.release current >>= λ result.
            require (is_positive result) stop_does_not_advance
            >> (satisfies_range current c.direct_from >>= λ direct.
                require direct stop_not_direct >> ok tt))
          ≡ ok u
        → IsDirect contracts current stop.release
    found_contract c found k =
        on_bind (compare_versions stop.release current) _ k λ result compared k.
          on_require (is_positive result) stop_does_not_advance _ k λ up k.
            on_bind (satisfies_range current c.direct_from) _ k λ direct hit k.
              on_require direct stop_not_direct _ k λ yes_direct k.
                let (v, w, p, q, e) = compare_versions-ok stop.release current result compared in
                record {
                  contract = c;
                  listed = found;
                  advances = record {
                    earlier = w;
                    later = v;
                    earlier_parses = q;
                    later_parses = p;
                    precedes = (is_positive-compare v w).0 (rw e at up);
                  };
                  allowed = rw yes_direct at hit;
                }

find_bridge-IsBridge :
    (current release : Text) (bs : List Bridge)
    → find_bridge current release bs ≡ ok true
    → (b : Bridge) × Elem b bs × IsBridge current release b
unfolding find_bridge
find_bridge-IsBridge current release [] h = cc
find_bridge-IsBridge current release (b ∷ bs) h =
    on_bind (if text_eq b.to release then satisfies_range current b.from else ok false) _ h
      λ from is_from h.
        on_bind (if from then satisfies_range current b.requires else ok false) _ h
          λ fits is_fit h. found fits h is_from is_fit (find_bridge-IsBridge current release bs)
  where
    found :
        (fits : Bool) {from : Bool}
        → (if fits then ok true else find_bridge current release bs) ≡ ok true
        → (if text_eq b.to release then satisfies_range current b.from else ok false) ≡ ok from
        → (if from then satisfies_range current b.requires else ok false) ≡ ok fits
        → (find_bridge current release bs ≡ ok true
            → (a : Bridge) × Elem a bs × IsBridge current release a)
        → (a : Bridge) × Elem a (b ∷ bs) × IsBridge current release a
    found true {from} k e f later = (
      b,
      inl refl,
      (ground (arith, text_eq_iff b.to release, e, f), ground (arith, e, f), ground (arith, e, f)),
    )
    found false k e f later = let (a, listed, fits) = later k in (a, inr listed, fits)

cross_major-IsBridged :
    (current : Text) (target : Contract) (u : Unit {0})
    → cross_major current target ≡ ok u
    → IsBridged current target
unfolding cross_major
cross_major-IsBridged current target u h = on_bind (parse_version current) _ h λ v p h.
    on_bind (parse_version target.release) _ h λ w q h. (
      v,
      w,
      parse_version-ok current v p,
      parse_version-ok target.release w q,
      bridged v w (v.major == w.major) refl h,
    )
  where
    bridged :
        (v w : Version) (same : Bool)
        → (v.major == w.major) ≡ same
        → (if same
            then ok tt
            else (find_bridge current target.release target.bridges >>= λ found.
                require found bridge_required >> ok tt))
          ≡ ok u
        → (v.major ≡ w.major)
          ⊎ ((b : Bridge) × Elem b target.bridges × IsBridge current target.release b)
    bridged v w true e k = inl ((==_iff v.major w.major).0 e)
    bridged v w false e k =
        on_bind (find_bridge current target.release target.bridges) _ k λ found hit k.
          on_require found bridge_required _ k λ is_found k.
            inr (find_bridge-IsBridge current target.release target.bridges (rw is_found at hit))

last_hop-LastHop :
    (current : Text) (target : Contract) (last : List Text)
    → last_hop current target ≡ ok last
    → LastHop current target last
unfolding last_hop
last_hop-LastHop current target last h = arrived (text_eq current target.release) refl h
  where
    arrived :
        (same : Bool)
        → text_eq current target.release ≡ same
        → (if same
            then ok []
            else (satisfies_range current target.direct_from >>= λ direct.
                require direct target_not_direct
                >> (cross_major current target >> ok (target.release ∷ []))))
          ≡ ok last
        → LastHop current target last
    arrived true e k = inl ((text_eq_iff current target.release).0 e, sym (ok-injective k))
    arrived false e k = on_bind (satisfies_range current target.direct_from) _ k λ direct hit k.
        on_require direct target_not_direct _ k λ is_direct k.
          on_bind (cross_major current target) _ k λ u crossed k. inr (
            (λ same. cc (e, (text_eq_iff current target.release).1 same)),
            rw is_direct at hit,
            cross_major-IsBridged current target u crossed,
            sym (ok-injective k),
          )

follow_stops-Follows :
    (contracts : List (Text × Contract)) (current : Text) (ss : List Stop) (final : Text)
    (path : List Text)
    → follow_stops contracts current ss ≡ ok (final, path)
    → Follows contracts current ss final path
unfolding follow_stops
follow_stops-Follows contracts current [] final path h = (
  ap (λ (r : Text × List Text). r.0) (ok-injective h),
  sym (ap (λ (r : Text × List Text). r.1) (ok-injective h)),
)
follow_stops-Follows contracts current (s ∷ ss) final path h =
    on_bind (satisfies_range current s.when) _ h λ needed hit h.
      followed needed hit h (follow_stops-Follows contracts current ss final path)
        (follow_stops-Follows contracts s.release ss final)
  where
    followed :
        (needed : Bool)
        → satisfies_range current s.when ≡ ok needed
        → (if needed
            then (take_stop contracts current s >>= λ _.
                follow_stops contracts s.release ss >>= λ r. ok (r.0, s.release ∷ r.1))
            else follow_stops contracts current ss)
          ≡ ok (final, path)
        → (follow_stops contracts current ss ≡ ok (final, path)
            → Follows contracts current ss final path)
        → ((rest : List Text)
            → follow_stops contracts s.release ss ≡ ok (final, rest)
            → Follows contracts s.release ss final rest)
        → Follows contracts current (s ∷ ss) final path
    followed false e k skip go_on = inl (e, skip k)
    followed true e k skip go_on = on_bind (take_stop contracts current s) _ k λ u taken k.
        on_bind (follow_stops contracts s.release ss) _ k λ r rest k.
          let same : r.0 ≡ final = ap (λ (p : Text × List Text). p.0) (ok-injective k) in
          inr (
            e,
            take_stop-IsDirect contracts current s u taken,
            (
              r.1,
              sym (ap (λ (p : Text × List Text). p.1) (ok-injective k)),
              go_on r.1 (rw (← same) rest),
            ),
          )

not_below : (v m : Version) → not (is_negative (compare_parsed v m)) ≡ true → ¬ Precedes v m
not_below v m h p = ground (arith, (is_negative-compare v m).1 p)

-- A planned path is a route: it starts at a version that is neither newer than the target nor below
-- its minimum, takes each required stop whose range holds at that point and no other, moves only by
-- hops that the contract of the release it moves to allows, and ends at the target, over a declared
-- bridge if the major version changes.
pub plan_upgrade_path-IsRoute :
    (source : Text) (target : Contract) (contracts : List (Text × Contract)) (path : List Text)
    → plan_upgrade_path source target contracts ≡ ok path
    → IsRoute source target contracts path
unfolding plan_upgrade_path
plan_upgrade_path-IsRoute source target contracts path h =
    on_require (is_some (contract_for target.release contracts)) target_unavailable _ h λ _ h.
      on_bind (compare_versions source target.release) _ h λ ahead e h.
        on_require (not (is_positive ahead)) downgrade _ h λ not_ahead h.
          on_bind (compare_versions source target.minimum_supported_source) _ h λ behind f h.
            on_require (not (is_negative behind)) below_minimum _ h λ not_behind h.
              on_bind (follow_stops contracts source target.required_stops) _ h λ r followed h.
                on_bind (last_hop r.0 target) _ h λ last arrived h.
                  let (v, w, p, q, sign) = compare_versions-ok source target.release ahead e in
                  let (v', u, p', q', sign') =
                    compare_versions-ok source target.minimum_supported_source behind f in
                  record {
                    final = r.0;
                    stops = r.1;
                    last = last;
                    whole = sym (ok-injective h);
                    start = v;
                    destination = w;
                    start_parses = p;
                    destination_parses = q;
                    no_downgrade = not_positive v w (rw sign at not_ahead);
                    supported =
                        λ m parsed. not_below v m (cc (sign', not_behind, p, p', q', parsed));
                    follows =
                        follow_stops-Follows contracts source target.required_stops r.0 r.1
                          followed;
                    arrives = last_hop-LastHop r.0 target last arrived;
                  }
