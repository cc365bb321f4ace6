-- ===== src/Upgrade/Contract/Sound.antt =====
-- What a validated contract guarantees.
use persistent_memory_stack.Upgrade.Range.Newer.{range_permits_newer_iff}
use persistent_memory_stack.Prelude.{
  All, Bool, List, Option, [], ap, arith, false, none, not, some, sym, true, ◌∙◌, ◌∷◌, ◌≡◌,
}
use persistent_memory_stack.Prelude.Text.{Text, codes, text_eq, text_eq_iff}
use persistent_memory_stack.Prelude.Int.{negsuc, pos, ℤ}
use persistent_memory_stack.Prelude.Result.{Result, ok, ok-injective, on_bind, on_require}
use persistent_memory_stack.Json.{Json, field}
use persistent_memory_stack.Upgrade.Version.{
  UpgradeError, Version, bad_major_line, bridge_wrong_target, compare_parsed, compare_versions,
  is_negative, is_positive, major_line_mismatch, match_version, minimum_after_release, not_arrays,
  package_mismatch, parse_version, permits_newer, release_unavailable, stop_duplicated,
  stop_not_earlier, stop_not_later, stop_unavailable,
}
use persistent_memory_stack.Upgrade.Version.Order.{
  Precedes, is_negative-compare, is_positive-compare,
}
use persistent_memory_stack.Upgrade.Version.Values.{compare_versions_value, parse_version-ok}
use persistent_memory_stack.Upgrade.Range.{range_permits_newer, satisfies_range}
use persistent_memory_stack.Upgrade.Contract.{
  Bridge, Contract, Stop, advances_from, allowed_fields, bridge_of, bridges_of, coordinator_of, has,
  is_record, reject_unexpected, require_array, require_integer, require_one, require_range,
  require_string, require_version, same_integer, stop_of, stops_of, validate_contract,
}

-- Text that parses as a version which precedes another's.
pub record IsBefore (a b : Text) : Type 0 where
  pub earlier : Version
  pub later : Version
  pub earlier_parses : match_version a ≡ some earlier
  pub later_parses : match_version b ≡ some later
  pub precedes : Precedes earlier later

abbrev IsAfterPrevious : Option Text → Text → Type 0
IsAfterPrevious none stop = Unit
IsAfterPrevious (some previous) stop = IsBefore previous stop

-- The stops climb, are published, and stay below the release.
abbrev pub Climbs : List Text → Text → Option Text → List Stop → Type 0
Climbs available release previous [] = Unit
Climbs available release previous (s ∷ ss) =
    (has available s.release ≡ true)
    × IsBefore s.release release
    × IsAfterPrevious previous s.release
    × Climbs available release (some s.release) ss

pub record IsSound (installed : Text) (available : List Text) (c : Contract) : Type 0 where
  pub version : Version
  pub minimum : Version
  pub names_package : c.release ≡ installed
  pub published : has available c.release ≡ true
  pub parses : match_version c.release ≡ some version
  pub minimum_parses : match_version c.minimum_supported_source ≡ some minimum
  pub minimum_not_after : ¬ Precedes version minimum
  pub major_line : c.compatible_major_line ≡ pos version.major
  pub nothing_newer :
      (s : Text) (v : Version)
      → match_version s ≡ some v
      → satisfies_range s c.direct_from ≡ ok true
      → ¬ Precedes version v
  pub bridges : All (λ (b : Bridge). b.to ≡ c.release) c.bridges
  pub stops : Climbs available c.release none c.required_stops

require_version-parses :
    (value : Option Json) (s : Text)
    → require_version value ≡ ok s
    → (v : Version) × (match_version s ≡ some v)
unfolding require_version
require_version-parses value s h = on_bind (require_string value) _ h λ t _ h.
    on_bind (parse_version t) _ h λ v parsed h.
      let same : t ≡ s = ok-injective h in (v, rw (← same) (parse_version-ok t v parsed))

same_integer-eq : (a b : ℤ) → same_integer a b ≡ true → a ≡ b
same_integer-eq (pos a) (pos b) h = ground arith
same_integer-eq (negsuc a) (negsuc b) h = ground arith
same_integer-eq (pos a) (negsuc b) h = cc
same_integer-eq (negsuc a) (pos b) h = cc

module _ (available : List Text) (release : Text) where
  bridge_of-to : (raw : Json) (b : Bridge) → bridge_of available release raw ≡ ok b → b.to ≡ release
  unfolding bridge_of
  bridge_of-to raw b h = on_bind (is_record (some raw)) _ h λ ps _ h.
      on_bind (reject_unexpected ps _) _ h λ _ _ h.
        on_bind (require_version (field (codes "to") ps)) _ h λ to _ h.
          on_require (text_eq to release) bridge_wrong_target _ h λ same h.
            on_require (has available to) release_unavailable _ h λ _ h.
              on_bind (require_range (field (codes "from") ps)) _ h λ from _ h.
                on_bind (require_range (field (codes "requires") ps)) _ h λ requires _ h.
                  on_bind (require_string (field (codes "reason") ps)) _ h λ reason _ h.
                    let e : to ≡ b.to = ap (λ (x : Bridge). x.to) (ok-injective h) in
                    sym e ∙ (text_eq_iff to release).0 same

  bridges_of-to :
      (raws : List Json) (bs : List Bridge)
      → bridges_of available release raws ≡ ok bs
      → All (λ (b : Bridge). b.to ≡ release) bs
  unfolding bridges_of
  bridges_of-to [] bs h = let same : [] ≡ bs = ok-injective h in rw (← same) tt
  bridges_of-to (raw ∷ raws) bs h = on_bind (bridge_of available release raw) _ h λ b e h1.
      on_bind (bridges_of available release raws) _ h1 λ rest r h2.
        let same : b ∷ rest ≡ bs = ok-injective h2 in
        rw (← same) (bridge_of-to raw b e, bridges_of-to raws rest r)

  abbrev ParsesIfAny : Option Text → Type 0
  ParsesIfAny none = Unit
  ParsesIfAny (some p) = (u : Version) × (match_version p ≡ some u)

  IsAfterPrevious-of_advances :
      (previous : Option Text) (stop : Text) (w : Version)
      → match_version stop ≡ some w
      → ParsesIfAny previous
      → advances_from available release previous stop ≡ ok true
      → IsAfterPrevious previous stop
  unfolding advances_from
  IsAfterPrevious-of_advances none stop w parses p h = tt
  IsAfterPrevious-of_advances (some previous) stop w parses (u, p) h = record {
    earlier = u;
    later = w;
    earlier_parses = p;
    later_parses = parses;
    precedes =
        (is_positive-compare w u).0
          (ground (arith, compare_versions_value stop w parses previous u p));
  }

  stop_of-climbs :
      (v : Version) (seen : List Text) (previous : Option Text) (raw : Json) (s : Stop)
      → match_version release ≡ some v
      → ParsesIfAny previous
      → stop_of available release seen previous raw ≡ ok s
      → (has available s.release ≡ true)
        × IsBefore s.release release
        × IsAfterPrevious previous s.release
  unfolding stop_of
  stop_of-climbs v seen previous raw s valid parsed h = on_bind (is_record (some raw)) _ h λ ps _ h.
      on_bind (reject_unexpected ps _) _ h λ _ _ h.
        on_bind (require_version (field (codes "release") ps)) _ h λ stop is_version h.
          on_bind (compare_versions stop release) _ h λ result compared h.
            on_require (is_negative result) stop_not_earlier _ h λ negative h.
              on_require (has available stop) stop_unavailable _ h λ listed h.
                on_require (not (has seen stop)) stop_duplicated _ h λ _ h.
                  on_bind (advances_from available release previous stop) _ h λ later advance h.
                    on_require later stop_not_later _ h λ is_later h.
                      on_bind (require_range (field (codes "when") ps)) _ h λ range _ h.
                        on_bind (require_string (field (codes "reason") ps)) _ h λ reason _ h.
                          let e : stop ≡ s.release =
                            ap (λ (x : Stop). x.release) (ok-injective h) in
                          let (w, parses) = require_version-parses _ stop is_version in
                          let sign : result ≡ compare_parsed w v =
                            ok-injective (
                              sym compared
                              ∙ compare_versions_value stop w parses release v valid) in
                          rw (← e) (
                            listed,
                            record {
                              earlier = w;
                              later = v;
                              earlier_parses = parses;
                              later_parses = valid;
                              precedes = (is_negative-compare w v).0 (rw sign at negative);
                            },
                            IsAfterPrevious-of_advances previous stop w parses parsed
                                (rw is_later at advance),
                          )

  stops_of-Climbs :
      (v : Version) (seen : List Text) (previous : Option Text) (raws : List Json) (ss : List Stop)
      → match_version release ≡ some v
      → ParsesIfAny previous
      → stops_of available release seen previous raws ≡ ok ss
      → Climbs available release previous ss
  unfolding stops_of
  stops_of-Climbs v seen previous [] ss valid parsed h =
      let same : [] ≡ ss = ok-injective h in rw (← same) tt
  stops_of-Climbs v seen previous (raw ∷ raws) ss valid parsed h =
      on_bind (stop_of available release seen previous raw) _ h λ s e h1.
        on_bind (stops_of available release (s.release ∷ seen) (some s.release) raws) _ h1
          λ rest r h2.
            let same : s ∷ rest ≡ ss = ok-injective h2 in
            let (listed, before, after) = stop_of-climbs v seen previous raw s valid parsed e in
            rw (← same) (
              listed,
              before,
              after,
              stops_of-Climbs v (s.release ∷ seen) (some s.release) raws rest valid
                  (before.earlier, before.earlier_parses) r,
            )

pub not_positive : (v w : Version) → not (is_positive (compare_parsed v w)) ≡ true → ¬ Precedes w v
not_positive v w h p = ground (arith, (is_positive-compare v w).1 p)

refute_newer :
    (newer : Bool) (r : Result UpgradeError Bool)
    → r ≡ ok newer
    → not newer ≡ true
    → ¬ (r ≡ ok true)
refute_newer true r e h k = ground arith
refute_newer false r e h k = cc

-- A validated contract names its package, is published, has a minimum source that is not after the
-- release, allows a direct update from no newer version, and has bridges to its release and
-- required stops that are published, precede the release and climb.
pub validate_contract-IsSound :
    (value : Json) (installed : Text) (available : List Text) (c : Contract)
    → validate_contract value installed available ≡ ok c
    → IsSound installed available c
unfolding validate_contract
validate_contract-IsSound value installed available c h =
    on_bind (is_record (some value)) _ h λ ps _ h.
      on_bind (reject_unexpected ps allowed_fields) _ h λ _ _ h.
        on_bind (require_one (field (codes "schemaVersion") ps)) _ h λ _ _ h.
          on_bind (require_version (field (codes "release") ps)) _ h λ release _ h.
            on_bind (require_version (field (codes "minimumSupportedSource") ps)) _ h
              λ minimum is_version h.
                on_bind (require_range (field (codes "directFrom") ps)) _ h λ direct_from _ h.
                  on_bind (compare_versions minimum release) _ h λ result compared h.
                    on_require (not (is_positive result)) minimum_after_release _ h λ not_after h.
                      on_bind (range_permits_newer direct_from release) _ h λ newer permits h.
                        on_require (not newer) permits_newer _ h λ not_newer h.
                          on_require (text_eq release installed) package_mismatch _ h λ same h.
                            on_require (has available release) release_unavailable _ h λ listed h.
                              on_bind
                                (require_integer (field (codes "compatibleMajorLine") ps)
                                  bad_major_line)
                                _ h
                                λ line _ h. on_bind (parse_version release) _ h λ version parsed h.
                                  on_require (same_integer (pos version.major) line)
                                    major_line_mismatch _ h
                                    λ major h.
                                      on_bind
                                        (require_array (field (codes "bridges") ps) not_arrays) _ h
                                        λ raw_bridges _ h.
                                          on_bind
                                            (require_array (field (codes "requiredStops") ps)
                                              not_arrays)
                                            _ h
                                            λ raw_stops _ h.
                                              on_bind
                                                (coordinator_of (field (codes "coordinator") ps)) _
                                                h
                                                λ coordinator _ h.
                                                  on_bind (bridges_of available release raw_bridges)
                                                    _ h
                                                    λ bridges bridged h.
                                                      on_bind
                                                        (stops_of available release [] none
                                                          raw_stops)
                                                        _ h
                                                        λ stops stopped h.
                                                          let parses =
                                                            parse_version-ok release version
                                                            parsed in
                                                          let (least, least_parses) =
                                                            require_version-parses _ minimum
                                                            is_version in
                                                          let sign : result
                                                            ≡ compare_parsed least version =
                                                            ok-injective (
                                                            sym compared
                                                            ∙ compare_versions_value minimum least
                                                            least_parses release version parses) in
                                                          rw (← (ok-injective h)) (record {
                                                            version = version;
                                                            minimum = least;
                                                            names_package =
                                                            (text_eq_iff release installed).0 same;
                                                            published = listed;
                                                            parses = parses;
                                                            minimum_parses = least_parses;
                                                            minimum_not_after =
                                                            not_positive least version
                                                            (rw sign at not_after);
                                                            major_line = sym (
                                                            same_integer-eq (pos version.major) line
                                                            major);
                                                            nothing_newer = λ s v p hit after.
                                                            refute_newer newer
                                                            (range_permits_newer direct_from
                                                            release)
                                                            permits not_newer
                                                            ((range_permits_newer_iff direct_from
                                                            release version parses).1
                                                            (s, v, p, after, hit));
                                                            bridges =
                                                            bridges_of-to available release
                                                            raw_bridges bridges bridged;
                                                            stops =
                                                            stops_of-Climbs available release
                                                            version [] none raw_stops stops parses
                                                            tt stopped;
                                                          })
