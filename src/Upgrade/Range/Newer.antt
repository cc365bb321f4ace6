-- ===== src/Upgrade/Range/Newer.antt =====
-- `rangePermitsVersionNewerThan` looks at finitely many candidates, and misses no newer version.
use persistent_memory_stack.Prelude.Result.{ok}
use persistent_memory_stack.Prelude.{
  All, Bool-cases, Elem, List, [], ap, arith, inl, inr, refl, some, sym, true, ◌↔◌, ◌∙◌, ◌∷◌, ◌≡◌,
}
use persistent_memory_stack.Prelude.Text.{Text}
use persistent_memory_stack.Upgrade.Version.{
  Version, compare_parsed, is_positive, match_version, next_patch, print_version,
}
use persistent_memory_stack.Upgrade.Version.Printing.{match_version-print_version}
use persistent_memory_stack.Upgrade.Version.Values.{
  compare_versions_value, next_patch_version_value,
}
use persistent_memory_stack.Upgrade.Version.Order.{Precedes, is_positive-compare}
use persistent_memory_stack.Upgrade.Range.{range_permits_newer, satisfies_range, some_newer, words}
use persistent_memory_stack.Upgrade.Range.Values.{Meets, MeetsAll, satisfies_range_cases}
use persistent_memory_stack.Upgrade.Range.Candidates.{
  Best-candidate, Parses, bound_candidates_value, candidates_of, candidates_of-Parses,
}

-- The loop over the candidates, all of which parse.
module _ (range target : Text) (t : Version) (valid : match_version target ≡ some t) where
  abbrev IsNewer : Text → Type 0
  IsNewer s =
      (v : Version) × (match_version s ≡ some v)
      × Precedes t v
      × (satisfies_range s range ≡ ok true)

  some_newer_sound :
      (cs : List Text)
      → All Parses cs
      → some_newer range target cs ≡ ok true
      → (s : Text) × IsNewer s
  unfolding some_newer
  some_newer_sound [] ps h = cc
  some_newer_sound (c ∷ cs) ((v, p), ps) h = elim (Bool-cases (is_positive (compare_parsed v t))) [
    | inl up ↦ elim (satisfies_range_cases c v range p) [
      | inl (hit, met) ↦ (c, (v, p, (is_positive-compare v t).0 up, hit))
      | inr (miss, refuted) ↦
          some_newer_sound cs ps (rw (compare_versions_value c v p target t valid, up, miss) at h)
    ]
    | inr down ↦
        some_newer_sound cs ps (rw (compare_versions_value c v p target t valid, down) at h)
  ]

  some_newer_complete :
      (cs : List Text) (s : Text)
      → All Parses cs
      → Elem s cs
      → IsNewer s
      → some_newer range target cs ≡ ok true
  unfolding some_newer
  some_newer_complete [] s ps e new = absurd e
  some_newer_complete (c ∷ cs) s ((v, p), ps) (inl same) new =
      let (w, q, after, hit) = new in
      let parsed : some v ≡ some w = sym p ∙ ap match_version same ∙ q in
      let e : w ≡ v = cc parsed in
      let up : is_positive (compare_parsed v t) ≡ true =
        (is_positive-compare v t).1 (rw e at after) in
      rw (compare_versions_value c v p target t valid, up, same, hit) refl
  some_newer_complete (c ∷ cs) s ((v, p), ps) (inr later) new =
      let ih = some_newer_complete cs s ps later new in
      rw (compare_versions_value c v p target t valid)
        (ground (arith, satisfies_range_cases c v range p))

met_of_satisfies :
    (s : Text) (v : Version) (range : Text)
    → match_version s ≡ some v
    → satisfies_range s range ≡ ok true
    → MeetsAll v (words range)
met_of_satisfies s v range p hit = elim (satisfies_range_cases s v range p) [
  | inl (_, met) ↦ met
  | inr (miss, _) ↦ cc
]

satisfies_of_meets :
    (s : Text) (v : Version) (range : Text)
    → match_version s ≡ some v
    → MeetsAll v (words range)
    → satisfies_range s range ≡ ok true
satisfies_of_meets s v range p met = elim (satisfies_range_cases s v range p) [
  | inl (hit, _) ↦ hit
  | inr (_, refuted) ↦ absurd (refuted met)
]

All-of_MeetsAll : (v : Version) (cs : List Text) → MeetsAll v cs → All (Meets v) cs
All-of_MeetsAll v [] h = tt
All-of_MeetsAll v (c ∷ cs) h = h

MeetsAll-of_All :
    (v w : Version) (cs : List Text) → MeetsAll v cs → All (Meets w) cs → MeetsAll w cs
MeetsAll-of_All v w [] h k = h
MeetsAll-of_All v w (c ∷ cs) h k = k

not_before_next : (t v : Version) → Precedes t v → ¬ Precedes v (next_patch t)
not_before_next t v h = ground arith

after_target : (t m : Version) → ¬ Precedes m (next_patch t) → Precedes t m
after_target t m h = ground arith

-- `rangePermitsVersionNewerThan` answers true exactly when some version, of all there are, comes
-- after the target and satisfies the range; for a target that parses.
pub range_permits_newer_iff :
    (range target : Text) (t : Version)
    → match_version target ≡ some t
    → (range_permits_newer range target ≡ ok true) ↔ (
        (s : Text) × (v : Version) × (match_version s ≡ some v)
        × Precedes t v
        × (satisfies_range s range ≡ ok true))
unfolding range_permits_newer
range_permits_newer_iff range target t valid =
    rw (next_patch_version_value target t valid, bound_candidates_value (words range))
      (
        λ h.
            let (s, (v, p, after, hit)) =
              some_newer_sound range target t valid (next ∷ candidates_of (words range)) all_parse
                h in
            (s, v, p, after, hit),
        λ (s, v, p, after, hit). complete s v p after hit,
      )
  where
    next : Text
    next = print_version (next_patch t)

    all_parse : All Parses (next ∷ candidates_of (words range))
    all_parse = (
      (next_patch t, match_version-print_version (next_patch t)),
      candidates_of-Parses (words range),
    )

    complete :
        (s : Text) (v : Version)
        → match_version s ≡ some v
        → Precedes t v
        → satisfies_range s range ≡ ok true
        → some_newer range target (next ∷ candidates_of (words range)) ≡ ok true
    complete s v p after hit =
        let met : MeetsAll v (words range) = met_of_satisfies s v range p hit in
        let r =
          Best-candidate v (next_patch t) next (words range)
            (match_version-print_version (next_patch t)) (not_before_next t v after)
            (All-of_MeetsAll v (words range) met) in
        some_newer_complete range target t valid (next ∷ candidates_of (words range)) r.text
          all_parse (elim r.listed [ inl q ↦ inl (sym q) | inr q ↦ inr q ])
          (
            r.best,
            r.parses,
            after_target t r.best r.from,
            satisfies_of_meets r.text r.best range r.parses
                (MeetsAll-of_All v r.best (words range) met r.meets),
          )
