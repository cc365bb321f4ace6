-- ===== src/Upgrade/Range/Candidates.antt =====
-- The candidates of `rangePermitsVersionNewerThan`, one of which is as good as any version.
use persistent_memory_stack.Prelude.Result.{ok}
use persistent_memory_stack.Prelude.{
  All, Elem, List, Option-cases, [], arith, inl, inr, none, refl, some, sym, ◌∙◌, ◌∷◌, ◌≡◌, ◌⊎◌,
}
use persistent_memory_stack.Prelude.Text.{Text}
use persistent_memory_stack.Upgrade.Version.{Version, match_version, next_patch, print_version}
use persistent_memory_stack.Upgrade.Version.Printing.{match_version-print_version}
use persistent_memory_stack.Upgrade.Version.Values.{next_patch_version_value}
use persistent_memory_stack.Upgrade.Version.Order.{Precedes, Precedes-irrefl}
use persistent_memory_stack.Upgrade.Range.{
  Operator, at_least, at_most, bound_candidates, exactly, less_than, match_comparison, more_than,
}
use persistent_memory_stack.Upgrade.Range.Values.{Meets, Within, match_comparison-bound}

-- A version at or above the lower bound that a comparison sets.
abbrev pub Reaches : Version → Operator → Version → Type 0
Reaches m at_least b = ¬ Precedes m b
Reaches m more_than b = Precedes b m
Reaches m exactly b = ¬ Precedes m b
Reaches m _ b = Unit

not_Precedes-trans : (a b c : Version) → ¬ Precedes a b → ¬ Precedes b c → ¬ Precedes a c
not_Precedes-trans a b c h k = ground arith

Reaches-mono :
    (m n : Version) (op : Operator) (b : Version) → ¬ Precedes n m → Reaches m op b → Reaches n op b
Reaches-mono m n at_least b h k = ground arith
Reaches-mono m n more_than b h k = ground arith
Reaches-mono m n exactly b h k = ground arith
Reaches-mono m n at_most b h k = tt
Reaches-mono m n less_than b h k = tt

-- Between the bound that is reached and a version within it lie versions within it.
Within-of_Reaches :
    (m v : Version) (op : Operator) (b : Version)
    → ¬ Precedes v m
    → Reaches m op b
    → Within v op b
    → Within m op b
Within-of_Reaches m v at_least b h k w = k
Within-of_Reaches m v more_than b h k w = k
Within-of_Reaches m v at_most b h k w = ground arith
Within-of_Reaches m v less_than b h k w = ground arith
Within-of_Reaches m v exactly b h k w = ground arith

-- The version that a comparison adds, which reaches its bound and is not past `v`.
raise :
    (m v : Version) (op : Operator) (b : Version)
    → ¬ Precedes v m
    → Within v op b
    → Reaches m op b
      ⊎ (((¬ Precedes v b) × Reaches b op b × (¬ Precedes b m))
          ⊎ ((¬ Precedes v (next_patch b))
              × Reaches (next_patch b) op b
              × (¬ Precedes (next_patch b) m)))
raise m v at_least b h w = ground arith
raise m v more_than b h w = ground arith
raise m v at_most b h w = inl tt
raise m v less_than b h w = inl tt
raise m v exactly b h w = ground arith

-- The candidates that the comparisons add, with no exception in the way.
next_text : Text → Text
next_text bound = elim (match_version bound) [ none ↦ [] | some b ↦ print_version (next_patch b) ]

pub candidates_of : List Text → List Text
candidates_of [] = []
candidates_of (c ∷ cs) =
    let rest = candidates_of cs in
    elim (match_comparison c) [ none ↦ rest | some (op, bound) ↦ bound ∷ next_text bound ∷ rest ]

module _ (c : Text) (cs : List Text) where
  candidates_of_missed : match_comparison c ≡ none → candidates_of (c ∷ cs) ≡ candidates_of cs
  unfolding candidates_of
  candidates_of_missed h = rw (h, candidates_of) refl

  candidates_of_found :
      (op : Operator) (bound : Text) (b : Version)
      → match_comparison c ≡ some (op, bound)
      → match_version bound ≡ some b
      → candidates_of (c ∷ cs) ≡ bound ∷ print_version (next_patch b) ∷ candidates_of cs
  unfolding candidates_of next_text
  candidates_of_found op bound b h k = ground arith

  bound_candidates_found :
      (op : Operator) (bound : Text) (b : Version)
      → match_comparison c ≡ some (op, bound)
      → match_version bound ≡ some b
      → bound_candidates cs ≡ ok (candidates_of cs)
      → bound_candidates (c ∷ cs) ≡ ok (bound ∷ print_version (next_patch b) ∷ candidates_of cs)
  unfolding bound_candidates
  bound_candidates_found op bound b h k ih = ground (arith, next_patch_version_value bound b k)

bound_candidates_missed :
    (c : Text) (cs : List Text)
    → match_comparison c ≡ none
    → bound_candidates (c ∷ cs) ≡ bound_candidates cs
unfolding bound_candidates
bound_candidates_missed c cs h = rw (h, bound_candidates) refl

pub bound_candidates_value : (cs : List Text) → bound_candidates cs ≡ ok (candidates_of cs)
bound_candidates_value [] = unfold bound_candidates candidates_of in refl
bound_candidates_value (c ∷ cs) = elim (Option-cases (match_comparison c)) [
  | inl missed ↦
      rw (candidates_of_missed c cs missed)
        (bound_candidates_missed c cs missed ∙ bound_candidates_value cs)
  | inr ((op, bound), h) ↦
      let (b, k) = match_comparison-bound c op bound h in
      rw (candidates_of_found c cs op bound b h k)
        (bound_candidates_found c cs op bound b h k (bound_candidates_value cs))
]

abbrev pub Parses : Text → Type 0
Parses s = (v : Version) × (match_version s ≡ some v)

pub candidates_of-Parses : (cs : List Text) → All Parses (candidates_of cs)
candidates_of-Parses [] = unfold candidates_of in tt
candidates_of-Parses (c ∷ cs) = elim (Option-cases (match_comparison c)) [
  | inl missed ↦ rw (candidates_of_missed c cs missed) (candidates_of-Parses cs)
  | inr ((op, bound), h) ↦
      let (b, k) = match_comparison-bound c op bound h in
      rw (candidates_of_found c cs op bound b h k) (
        (b, k),
        ((next_patch b, match_version-print_version (next_patch b)), candidates_of-Parses cs),
      )
]

-- A candidate that is not past `v` and not before `m`, and meets every comparison that `v` meets.
pub record Best (v : Version) (m : Version) (s : Text) (cs : List Text) : Type 0 where
  pub best : Version
  pub text : Text
  pub listed : (text ≡ s) ⊎ Elem text (candidates_of cs)
  pub parses : match_version text ≡ some best
  pub not_past : ¬ Precedes v best
  pub from : ¬ Precedes best m
  pub meets : All (Meets best) cs

pub Best-candidate :
    (v m : Version) (s : Text) (cs : List Text)
    → match_version s ≡ some m
    → ¬ Precedes v m
    → All (Meets v) cs
    → Best v m s cs
Best-candidate v m s [] p h meets = record {
  best = m;
  text = s;
  listed = inl refl;
  parses = p;
  not_past = h;
  from = Precedes-irrefl m;
  meets = tt;
}
Best-candidate v m s (c ∷ cs) p h ((op, bound, b, e, k, within), meets) =
    elim (raise m v op b h within) [
      | inl reached ↦
          extend (Best-candidate v m s cs p h meets) reached (λ u q. inl q) (Precedes-irrefl m)
      | inr (inl (below_v, reached, up)) ↦
          extend (Best-candidate v b bound cs k below_v meets) reached
            (λ u q. inr (rw (candidates_of_found c cs op bound b e k) (inl (sym q)))) up
      | inr (inr (below_v, reached, up)) ↦
          extend
            (Best-candidate v (next_patch b) (print_version (next_patch b)) cs
              (match_version-print_version (next_patch b)) below_v meets)
            reached (λ u q. inr (rw (candidates_of_found c cs op bound b e k) (inr (inl (sym q)))))
            up
    ]
  where
    extend :
        {n : Version} {t : Text}
        → Best v n t cs
        → Reaches n op b
        → ((u : Text) → u ≡ t → (u ≡ s) ⊎ Elem u (candidates_of (c ∷ cs)))
        → ¬ Precedes n m
        → Best v m s (c ∷ cs)
    extend {n} r reached place up = record {
      best = r.best;
      text = r.text;
      listed = elim r.listed [
        | inl q ↦ place r.text q
        | inr q ↦ inr (rw (candidates_of_found c cs op bound b e k) (inr (inr q)))
      ];
      parses = r.parses;
      not_past = r.not_past;
      from = not_Precedes-trans r.best n m r.from up;
      meets = (
        (
          op,
          bound,
          b,
          e,
          k,
          Within-of_Reaches r.best v op b r.not_past (Reaches-mono n r.best op b r.from reached)
              within,
        ),
        r.meets,
      );
    }
