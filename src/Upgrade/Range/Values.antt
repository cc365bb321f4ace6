-- ===== src/Upgrade/Range/Values.antt =====
-- The range functions on versions that parse: no exception, and a Boolean on parsed versions.
use persistent_memory_stack.Prelude.Result.{ok}
use persistent_memory_stack.Prelude.{
  All, Bool-cases, List, Option, Option-cases, [], ap, arith, false, inl, inr, none, refl, some,
  true, ◌↔◌, ◌∙◌, ◌∷◌, ◌≡◌, ◌⊎◌,
}
use persistent_memory_stack.Prelude.Text.{Text}
use persistent_memory_stack.Upgrade.Version.{Version, compare_parsed, match_version}
use persistent_memory_stack.Upgrade.Version.Order.{Precedes}
use persistent_memory_stack.Upgrade.Version.Values.{compare_versions_value}
use persistent_memory_stack.Upgrade.Range.{
  Operator, at_least, at_most, comparison_of, exactly, holds, less_than, match_comparison,
  more_than, satisfies_comparison, satisfies_every, satisfies_nonempty, satisfies_range,
  split_operator, words,
}

comparison_of-bound :
    (op' : Operator) (version : Text) (parsed : Option Version) (op : Operator) (bound : Text)
    → comparison_of op' version parsed ≡ some (op, bound)
    → match_version version ≡ parsed
    → (b : Version) × (match_version bound ≡ some b)
unfolding comparison_of
comparison_of-bound op' version none op bound h e = cc
comparison_of-bound op' version (some b) op bound h e = (b, ground arith)

-- A comparison's version is one that parses.
pub match_comparison-bound :
    (c : Text) (op : Operator) (bound : Text)
    → match_comparison c ≡ some (op, bound)
    → (b : Version) × (match_version bound ≡ some b)
unfolding match_comparison
match_comparison-bound c op bound h =
    comparison_of-bound (split_operator c).0 (split_operator c).1
      (match_version (split_operator c).1) op bound h refl

-- What a comparison says of a parsed version.
abbrev pub Within : Version → Operator → Version → Type 0
Within v at_least b = ¬ Precedes v b
Within v more_than b = Precedes b v
Within v at_most b = ¬ Precedes b v
Within v less_than b = Precedes v b
Within v exactly b = v ≡ b

holds_iff : (op : Operator) (v b : Version) → (holds op (compare_parsed v b) ≡ true) ↔ Within v op b
unfolding holds compare_parsed
holds_iff at_least v b = ground arith
holds_iff more_than v b = ground arith
holds_iff at_most v b = ground arith
holds_iff less_than v b = ground arith
holds_iff exactly v b = ground arith

-- A version meets a comparison that is well formed, and is within its bound.
abbrev pub Meets : Version → Text → Type 0
Meets v c =
    (op : Operator) × (bound : Text) × (b : Version) × (match_comparison c ≡ some (op, bound))
    × (match_version bound ≡ some b)
    × Within v op b

module _ (version : Text) (v : Version) (valid : match_version version ≡ some v) where
  satisfies_comparison_value :
      (c : Text) (op : Operator) (bound : Text) (b : Version)
      → match_comparison c ≡ some (op, bound)
      → match_version bound ≡ some b
      → satisfies_comparison version c ≡ ok (holds op (compare_parsed v b))
  unfolding satisfies_comparison
  satisfies_comparison_value c op bound b h k =
      rw (h, satisfies_comparison, compare_versions_value version v valid bound b k) refl

  satisfies_comparison_missed :
      (c : Text) → match_comparison c ≡ none → satisfies_comparison version c ≡ ok false
  unfolding satisfies_comparison
  satisfies_comparison_missed c h = rw (h, satisfies_comparison) refl

  holds_of_Meets :
      (c : Text) (op : Operator) (bound : Text) (b : Version)
      → match_comparison c ≡ some (op, bound)
      → match_version bound ≡ some b
      → Meets v c
      → holds op (compare_parsed v b) ≡ true
  holds_of_Meets c op bound b h k (op', bound', b', h', k', within) =
      cc (h, h', k, k', (holds_iff op' v b').1 within)

  -- On a version that parses, a comparison raises nothing, and it passes exactly when it is met.
  satisfies_comparison_cases :
      (c : Text)
      → ((satisfies_comparison version c ≡ ok true) × Meets v c)
        ⊎ ((satisfies_comparison version c ≡ ok false) × (¬ Meets v c))
  satisfies_comparison_cases c = elim (Option-cases (match_comparison c)) [
    | inl missed ↦ inr (satisfies_comparison_missed c missed, λ m. ground (arith, m.3))
    | inr (found, h) ↦ decide found.0 found.1 h (match_comparison-bound c found.0 found.1 h)
  ]
    where
      decide :
          (op : Operator) (bound : Text)
          → match_comparison c ≡ some (op, bound)
          → (b : Version) × (match_version bound ≡ some b)
          → ((satisfies_comparison version c ≡ ok true) × Meets v c)
            ⊎ ((satisfies_comparison version c ≡ ok false) × (¬ Meets v c))
      decide op bound h (b, k) = elim (Bool-cases (holds op (compare_parsed v b))) [
        | inl pass ↦ inl (
          satisfies_comparison_value c op bound b h k ∙ ap ok pass,
          (op, bound, b, h, k, (holds_iff op v b).0 pass),
        )
        | inr fail ↦ inr (
          satisfies_comparison_value c op bound b h k ∙ ap ok fail,
          λ m. ground (arith, fail, holds_of_Meets c op bound b h k m),
        )
      ]

  satisfies_every_cases :
      (cs : List Text)
      → ((satisfies_every version cs ≡ ok true) × All (Meets v) cs)
        ⊎ ((satisfies_every version cs ≡ ok false) × (¬ All (Meets v) cs))
  unfolding satisfies_every
  satisfies_every_cases [] = inl (refl, tt)
  satisfies_every_cases (c ∷ cs) = elim (satisfies_comparison_cases c) [
    | inr (fail, refuted) ↦ inr (rw fail refl, λ m. refuted m.0)
    | inl (pass, met) ↦ elim (satisfies_every_cases cs) [
      | inl (later, others) ↦ inl (rw pass later, (met, others))
      | inr (later, refuted) ↦ inr (rw pass later, λ m. refuted m.1)
    ]
  ]

abbrev pub MeetsAll : Version → List Text → Type 0
MeetsAll v [] = ⊥
MeetsAll v (c ∷ cs) = All (Meets v) (c ∷ cs)

-- On a version that parses, a range raises nothing, and it is satisfied exactly when it has a
-- comparison and the version meets them all.
pub satisfies_range_cases :
    (version : Text) (v : Version) (range : Text)
    → match_version version ≡ some v
    → ((satisfies_range version range ≡ ok true) × MeetsAll v (words range))
      ⊎ ((satisfies_range version range ≡ ok false) × (¬ MeetsAll v (words range)))
unfolding satisfies_range
satisfies_range_cases version v range valid = by_words (words range)
  where
    by_words :
        (cs : List Text)
        → ((satisfies_nonempty version cs ≡ ok true) × MeetsAll v cs)
          ⊎ ((satisfies_nonempty version cs ≡ ok false) × (¬ MeetsAll v cs))
    by_words [] = inr (refl, λ m. m)
    by_words (c ∷ cs) = satisfies_every_cases version v valid (c ∷ cs)
