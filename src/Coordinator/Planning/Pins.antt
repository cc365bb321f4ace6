-- ===== src/Coordinator/Planning/Pins.antt =====
-- The pins of a plan: their order by version, and what they say of the planned path.
use persistent_memory_stack.Coordinator.Published.{
  PublishedReleasePin, Sources, valid_published_pin,
}
use persistent_memory_stack.Coordinator.Published.Closure.{IsPinned}
use persistent_memory_stack.Prelude.Text.{Text, codes, text_eq}
use persistent_memory_stack.Prelude.{
  All, Bool, Bool-cases, List, [], all, and_split, ap, false, inl, inr, is_some, map, none, on_if,
  or_false, refl, some, true, ◌&&◌, ◌++◌, ◌||◌, ◌∷◌, ◌≡◌,
}
use persistent_memory_stack.Prelude.Assoc.{HasUniqueKeys, lookup}
use persistent_memory_stack.Upgrade.Lines.{versions_of}
use persistent_memory_stack.Coordinator.{has_text, is_commit, is_release_version}
use persistent_memory_stack.Coordinator.Releases.{IsDistinct, text_eq_sym}
use persistent_memory_stack.Coordinator.Planning.{insert_sorted, sort_pins}

or_swap : (a b c : Bool) → (a || (b || c)) ≡ (b || (a || c))
or_swap true true c = refl
or_swap true false c = refl
or_swap false true c = refl
or_swap false false c = refl

module _ (before : Text → Text → Bool) where
  insert_sorted-All :
      (P : Text × Text → Type 0) (e : Text × Text) (m : List (Text × Text))
      → P e
      → All P m
      → All P (insert_sorted before e m)
  unfolding insert_sorted
  insert_sorted-All P e [] p h = (p, tt)
  insert_sorted-All P e (o ∷ m) p (q, h) =
      on_if (All P) (before o.0 e.0) _ _ (λ _. (q, insert_sorted-All P e m p h)) (λ _. (p, (q, h)))

  sort_pins-All :
      (P : Text × Text → Type 0) (m : List (Text × Text)) → All P m → All P (sort_pins before m)
  unfolding sort_pins
  sort_pins-All P [] h = tt
  sort_pins-All P (e ∷ m) (p, h) =
      insert_sorted-All P e (sort_pins before m) p (sort_pins-All P m h)

  insert_sorted-has_text :
      (k : Text) (e : Text × Text) (m : List (Text × Text))
      → has_text k (versions_of (insert_sorted before e m)) ≡ has_text k (e.0 ∷ versions_of m)
  unfolding insert_sorted has_text
  insert_sorted-has_text k (j, v) [] = refl
  insert_sorted-has_text k (j, v) ((i, w) ∷ m) =
      on_if
        (λ (n : List (Text × Text)).
          has_text k (versions_of n) ≡ has_text k (j ∷ i ∷ versions_of m))
        (before i j) _ _
        (λ _.
          rw (insert_sorted-has_text k (j, v) m)
            (or_swap (text_eq k i) (text_eq k j) (has_text k (versions_of m))))
        (λ _. refl)

  sort_pins-has_text :
      (k : Text) (m : List (Text × Text))
      → has_text k (versions_of (sort_pins before m)) ≡ has_text k (versions_of m)
  unfolding sort_pins has_text
  sort_pins-has_text k [] = refl
  sort_pins-has_text k ((j, v) ∷ m) =
      rw (insert_sorted-has_text k (j, v) (sort_pins before m)) (rw (sort_pins-has_text k m) refl)

  insert_sorted-IsDistinct :
      (e : Text × Text) (m : List (Text × Text))
      → has_text e.0 (versions_of m) ≡ false
      → IsDistinct (versions_of m)
      → IsDistinct (versions_of (insert_sorted before e m))
  unfolding insert_sorted has_text
  insert_sorted-IsDistinct (j, v) [] h d = (refl, tt)
  insert_sorted-IsDistinct (j, v) ((i, w) ∷ m) h (p, d) =
      on_if (λ (n : List (Text × Text)). IsDistinct (versions_of n)) (before i j) _ _
        (λ _.
          let (differs, rest) = or_false (text_eq j i) _ h in
          (
            rw (insert_sorted-has_text i (j, v) m) (rw (text_eq_sym j i differs) p),
            insert_sorted-IsDistinct (j, v) m rest d,
          ))
        (λ _. (h, (p, d)))

  sort_pins-IsDistinct :
      (m : List (Text × Text))
      → IsDistinct (versions_of m)
      → IsDistinct (versions_of (sort_pins before m))
  unfolding sort_pins
  sort_pins-IsDistinct [] d = tt
  sort_pins-IsDistinct ((j, v) ∷ m) (p, d) =
      insert_sorted-IsDistinct (j, v) (sort_pins before m) (rw (sort_pins-has_text j m) p)
        (sort_pins-IsDistinct m d)

lookup-has_text :
    (k : Text) (m : List (Text × Text)) → has_text k (versions_of m) ≡ false → lookup k m ≡ none
unfolding lookup has_text
lookup-has_text k [] h = refl
lookup-has_text k ((j, v) ∷ m) h =
    let (differs, rest) = or_false (text_eq k j) _ h in
    rw (text_eq_sym k j differs, lookup) (lookup-has_text k m rest)

pub IsDistinct-HasUniqueKeys :
    (m : List (Text × Text)) → IsDistinct (versions_of m) → HasUniqueKeys m
unfolding HasUniqueKeys
IsDistinct-HasUniqueKeys [] d = tt
IsDistinct-HasUniqueKeys ((k, v) ∷ m) (p, d) = (lookup-has_text k m p, IsDistinct-HasUniqueKeys m d)

pub lookup_among :
    (k : Text) (m : List (Text × Text))
    → has_text k (versions_of m) ≡ true
    → is_some (lookup k m) ≡ true
unfolding lookup has_text
lookup_among k [] h = h
lookup_among k ((j, v) ∷ m) h = elim (Bool-cases (text_eq j k)) [
  | inl e ↦ rw (e, lookup) refl
  | inr e ↦ rw (e, lookup) (lookup_among k m (rw (text_eq_sym j k e) at h))
]

pub lookup_only :
    (k c : Text) (m : List (Text × Text))
    → All (λ e. text_eq e.0 k ≡ true → e.1 ≡ c) m
    → has_text k (versions_of m) ≡ true
    → lookup k m ≡ some c
unfolding lookup has_text
lookup_only k c [] a h = absurd (cc)
lookup_only k c ((j, v) ∷ m) (p, a) h = elim (Bool-cases (text_eq j k)) [
  | inl e ↦ rw (e, lookup) (ap (λ x. some x) (p e))
  | inr e ↦ rw (e, lookup) (lookup_only k c m a (rw (text_eq_sym j k e) at h))
]

pub all_of :
    {A : Type 0} (test : A → Bool) (xs : List A) → All (λ x. test x ≡ true) xs → all test xs ≡ true
all_of test [] h = refl
all_of test (x ∷ xs) (p, h) = rw p (all_of test xs h)

-- The version and the commit of each release.
abbrev pub commits_of : List (Text × PublishedReleasePin) → List (Text × Text)
commits_of releases = map (λ entry. (entry.0, entry.1.commit)) releases

commits_of-versions_of :
    (releases : List (Text × PublishedReleasePin))
    → versions_of (commits_of releases) ≡ versions_of releases
commits_of-versions_of [] = refl
commits_of-versions_of ((v, pin) ∷ releases) = ap (λ vs. v ∷ vs) (commits_of-versions_of releases)

module _ (before : Text → Text → Bool) (sources : Sources) (line : Text)
    (target : PublishedReleasePin) where
  -- A pin in form, which is the target's where the version is.
  unfoldable pub IsGoodPin : Text × Text → Type 0
  IsGoodPin (version, commit) =
      ((is_release_version version && is_commit commit) ≡ true)
      × (text_eq version target.version ≡ true → commit ≡ target.commit)

  pinned-IsGoodPin :
      (releases : List (Text × PublishedReleasePin))
      → All (IsPinned sources line target) releases
      → All IsGoodPin (commits_of releases)
  unfolding IsGoodPin valid_published_pin
  pinned-IsGoodPin [] h = tt
  pinned-IsGoodPin ((v, pin) ∷ releases) (p, h) =
      let named : pin.version ≡ v = p.named in
      let (front, c) =
        and_split (is_release_version pin.version && text_eq pin.tag (codes "v" ++ pin.version))
          (is_commit pin.commit) p.in_form in
      let (n, _) = and_split (is_release_version pin.version) _ front in
      let version : is_release_version v ≡ true = (rw named at n) in
      ((rw version c, λ t. ap (λ r. r.commit) (p.chosen t)), pinned-IsGoodPin releases h)

  pub All-left :
      {P Q : Text × Text → Type 0} (f : (e : Text × Text) → P e → Q e) (m : List (Text × Text))
      → All P m
      → All Q m
  All-left f [] h = tt
  All-left f (e ∷ m) (p, h) = (f e p, All-left f m h)

  module _ (releases : List (Text × PublishedReleasePin)) (m : List (Text × Text)) where
    -- What is needed of the pins for a plan to this target.
    pub record Pins : Type 0 where
      pub good : All IsGoodPin m
      pub separate : IsDistinct (versions_of m)
      pub covers :
          (k : Text) → has_text k (versions_of releases) ≡ true → has_text k (versions_of m) ≡ true

  pub sorted-Pins :
      (releases : List (Text × PublishedReleasePin))
      → All (IsPinned sources line target) releases
      → IsDistinct (versions_of releases)
      → Pins releases (sort_pins before (commits_of releases))
  sorted-Pins releases p d = record {
    good = sort_pins-All before IsGoodPin (commits_of releases) (pinned-IsGoodPin releases p);
    separate =
        sort_pins-IsDistinct before (commits_of releases) (rw (commits_of-versions_of releases) d);
    covers = λ k h.
        rw (sort_pins-has_text before k (commits_of releases), commits_of-versions_of releases) h;
  }
