-- ===== src/Resources/Recommendation/Scan.antt =====
-- Searching the assessments of the table of models.
use persistent_memory_stack.Prelude.{
  All, Bool, Bool-cases, Elem, List, [], ap, arith, false, find?, if◌then◌else◌, inl, inr, map,
  none, or_else, refl, some, true, ℕ, ◌++◌, ◌∙◌, ◌∷◌, ◌≡◌, ◌≤◌,
}
use persistent_memory_stack.Resources.Models.{ResourceModel}
use persistent_memory_stack.Resources.Evaluation.{ResourceAssessment}
use persistent_memory_stack.Resources.Recommendation.{filtered, is_recommended, reversed}

find?-append :
    (test : ResourceAssessment → Bool) (xs ys : List ResourceAssessment)
    → find? test (xs ++ ys) ≡ or_else (find? test xs) (find? test ys)
find?-append test [] ys = refl
find?-append test (x ∷ xs) ys = elim (Bool-cases (test x)) [
  | inl e ↦ rw e refl
  | inr e ↦ rw e (find?-append test xs ys)
]

unfoldable pub IsAscending : List ResourceModel → Type 0
IsAscending [] = Unit
IsAscending (m ∷ ms) = All (λ k. m.dim ≤ ResourceModel.dim k) ms × IsAscending ms

pub All-Elem :
    (P : ResourceModel → Type 0) (m : ResourceModel) (ms : List ResourceModel)
    → All P ms
    → Elem m ms
    → P m
All-Elem P m [] h e = absurd e
All-Elem P m (k ∷ ks) (p, h) (inl e) = rw (← e) p
All-Elem P m (k ∷ ks) (p, h) (inr e) = All-Elem P m ks h e

module _ (f : ResourceModel → ResourceAssessment) where
  -- The last model that passes, with the dimensions of the others, or that none passes.
  pub data IsLast (ms : List ResourceModel) : Type 0 where
    last_one :
        (m : ResourceModel)
        → find? is_recommended (reversed (map f ms)) ≡ some (f m)
        → Elem m ms
        → is_recommended (f m) ≡ true
        → All (λ k. is_recommended (f k) ≡ true → ResourceModel.dim k ≤ m.dim) ms
        → IsLast ms
    no_one :
        find? is_recommended (reversed (map f ms)) ≡ none
        → All (λ k. is_recommended (f k) ≡ false) ms
        → IsLast ms

  All-within :
      (n : ℕ) (ms : List ResourceModel)
      → All (λ k. is_recommended (f k) ≡ false) ms
      → All (λ k. is_recommended (f k) ≡ true → ResourceModel.dim k ≤ n) ms
  All-within n [] h = tt
  All-within n (m ∷ ms) (h, hs) = ((λ e. absurd (cc)), All-within n ms hs)

  pub reversed-IsLast : (ms : List ResourceModel) → IsAscending ms → IsLast ms
  unfolding IsAscending
  reversed-IsLast [] up = no_one refl tt
  reversed-IsLast (m ∷ ms) (low, up) =
      let split = find?-append is_recommended (reversed (map f ms)) (f m ∷ []) in
      elim (reversed-IsLast ms up) [
        | last_one k found listed passes bound ↦
            last_one k (split ∙ rw found refl) (inr listed) passes
              ((λ _. All-Elem (λ n. m.dim ≤ ResourceModel.dim n) k ms low listed), bound)
        | no_one missing fails ↦ elim (Bool-cases (is_recommended (f m))) [
          | inl e ↦
              last_one m (split ∙ rw (missing, e) refl) (inl refl) e
                ((λ _. omega arith), All-within m.dim ms fails)
          | inr e ↦ no_one (split ∙ rw (missing, e) refl) (e, fails)
        ]
      ]

  module _ (test : ResourceAssessment → Bool) (before : ResourceModel → Bool) where
    pub filtered-map :
        (ms : List ResourceModel)
        → All (λ m. test (f m) ≡ before m) ms
        → filtered test (map f ms) ≡ map f (filtered before ms)
    filtered-map [] h = refl
    filtered-map (m ∷ ms) (e, h) = elim (Bool-cases (before m)) [
      | inl t ↦ rw (e, t, filtered-map ms h) refl
      | inr t ↦ rw (e, t, filtered-map ms h) refl
    ]

    pub find?-map :
        (ms : List ResourceModel) (n : ResourceModel)
        → All (λ m. test (f m) ≡ before m) ms
        → find? before ms ≡ some n
        → find? test (map f ms) ≡ some (f n)
    find?-map [] n h k = absurd (cc)
    find?-map (m ∷ ms) n (e, h) k = elim (Bool-cases (before m)) [
      | inl t ↦
          let same : some m ≡ some n = rw t at k in
          let same : m ≡ n = cc in rw (e, t) (ap (λ k. some (f k)) same)
      | inr t ↦ rw (e, t) (find?-map ms n h (rw t at k))
    ]

pub All-imp :
    (P Q : ResourceModel → Type 0) (ms : List ResourceModel)
    → ((m : ResourceModel) → P m → Q m)
    → All P ms
    → All Q ms
All-imp P Q [] k h = tt
All-imp P Q (m ∷ ms) k (p, h) = (k m p, All-imp P Q ms k h)

pub All-filtered :
    (P : ResourceModel → Type 0) (ms : List ResourceModel)
    → All P (filtered ResourceModel.is_local ms)
    → All (λ m. ResourceModel.is_local m ≡ true → P m) ms
All-filtered P [] h = tt
All-filtered P (m ∷ ms) h = by_place m.is_local (All-filtered P ms) h
  where
    by_place :
        (b : Bool)
        → (All P (filtered ResourceModel.is_local ms)
            → All (λ m. ResourceModel.is_local m ≡ true → P m) ms)
        → All P (
            if b
            then m ∷ filtered ResourceModel.is_local ms
            else filtered ResourceModel.is_local ms)
        → (b ≡ true → P m) × All (λ m. ResourceModel.is_local m ≡ true → P m) ms
    by_place true rest (p, h) = ((λ _. p), rest h)
    by_place false rest h = ((λ e. absurd (cc)), rest h)
