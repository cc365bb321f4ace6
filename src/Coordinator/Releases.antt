-- ===== src/Coordinator/Releases.antt =====
-- Lists of releases as sets.
use persistent_memory_stack.Prelude.Text.{Text, text_eq, text_eq_iff, text_eq_refl}
use persistent_memory_stack.Prelude.{
  All, Bool-cases, List, Option, [], ap, false, inl, inr, none, or_false, refl, some, sym, true,
  ◌++◌, ◌∷◌, ◌≡◌,
}
use persistent_memory_stack.Coordinator.{has_text, same_text}

-- No release of a path occurs twice.
abbrev pub IsDistinct : List Text → Type 0
IsDistinct [] = Unit
IsDistinct (release ∷ path) = (has_text release path ≡ false) × IsDistinct path

pub text_eq_sym : (s t : Text) → text_eq s t ≡ false → text_eq t s ≡ false
text_eq_sym s t h = elim (Bool-cases (text_eq t s)) [
  | inr e ↦ e
  | inl e ↦ absurd (cc (h, (text_eq_iff s t).1 (sym ((text_eq_iff t s).0 e))))
]

pub has_text-append :
    (r : Text) (xs ys : List Text) → has_text r xs ≡ true → has_text r (xs ++ ys) ≡ true
unfolding has_text
has_text-append r [] ys h = absurd (cc)
has_text-append r (x ∷ xs) ys h = elim (Bool-cases (text_eq r x)) [
  | inl e ↦ rw e refl
  | inr e ↦ rw e (has_text-append r xs ys (rw e at h))
]

-- A hop that is left is not among the ones before it.
pub open_hop :
    (done : List Text) (r : Text) (rest : List Text)
    → IsDistinct (done ++ r ∷ rest)
    → has_text r done ≡ false
unfolding has_text
open_hop [] r rest h = refl
open_hop (d ∷ done) r rest (p, h) =
    rw (text_eq_sym d r (head_differs d done r rest p)) (open_hop done r rest h)
  where
    head_differs :
        (d : Text) (done : List Text) (r : Text) (rest : List Text)
        → has_text d (done ++ r ∷ rest) ≡ false
        → text_eq d r ≡ false
    head_differs d [] r rest p = (or_false _ _ p).0
    head_differs d (x ∷ done) r rest p = head_differs d done r rest (or_false _ _ p).1

unfoldable pub HasDone : List Text → List Text → Type 0
HasDone releases completed = All (λ r. has_text r completed ≡ true) releases

pub has_text-later :
    (r x : Text) (xs : List Text) → has_text r xs ≡ true → has_text r (x ∷ xs) ≡ true
unfolding has_text
has_text-later r x xs h = elim (Bool-cases (text_eq r x)) [ inl e ↦ rw e refl | inr e ↦ rw e h ]

HasDone-later : (x : Text) (rs xs : List Text) → HasDone rs xs → HasDone rs (x ∷ xs)
unfolding HasDone
HasDone-later x [] xs h = tt
HasDone-later x (r ∷ rs) xs (p, h) = (has_text-later r x xs p, HasDone-later x rs xs h)

pub HasDone-self : (rs : List Text) → HasDone rs rs
unfolding HasDone has_text
HasDone-self [] = tt
HasDone-self (r ∷ rs) = (rw (text_eq_refl r) refl, HasDone-later r rs rs (HasDone-self rs))

pub same_text_value : (o : Option Text) (t : Text) → same_text o (some t) ≡ true → o ≡ some t
unfolding same_text
same_text_value none t h = absurd (cc)
same_text_value (some s) t h = ap (λ x. some x) ((text_eq_iff s t).0 h)
