-- ===== src/Upgrade/Version/Printing.antt =====
-- Reading back what `nextPatchVersion` prints.
use persistent_memory_stack.Prelude.{
  All, All-append, Bool-cases, [], ap, arith, false, inl, inr, ltb, refl, some, suc, true, zero, ℕ,
  ◌%◌, ◌*◌, ◌++◌, ◌+◌, ◌-◌, ◌/◌, ◌==◌, ◌∙◌, ◌∷◌, ◌≡◌, ◌≤◌,
}
use persistent_memory_stack.Prelude.Text.{Text}
use persistent_memory_stack.Upgrade.Version.{
  Version, digits, digits_from, is_digit, match_version, print_from, print_version, print_ℕ,
  split_dots,
}

digits_from-append :
    (s : Text) (n c m : ℕ)
    → is_digit c ≡ true
    → digits_from n s ≡ some m
    → digits_from n (s ++ c ∷ []) ≡ some (m * 10 + (c - 48))
unfolding digits_from
digits_from-append [] n c m d h = ground arith
digits_from-append (e ∷ s) n c m d h =
    ground (arith, digits_from-append s (n * 10 + (e - 48)) c m d)

abbrev IsNonempty : Text → Type 0
IsNonempty [] = ⊥
IsNonempty (c ∷ s) = Unit

IsNonempty-append : (s : Text) (c : ℕ) → IsNonempty (s ++ c ∷ [])
IsNonempty-append [] c = tt
IsNonempty-append (d ∷ s) c = tt

digits_of_digits_from :
    (s : Text) (n : ℕ) → IsNonempty s → digits_from 0 s ≡ some n → digits s ≡ some n
unfolding digits
digits_of_digits_from [] n k h = elim k [ ]
digits_of_digits_from (c ∷ s) n k h = h

module _ (f n : ℕ) where
  print_from_large :
      ltb n 10 ≡ false → print_from (suc f) n ≡ print_from f (n / 10) ++ (n % 10 + 48) ∷ []
  unfolding print_from
  print_from_large h = rw h

  print_from_small : ltb n 10 ≡ true → print_from (suc f) n ≡ (n + 48) ∷ []
  unfolding print_from
  print_from_small h = rw h

print_from-IsNonempty : (f n : ℕ) → IsNonempty (print_from f n)
print_from-IsNonempty zero n = unfold print_from in tt
print_from-IsNonempty (suc f) n = elim (Bool-cases (ltb n 10)) [
  | inl small ↦ rw (print_from_small f n small) tt
  | inr large ↦ rw (print_from_large f n large) (IsNonempty-append (print_from f (n / 10)) _)
]

print_from-digits : (f n : ℕ) → n ≤ f → digits_from 0 (print_from f n) ≡ some n
unfolding digits_from
print_from-digits zero n h = unfold print_from in ground arith
print_from-digits (suc f) n h = elim (Bool-cases (ltb n 10)) [
  | inl small ↦ rw (print_from_small f n small) (ground arith)
  | inr large ↦ rw (print_from_large f n large) (
      digits_from-append (print_from f (n / 10)) 0 (n % 10 + 48) (n / 10) (ground arith)
        (print_from-digits f (n / 10) (ground arith))
      ∙ ap some (omega arith))
]

digits-print_ℕ : (n : ℕ) → digits (print_ℕ n) ≡ some n
unfolding print_ℕ
digits-print_ℕ n =
    digits_of_digits_from (print_from n n) n (print_from-IsNonempty n n)
      (print_from-digits n n (omega arith))

abbrev pub HasNoDot : Text → Type 0
HasNoDot = All (λ c. (c == 46) ≡ false)

print_from-HasNoDot : (f n : ℕ) → n ≤ f → HasNoDot (print_from f n)
print_from-HasNoDot zero n h = unfold print_from in (ground arith, tt)
print_from-HasNoDot (suc f) n h = elim (Bool-cases (ltb n 10)) [
  | inl small ↦ rw (print_from_small f n small) (ground arith, tt)
  | inr large ↦ rw (print_from_large f n large) (
      All-append _ (print_from f (n / 10)) _ (print_from-HasNoDot f (n / 10) (ground arith))
        (ground arith, tt))
]

pub split_dots_end : (s : Text) → HasNoDot s → split_dots s ≡ (s, [])
unfolding split_dots
split_dots_end [] h = refl
split_dots_end (c ∷ s) (p, h) = rw (p, split_dots_end s h)

pub split_dots_dot :
    (s t : Text) → HasNoDot s → split_dots (s ++ 46 ∷ t) ≡ (s, (split_dots t).0 ∷ (split_dots t).1)
unfolding split_dots
split_dots_dot [] t h = refl
split_dots_dot (c ∷ s) t (p, h) = rw (p, split_dots_dot s t h)

print_ℕ-HasNoDot : (n : ℕ) → HasNoDot (print_ℕ n)
unfolding print_ℕ
print_ℕ-HasNoDot n = print_from-HasNoDot n n (omega arith)

-- What is printed of a version is read back as that version.
pub match_version-print_version : (v : Version) → match_version (print_version v) ≡ some v
unfolding match_version print_version
match_version-print_version v =
    rw
      (
        split_dots_dot (print_ℕ v.major) _ (print_ℕ-HasNoDot v.major),
        split_dots_dot (print_ℕ v.minor) _ (print_ℕ-HasNoDot v.minor),
        split_dots_end (print_ℕ v.patch) (print_ℕ-HasNoDot v.patch),
        digits-print_ℕ v.major,
        digits-print_ℕ v.minor,
        digits-print_ℕ v.patch,
      )
      refl
