-- ===== src/Sessions/Lease/Flags.antt =====
-- What the list of flags says of the leases.
use persistent_memory_stack.Prelude.{
  All, Bool, List, Option, [], arith, false, get_elem?, inl, inr, length, none, refl, some, suc,
  true, zero, ℕ, ◌++◌, ◌+◌, ◌<◌, ◌∷◌, ◌≡◌, ◌≢◌, ◌≤◌, ◌⊎◌,
}
use persistent_memory_stack.Sessions.Lease.{set_released}

-- What a flag says of a lease, of the number given out and that it was released.
pub data Flagged (i n : ℕ) (R : Type 0) : Option Bool → Type 0 where
  not_given : n ≤ i → ¬ R → Flagged i n R none
  is_held : i < n → ¬ R → Flagged i n R (some false)
  is_freed : i < n → R → Flagged i n R (some true)

pub same_flag :
    {i n : ℕ} {R : Type 0} {f g : Option Bool} → f ≡ g → Flagged i n R f → Flagged i n R g
same_flag e h = rw (← e) h

pub Flagged-iff :
    {i n : ℕ} {R S : Type 0} {f : Option Bool}
    → (R → S)
    → (S → R)
    → Flagged i n R f
    → Flagged i n S f
Flagged-iff to from (not_given le never) = not_given le (λ s. never (from s))
Flagged-iff to from (is_held lt never) = is_held lt (λ s. never (from s))
Flagged-iff to from (is_freed lt r) = is_freed lt (to r)

pub Flagged-more :
    {i n : ℕ} {R : Type 0} {f : Option Bool} → i < n → Flagged i n R f → Flagged i (n + 1) R f
Flagged-more lt (not_given le never) = absurd (omega arith)
Flagged-more lt (is_held _ never) = is_held (omega arith) never
Flagged-more lt (is_freed _ r) = is_freed (omega arith) r

pub Flagged-fresh : {i n : ℕ} {R : Type 0} {f : Option Bool} → n ≤ i → Flagged i n R f → ¬ R
Flagged-fresh le (not_given _ never) = never
Flagged-fresh le (is_held _ never) = never
Flagged-fresh le (is_freed lt _) = λ r. absurd (omega arith)

pub Flagged-released :
    {i n : ℕ} {R : Type 0} {f : Option Bool} → i < n → f ≢ some false → Flagged i n R f → R
Flagged-released lt other (not_given le _) = absurd (omega arith)
Flagged-released lt other (is_held _ _) = absurd (other refl)
Flagged-released lt other (is_freed _ r) = r

pub Flagged-held :
    {i n : ℕ} {R : Type 0} {f : Option Bool} → f ≡ some false → Flagged i n R f → (i < n) × (¬ R)
Flagged-held e (not_given le never) = absurd (cc e)
Flagged-held e (is_held lt never) = (lt, never)
Flagged-held e (is_freed lt r) = absurd (cc e)

-- The flag of a lease after one more was given out.
pub append_flag :
    (bs : List Bool) (i : ℕ)
    → let f = get_elem? (bs ++ (false ∷ [])) i in
      ((i < length bs) × (get_elem? bs i ≡ f))
      ⊎ ((i ≡ length bs) × (some false ≡ f))
      ⊎ ((length bs < i) × (none ≡ f))
append_flag [] zero = inr (inl (refl, refl))
append_flag [] (suc i) = inr (inr (omega arith, refl))
append_flag (b ∷ bs) zero = inl (omega arith, refl)
append_flag (b ∷ bs) (suc i) = elim (append_flag bs i) [
  | inl (lt, e) ↦ inl (omega arith, e)
  | inr (inl (same, e)) ↦ inr (inl (omega arith, e))
  | inr (inr (lt, e)) ↦ inr (inr (omega arith, e))
]

pub length-set_released : (i : ℕ) (bs : List Bool) → length (set_released i bs) ≡ length bs
unfolding set_released
length-set_released i [] = refl
length-set_released zero (b ∷ bs) = refl
length-set_released (suc i) (b ∷ bs) = rw (length-set_released i bs) refl

pub set_released_same :
    (i : ℕ) (bs : List Bool) (b : Bool)
    → get_elem? bs i ≡ some b
    → some true ≡ get_elem? (set_released i bs) i
unfolding set_released
set_released_same i [] b h = absurd (cc h)
set_released_same zero (c ∷ bs) b h = refl
set_released_same (suc i) (c ∷ bs) b h = set_released_same i bs b h

pub set_released_other :
    (i j : ℕ) (bs : List Bool) → j ≢ i → get_elem? bs j ≡ get_elem? (set_released i bs) j
unfolding set_released
set_released_other i j [] n = refl
set_released_other zero zero (c ∷ bs) n = absurd (n refl)
set_released_other zero (suc j) (c ∷ bs) n = refl
set_released_other (suc i) zero (c ∷ bs) n = refl
set_released_other (suc i) (suc j) (c ∷ bs) n = set_released_other i j bs (λ e. n (omega arith))

pub All-true : (bs : List Bool) (i : ℕ) → All (λ b. b ≡ true) bs → get_elem? bs i ≢ some false
All-true [] i h = λ e. cc e
All-true (b ∷ bs) zero (p, h) = λ e. cc (p, e)
All-true (b ∷ bs) (suc i) (p, h) = All-true bs i h

pub true-All : (bs : List Bool) → ((i : ℕ) → get_elem? bs i ≢ some false) → All (λ b. b ≡ true) bs
true-All [] h = tt
true-All (true ∷ bs) h = (refl, true-All bs (λ i. h (suc i)))
true-All (false ∷ bs) h = absurd (h 0 refl)
