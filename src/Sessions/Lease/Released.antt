-- ===== src/Sessions/Lease/Released.antt =====
-- Which leases the events released, and when there was the last activity.
use mathlib.Core.Path.{subst}
use persistent_memory_stack.Prelude.{
  ==_iff, All, Bool, Bool-cases, List, Option, [], arith, false, get_elem?, inl, inr, length,
  length-append, none, refl, some, sym, true, ℕ, ◌+◌, ◌<◌, ◌==◌, ◌↔◌, ◌∙◌, ◌∷◌, ◌≡◌, ◌≢◌, ◌⊎◌,
}
use persistent_memory_stack.Sessions.Lease.Flags.{
  All-true, Flagged, Flagged-fresh, Flagged-held, Flagged-iff, Flagged-more, Flagged-released,
  append_flag, is_freed, is_held, length-set_released, not_given, same_flag, set_released_other,
  set_released_same, true-All,
}
use persistent_memory_stack.Sessions.Lease.{
  Event, IdleLifecycle, began, begin_work, decrement, finished, handle, handle_all, release,
  set_released, start, touch, touched,
}

-- How many leases were given out.
pub given : List Event → ℕ
given [] = 0
given (began ∷ past) = given past + 1
given (touched t ∷ past) = given past
given (finished t i ∷ past) = given past

-- The lease of this number was given out, and then released.
pub IsReleased : ℕ → List Event → Type 0
unfolding given
IsReleased i [] = ⊥
IsReleased i (began ∷ past) = IsReleased i past
IsReleased i (touched t ∷ past) = IsReleased i past
IsReleased i (finished t j ∷ past) = ((i ≡ j) × (i < given past)) ⊎ IsReleased i past

abbrev pub IsHeld : ℕ → List Event → Type 0
IsHeld i past = (i < given past) × (¬ IsReleased i past)

-- The time of the last activity: the start, a touch, or the release of a lease that was held.
pub IsLastActivity : ℕ → List Event → ℕ → Type 0
IsLastActivity begun [] t = t ≡ begun
IsLastActivity begun (began ∷ past) t = IsLastActivity begun past t
IsLastActivity begun (touched u ∷ past) t = t ≡ u
IsLastActivity begun (finished u i ∷ past) t =
    (IsHeld i past × (t ≡ u)) ⊎ ((¬ IsHeld i past) × IsLastActivity begun past t)

-- What the state tells of the events, the latest first.
pub record Tells (timeout begun : ℕ) (past : List Event) (l : IdleLifecycle) : Type 0 where
  flags : (i : ℕ) → Flagged i (given past) (IsReleased i past) (get_elem? l.released i)
  count : length l.released ≡ given past
  pub time : IsLastActivity begun past l.last_activity
  pub keeps : l.timeout_ms ≡ timeout

begin_work-Tells :
    (timeout begun : ℕ) (past : List Event) (l : IdleLifecycle)
    → Tells timeout begun past l
    → Tells timeout begun (began ∷ past) (begin_work l)
unfolding begin_work given IsReleased IsLastActivity
begin_work-Tells timeout begun past l h = record {
  flags = λ i. elim (append_flag l.released i) [
    | inl (lt, e) ↦ same_flag e (Flagged-more (omega (arith, h.count)) (h.flags i))
    | inr (inl (same, e)) ↦
        same_flag e
          (is_held (omega (arith, h.count)) (Flagged-fresh (omega (arith, h.count)) (h.flags i)))
    | inr (inr (lt, e)) ↦
        same_flag e
          (not_given (omega (arith, h.count)) (Flagged-fresh (omega (arith, h.count)) (h.flags i)))
  ];
  count = omega (arith, length-append l.released (false ∷ []), h.count);
  time = h.time;
  keeps = h.keeps;
}

-- A release that finds a lease not given out, or released before, changes nothing.
ignored-Tells :
    (timeout begun u i : ℕ) (past : List Event) (l : IdleLifecycle)
    → Tells timeout begun past l
    → (i < given past → IsReleased i past)
    → Tells timeout begun (finished u i ∷ past) l
unfolding given IsReleased IsLastActivity
ignored-Tells timeout begun u i past l h was = record {
  flags = λ j.
      Flagged-iff (λ r. inr r)
        (λ s. elim s [
          | inl (e, lt) ↦
              subst (λ k. IsReleased k past) (sym e) (was (subst (λ k. k < given past) e lt))
          | inr r ↦ r
        ])
        (h.flags j);
  count = h.count;
  time = inr ((λ (lt, never). never (was lt)), h.time);
  keeps = h.keeps;
}

freed-Tells :
    (timeout begun u i : ℕ) (past : List Event) (l : IdleLifecycle)
    → Tells timeout begun past l
    → get_elem? l.released i ≡ some false
    → Tells timeout begun (finished u i ∷ past) (
        touch u (record l {
          active_work = decrement l.active_work;
          released = set_released i l.released;
        }))
unfolding given IsReleased IsLastActivity touch
freed-Tells timeout begun u i past l h e =
    let (lt, never) = Flagged-held e (h.flags i) in
    record {
      flags = λ j. elim (Bool-cases (j == i)) [
        | inl t ↦
            let same : j ≡ i = (==_iff j i).0 t in
            rw same
              (same_flag (set_released_same i l.released false e) (is_freed lt (inl (refl, lt))))
        | inr t ↦
            let other : j ≢ i = λ same. cc (t, (==_iff j i).1 same) in
            same_flag (set_released_other i j l.released other) (
              Flagged-iff (λ r. inr r)
                (λ s. elim s [ inl (same, _) ↦ absurd (other same) | inr r ↦ r ]) (h.flags j))
      ];
      count = length-set_released i l.released ∙ h.count;
      time = inl ((lt, never), refl);
      keeps = h.keeps;
    }

release-Tells :
    (timeout begun u i : ℕ) (past : List Event) (l : IdleLifecycle)
    → Tells timeout begun past l
    → Tells timeout begun (finished u i ∷ past) (release u i l)
unfolding release
release-Tells timeout begun u i past l h = by_flag (get_elem? l.released i) refl
  where
    by_flag :
        (flag : Option Bool)
        → get_elem? l.released i ≡ flag
        → Tells timeout begun (finished u i ∷ past) (elim flag [
          | none ↦ l
          | some true ↦ l
          | some false ↦ touch u (record l {
            active_work = decrement l.active_work;
            released = set_released i l.released;
          })
        ])
    by_flag none e =
        ignored-Tells timeout begun u i past l h
          (λ lt. Flagged-released lt (λ f. cc (e, f)) (h.flags i))
    by_flag (some true) e =
        ignored-Tells timeout begun u i past l h
          (λ lt. Flagged-released lt (λ f. cc (e, f)) (h.flags i))
    by_flag (some false) e = freed-Tells timeout begun u i past l h e

pub handle_all-Tells :
    (timeout begun : ℕ) (past : List Event)
    → Tells timeout begun past (handle_all past (start timeout begun))
unfolding handle_all handle start touch given IsReleased IsLastActivity
handle_all-Tells timeout begun [] = record {
  flags = λ i. not_given (omega arith) (λ never. never);
  count = refl;
  time = refl;
  keeps = refl;
}
handle_all-Tells timeout begun (began ∷ past) =
    begin_work-Tells timeout begun past _ (handle_all-Tells timeout begun past)
handle_all-Tells timeout begun (finished u i ∷ past) =
    release-Tells timeout begun u i past _ (handle_all-Tells timeout begun past)
handle_all-Tells timeout begun (touched u ∷ past) =
    let h = handle_all-Tells timeout begun past in
    record { flags = h.flags; count = h.count; time = refl; keeps = h.keeps }

-- Every lease given out was released.
abbrev pub AllReleased : List Event → Type 0
AllReleased past = (i : ℕ) → i < given past → IsReleased i past

pub AllReleased-iff :
    (timeout begun : ℕ) (past : List Event) (l : IdleLifecycle)
    → Tells timeout begun past l
    → All (λ b. b ≡ true) l.released ↔ AllReleased past
AllReleased-iff timeout begun past l h = (
  (λ every i lt. Flagged-released lt (All-true l.released i every) (h.flags i)),
  λ every.
      true-All l.released
        (λ i e. let (lt, never) = Flagged-held e (h.flags i) in never (every i lt)),
)
