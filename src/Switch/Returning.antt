-- ===== src/Switch/Returning.antt =====
-- That a switch returns.
use mathlib.Core.Path.{subst}
use persistent_memory_stack.Prelude.{
  Bool, Bool-cases, Elem, List, Option, [], any, false, if◌then◌else◌, inl, inr, none, not, on_if,
  or_false, refl, select, some, sym, true, ℕ, ◌||◌, ◌∙◌, ◌∷◌, ◌≡◌,
}
use persistent_memory_stack.Prelude.Text.{Text, text_eq, text_eq_iff}
use persistent_memory_stack.Switch.{
  ActivePin, Faults, Outcome, RunSwitchHooks, SwitchPlan, SwitchResult, World, after_backfill,
  attempt, create_vector, delete_vector, flip, has_named_vector, result, run_switch, save_active,
  set_dual_write, step5_drop_old, when_needed, works,
}

-- No call throws.
abbrev pub all_work : Faults
all_work = record {
  look_for_target = works;
  create_name = works;
  enable_dual = works;
  save_pin = works;
  disable_dual = works;
  look_for_old = works;
  delete_name = works;
}

attempt-works :
    (b : Bool) (before after : World) (k : World → Outcome)
    → attempt (when_needed b works) before after k ≡ k after
attempt-works true before after k = refl
attempt-works false before after k = refl

any-Elem : (name : Text) (vs : List Text) → any (λ v. text_eq v name) vs ≡ false → ¬ Elem name vs
any-Elem name [] h = λ m. m
any-Elem name (v ∷ vs) h =
    let (first, rest) = or_false (text_eq v name) (any (λ v. text_eq v name) vs) h in
    λ m. elim m [ inl e ↦ cc (first, (text_eq_iff v name).1 e) | inr k ↦ any-Elem name vs rest k ]

select-Elem : (name : Text) (vs : List Text) → ¬ Elem name (select (λ v. not (text_eq v name)) vs)
select-Elem name [] = λ m. m
select-Elem name (v ∷ vs) = elim (Bool-cases (text_eq v name)) [
  | inl e ↦ rw e (select-Elem name vs)
  | inr e ↦
      rw e
        (λ m. elim m [ inl k ↦ cc (e, (text_eq_iff v name).1 k) | inr k ↦ select-Elem name vs k ])
]

-- After the last step the old vector is gone, and the pin is as it was before it.
abbrev IsDropped : Text → World → World → Type 0
IsDropped name w u = (¬ Elem name u.vectors) × (u.active ≡ w.active)

delete_vector-IsDropped :
    (name : Text) (w : World) → IsDropped name w (delete_vector (has_named_vector w name) name w)
delete_vector-IsDropped name w = elim (Bool-cases (has_named_vector w name)) [
  | inl e ↦ rw e (select-Elem name w.vectors, refl)
  | inr e ↦ rw e (any-Elem name w.vectors e, refl)
]

-- It returned that it flipped and how much was migrated, with this pin active; and unless it was told
-- to keep it, the vector of this name is gone.
abbrev pub Returns : Bool → ℕ → ActivePin → Bool → Text → Outcome → Type 0
Returns flipped migrated pin keeps old o =
    (r : SwitchResult) × (o.0 ≡ some r)
    × (r.flipped ≡ flipped)
    × (r.migrated ≡ migrated)
    × (o.1.active ≡ pin)
    × (keeps ≡ false → ¬ Elem old o.1.vectors)

set_dual_write-active :
    (hooks : RunSwitchHooks) (target : Option ActivePin) (w : World)
    → (set_dual_write hooks target w).active ≡ w.active
set_dual_write-active hooks target w =
    on_if (λ (u : World). u.active ≡ w.active) hooks.has_set_dual_write _ _ (λ _. refl) (λ _. refl)

create_vector-active :
    (added : Bool) (name : Text) (w : World) → (create_vector added name w).active ≡ w.active
create_vector-active true name w = refl
create_vector-active false name w = refl

module _ (plan : SwitchPlan) (hooks : RunSwitchHooks) where
  step5_drop_old-Returns :
      (added keeps : Bool) (migrated : ℕ) (w : World)
      → Returns true migrated w.active keeps plan.from.vector_name
          (step5_drop_old all_work plan hooks added migrated w)
  unfolding step5_drop_old
  step5_drop_old-Returns added keeps migrated w =
      let (gone, same) = delete_vector-IsDropped plan.from.vector_name w in
      rw
        (attempt-works (has_named_vector w plan.from.vector_name) w
          (delete_vector (has_named_vector w plan.from.vector_name) plan.from.vector_name w)
          (λ w2. (result added migrated true (has_named_vector w plan.from.vector_name), w2)))
        (_, refl, refl, refl, same, λ _. gone)

  flip-Returns :
      (added : Bool) (migrated : ℕ) (w : World)
      → Returns true migrated plan.to hooks.no_drop plan.from.vector_name
          (flip all_work plan hooks added migrated w)
  unfolding flip
  flip-Returns added migrated w = by_drop hooks.no_drop
    where
      flipped : World
      flipped = save_active plan.to w

      rest : World → Outcome
      rest = step5_drop_old all_work plan hooks added migrated

      off : World
      off = set_dual_write hooks none (save_active plan.to w)

      pin : off.active ≡ plan.to
      pin = set_dual_write-active hooks none (save_active plan.to w)

      by_drop :
          (stop : Bool)
          → Returns true migrated plan.to stop plan.from.vector_name (
              if stop
              then (result added migrated true false, flipped)
              else attempt
                  (when_needed hooks.has_set_dual_write works)
                  flipped
                  (set_dual_write hooks none flipped)
                  rest)
      by_drop true = (_, refl, refl, refl, refl, λ e. absurd (cc e))
      by_drop false =
          rw
            (attempt-works hooks.has_set_dual_write flipped (set_dual_write hooks none flipped)
              rest)
            (subst (λ p. Returns true migrated p false plan.from.vector_name (rest off)) pin
              (step5_drop_old-Returns added false migrated off))

  -- The pin that is active after a switch that was told to stop before the flip, or not.
  abbrev pub last_pin : World → ActivePin
  last_pin w = if hooks.no_flip then w.active else plan.to

  after_backfill-Returns :
      (added : Bool) (migrated : ℕ) (w : World)
      → Returns
          (not hooks.no_flip)
          migrated
          (last_pin w)
          (hooks.no_flip || hooks.no_drop)
          plan.from.vector_name
          (after_backfill all_work plan hooks added (some migrated) w)
  unfolding after_backfill
  after_backfill-Returns added migrated w = by_stop hooks.no_flip
    where
      by_stop :
          (stop : Bool)
          → Returns
              (not stop)
              migrated
              (if stop then w.active else plan.to)
              (stop || hooks.no_drop)
              plan.from.vector_name
              (if stop
                then (result added migrated false false, w)
                else flip all_work plan hooks added migrated w)
      by_stop true = (_, refl, refl, refl, refl, λ e. absurd (cc e))
      by_stop false = flip-Returns added migrated w

  -- If no call throws and the backfill ends, the switch returns, and says how much was migrated and
  -- that it flipped, unless it was told not to. Then the active pin is the plan's new one, or the one
  -- before if it did not flip; and after a flip, unless it was told not to drop, the collection no
  -- longer has the old vector.
  pub run_switch-Returns :
      (migrated : ℕ) (w : World)
      → Returns
          (not hooks.no_flip)
          migrated
          (last_pin w)
          (hooks.no_flip || hooks.no_drop)
          plan.from.vector_name
          (run_switch all_work plan hooks (some migrated) w)
  unfolding run_switch
  run_switch-Returns migrated w =
      let added = not (has_named_vector w plan.to.vector_name) in
      let created = create_vector added plan.to.vector_name w in
      let on = set_dual_write hooks (some plan.to) created in
      let last = after_backfill all_work plan hooks added (some migrated) in
      let first_two =
        attempt-works added w created (λ w2.
          attempt (when_needed hooks.has_set_dual_write works) w2
            (set_dual_write hooks (some plan.to) w2) last)
        ∙ attempt-works hooks.has_set_dual_write created on last in
      let same : on.active ≡ w.active =
        set_dual_write-active hooks (some plan.to) created
        ∙ create_vector-active added plan.to.vector_name w in
      subst
        (Returns (not hooks.no_flip) migrated (last_pin w) (hooks.no_flip || hooks.no_drop)
          plan.from.vector_name)
        (sym first_two)
        (subst
          (λ p.
            Returns (not hooks.no_flip) migrated (if hooks.no_flip then p else plan.to)
              (hooks.no_flip || hooks.no_drop) plan.from.vector_name (last on))
          same (after_backfill-Returns added migrated on))
