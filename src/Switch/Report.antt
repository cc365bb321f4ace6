-- ===== src/Switch/Report.antt =====
-- What a switch that returns has done.
use persistent_memory_stack.Prelude.{
  Bool, Bool-cases, List, Option, [], any, ap, false, if◌then◌else◌, inl, inr, none, not, refl,
  select, some, true, ℕ, ◌∙◌, ◌∷◌, ◌≡◌,
}
use persistent_memory_stack.Prelude.Text.{Text, text_eq}
use persistent_memory_stack.Switch.{
  ActivePin, Fault, Faults, Outcome, RunSwitchHooks, SwitchPlan, SwitchResult, World,
  after_backfill, attempt, create_vector, delete_vector, flip, has_named_vector, result, run_switch,
  save_active, set_dual_write, step5_drop_old, throws_after, throws_before, when_needed, works,
}

-- The result tells the truth about the state: whether the target was missing, what the backfill did,
-- which pin is active, and that a dropped vector is gone, which only a flipped switch drops.
pub record IsReport (plan : SwitchPlan) (backfill : Option ℕ) (w after : World) (r : SwitchResult)
    : Type 0 where
  pub added_missing : r.added ≡ not (has_named_vector w plan.to.vector_name)
  pub all_migrated : backfill ≡ some r.migrated
  pub flipped_active : r.flipped ≡ true → after.active ≡ plan.to
  pub not_flipped_active : r.flipped ≡ false → after.active ≡ w.active
  pub dropped_gone : r.dropped ≡ true → has_named_vector after plan.from.vector_name ≡ false
  pub dropped_flipped : r.dropped ≡ true → r.flipped ≡ true

attempt-returns :
    (f : Fault) (before after : World) (k : World → Outcome) {r : SwitchResult} {end_at : World}
    → attempt f before after k ≡ (some r, end_at)
    → k after ≡ (some r, end_at)
attempt-returns works before after k h = h
attempt-returns throws_before before after k h = absurd (cc (ap (λ (o : Outcome). o.0) h))
attempt-returns throws_after before after k h = absurd (cc (ap (λ (o : Outcome). o.0) h))

any-select :
    (name : Text) (vs : List Text)
    → any (λ v. text_eq v name) (select (λ v. not (text_eq v name)) vs) ≡ false
any-select name [] = refl
any-select name (v ∷ vs) = elim (Bool-cases (text_eq v name)) [
  | inl e ↦ rw e (any-select name vs)
  | inr e ↦ rw e (rw e (any-select name vs))
]

delete_vector-gone :
    (b : Bool) (name : Text) (w : World)
    → b ≡ true
    → has_named_vector (delete_vector b name w) name ≡ false
delete_vector-gone true name w e = any-select name w.vectors
delete_vector-gone false name w e = cc

delete_vector-active :
    (b : Bool) (name : Text) (w : World) → (delete_vector b name w).active ≡ w.active
delete_vector-active true name w = refl
delete_vector-active false name w = refl

create_vector-active :
    (b : Bool) (name : Text) (w : World) → (create_vector b name w).active ≡ w.active
create_vector-active true name w = refl
create_vector-active false name w = refl

set_dual_write-active :
    (hooks : RunSwitchHooks) (pin : Option ActivePin) (w : World)
    → (set_dual_write hooks pin w).active ≡ w.active
set_dual_write-active hooks pin w = by_hook hooks.has_set_dual_write
  where
    by_hook : (b : Bool) → (if b then record w { dual_write = pin } else w).active ≡ w.active
    by_hook true = refl
    by_hook false = refl

-- The later steps, from a state with a certain active pin.
pub record IsRest (plan : SwitchPlan) (added : Bool) (backfill : Option ℕ) (active : ActivePin)
    (after : World) (r : SwitchResult) : Type 0 where
  pub same_added : r.added ≡ added
  pub same_migrated : backfill ≡ some r.migrated
  pub to_active : r.flipped ≡ true → after.active ≡ plan.to
  pub kept_active : r.flipped ≡ false → after.active ≡ active
  pub is_gone : r.dropped ≡ true → has_named_vector after plan.from.vector_name ≡ false
  pub only_flipped : r.dropped ≡ true → r.flipped ≡ true

-- A result as it is written, with the state that goes with it.
settle :
    (plan : SwitchPlan) (added : Bool) (migrated : ℕ) (flipped dropped : Bool) (active : ActivePin)
    (w after : World) (r : SwitchResult)
    → ◌≡◌ {A = Outcome} (result added migrated flipped dropped, w) (some r, after)
    → (flipped ≡ true → w.active ≡ plan.to)
    → (flipped ≡ false → w.active ≡ active)
    → (dropped ≡ true → has_named_vector w plan.from.vector_name ≡ false)
    → (dropped ≡ true → flipped ≡ true)
    → IsRest plan added (some migrated) active after r
settle plan added migrated flipped dropped active w after r h f g d o =
    let state : w ≡ after = ap (λ (o : Outcome). o.1) h in
    let same : ◌≡◌ {A = SwitchResult}
        (record { added = added; migrated = migrated; flipped = flipped; dropped = dropped }) r =
      some-injective (ap (λ (o : Outcome). o.0) h) in
    rw (← same, ← state)
      (record {
        same_added = refl;
        same_migrated = refl;
        to_active = f;
        kept_active = g;
        is_gone = d;
        only_flipped = o;
      })
  where
    some-injective : {a b : SwitchResult} → ◌≡◌ {A = Option SwitchResult} (some a) (some b) → a ≡ b
    some-injective e = cc

module _ (faults : Faults) (plan : SwitchPlan) (hooks : RunSwitchHooks) where
  step5_drop_old-IsRest :
      (added : Bool) (migrated : ℕ) (active : ActivePin) (w after : World) (r : SwitchResult)
      → w.active ≡ plan.to
      → step5_drop_old faults plan hooks added migrated w ≡ (some r, after)
      → IsRest plan added (some migrated) active after r
  unfolding step5_drop_old
  step5_drop_old-IsRest added migrated active w after r moved h =
      let dropped = has_named_vector w plan.from.vector_name in
      let last = delete_vector dropped plan.from.vector_name w in
      let h = attempt-returns faults.look_for_old w w _ h in
      let h = attempt-returns (when_needed dropped faults.delete_name) w last _ h in
      settle plan added migrated true dropped active last after r h
        (λ e. delete_vector-active dropped plan.from.vector_name w ∙ moved) (λ e. absurd (cc e))
        (delete_vector-gone dropped plan.from.vector_name w) (λ e. refl)

  flip-IsRest :
      (added : Bool) (migrated : ℕ) (active : ActivePin) (w after : World) (r : SwitchResult)
      → flip faults plan hooks added migrated w ≡ (some r, after)
      → IsRest plan added (some migrated) active after r
  unfolding flip
  flip-IsRest added migrated active w after r h =
      by_drop hooks.no_drop (attempt-returns faults.save_pin w flipped _ h)
    where
      flipped : World
      flipped = save_active plan.to w

      off : World
      off = set_dual_write hooks none flipped

      by_drop :
          (stop : Bool)
          → ◌≡◌ {A = Outcome}
              (if stop
                then (result added migrated true false, flipped)
                else attempt
                    (when_needed hooks.has_set_dual_write faults.disable_dual)
                    flipped
                    off
                    (step5_drop_old faults plan hooks added migrated))
              (some r, after)
          → IsRest plan added (some migrated) active after r
      by_drop true h =
          settle plan added migrated true false active flipped after r h (λ e. refl)
            (λ e. absurd (cc e)) (λ e. absurd (cc e)) (λ e. refl)
      by_drop false h =
          step5_drop_old-IsRest added migrated active off after r
            (set_dual_write-active hooks none flipped)
            (attempt-returns (when_needed hooks.has_set_dual_write faults.disable_dual) flipped off
              _ h)

  after_backfill-IsRest :
      (added : Bool) (backfill : Option ℕ) (w after : World) (r : SwitchResult)
      → after_backfill faults plan hooks added backfill w ≡ (some r, after)
      → IsRest plan added backfill w.active after r
  unfolding after_backfill
  after_backfill-IsRest added none w after r h = absurd (cc (ap (λ (o : Outcome). o.0) h))
  after_backfill-IsRest added (some migrated) w after r h = by_stop hooks.no_flip h
    where
      by_stop :
          (stop : Bool)
          → ◌≡◌ {A = Outcome}
              (if stop
                then (result added migrated false false, w)
                else flip faults plan hooks added migrated w)
              (some r, after)
          → IsRest plan added (some migrated) w.active after r
      by_stop true h =
          settle plan added migrated false false w.active w after r h (λ e. absurd (cc e))
            (λ e. refl) (λ e. absurd (cc e)) (λ e. absurd (cc e))
      by_stop false h = flip-IsRest added migrated w.active w after r h

  -- If the switch returns, its result reports the state it leaves.
  run_switch-IsReport :
      (backfill : Option ℕ) (w after : World) (r : SwitchResult)
      → run_switch faults plan hooks backfill w ≡ (some r, after)
      → IsReport plan backfill w after r
  unfolding run_switch
  run_switch-IsReport backfill w after r h =
      let added = not (has_named_vector w plan.to.vector_name) in
      let created = create_vector added plan.to.vector_name w in
      let on = set_dual_write hooks (some plan.to) created in
      let h = attempt-returns faults.look_for_target w w _ h in
      let h = attempt-returns (when_needed added faults.create_name) w created _ h in
      let h =
        attempt-returns (when_needed hooks.has_set_dual_write faults.enable_dual) created on _ h in
      let rest = after_backfill-IsRest added backfill on after r h in
      record {
        added_missing = rest.same_added;
        all_migrated = rest.same_migrated;
        flipped_active = rest.to_active;
        not_flipped_active = λ e.
            rest.kept_active e
            ∙ set_dual_write-active hooks (some plan.to) created
            ∙ create_vector-active added plan.to.vector_name w;
        dropped_gone = rest.is_gone;
        dropped_flipped = rest.only_flipped;
      }
