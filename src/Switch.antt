-- ===== src/Switch.antt =====
-- packages/shared/src/switch/run.ts and migration.ts: the switch of the embedding model, call by
-- call. The collection, the pin and the flag live elsewhere; here they are one state, and each call
-- may throw before its effect or after it. The backfill is a parameter: how many points it migrated,
-- or nothing if it throws; it adds and removes no vector name.
pub mod Reads
pub mod Report
pub mod Returning
use persistent_memory_stack.Prelude.{
  Bool, List, Option, any, false, if◌then◌else◌, none, not, select, some, true, ℕ, ◌∷◌,
}
use persistent_memory_stack.Prelude.Text.{Text, text_eq}

pub record ActivePin : Type 0 where
  pub model_id : Text
  pub dim : ℕ
  pub vector_name : Text

pub record SwitchPlan : Type 0 where
  pub from : ActivePin
  pub to : ActivePin

pub record World : Type 0 where
  pub vectors : List Text
  pub active : ActivePin
  pub dual_write : Option ActivePin

pub data Fault : Type 0 where
  works throws_before throws_after : Fault

-- How each call goes, in the order of the calls.
pub record Faults : Type 0 where
  pub look_for_target : Fault
  pub create_name : Fault
  pub enable_dual : Fault
  pub save_pin : Fault
  pub disable_dual : Fault
  pub look_for_old : Fault
  pub delete_name : Fault

pub record RunSwitchHooks : Type 0 where
  pub has_set_dual_write : Bool
  pub no_flip : Bool
  pub no_drop : Bool

pub record SwitchResult : Type 0 where
  pub added : Bool
  pub migrated : ℕ
  pub flipped : Bool
  pub dropped : Bool

-- What `runSwitch` returns, nothing if it throws, and the state that it leaves.
abbrev pub Outcome : Type 0
Outcome = Option SwitchResult × World

abbrev pub attempt : Fault → World → World → (World → Outcome) → Outcome
attempt works before after k = k after
attempt throws_before before after k = (none, before)
attempt throws_after before after k = (none, after)

abbrev pub has_named_vector : World → Text → Bool
has_named_vector w name = any (λ v. text_eq v name) w.vectors

-- A call that is made only under a condition.
abbrev pub when_needed : Bool → Fault → Fault
when_needed true f = f
when_needed false f = works

abbrev pub create_vector : Bool → Text → World → World
create_vector added name w = if added then record w { vectors = name ∷ w.vectors } else w

abbrev pub set_dual_write : RunSwitchHooks → Option ActivePin → World → World
set_dual_write hooks target w =
    if hooks.has_set_dual_write then record w { dual_write = target } else w

abbrev pub save_active : ActivePin → World → World
save_active pin w = record w { active = pin }

abbrev pub delete_vector : Bool → Text → World → World
delete_vector dropped name w =
    if dropped then record w { vectors = select (λ v. not (text_eq v name)) w.vectors } else w

abbrev pub result : Bool → ℕ → Bool → Bool → Option SwitchResult
result added migrated flipped dropped =
    some (record { added = added; migrated = migrated; flipped = flipped; dropped = dropped })

module _ (faults : Faults) (plan : SwitchPlan) (hooks : RunSwitchHooks) where
  step5_drop_old : Bool → ℕ → World → Outcome
  step5_drop_old added migrated w = attempt faults.look_for_old w w λ w.
      let dropped = has_named_vector w plan.from.vector_name in
      attempt (when_needed dropped faults.delete_name) w
        (delete_vector dropped plan.from.vector_name w) λ w. (result added migrated true dropped, w)

  flip : Bool → ℕ → World → Outcome
  flip added migrated w = attempt faults.save_pin w (save_active plan.to w) λ w.
      if hooks.no_drop
      then (result added migrated true false, w)
      else attempt (when_needed hooks.has_set_dual_write faults.disable_dual) w
          (set_dual_write hooks none w) (step5_drop_old added migrated)

  after_backfill : Bool → Option ℕ → World → Outcome
  after_backfill added none w = (none, w)
  after_backfill added (some migrated) w =
      if hooks.no_flip then (result added migrated false false, w) else flip added migrated w

  unfoldable pub run_switch : Option ℕ → World → Outcome
  unfolding step5_drop_old flip after_backfill
  run_switch backfill w = attempt faults.look_for_target w w λ w.
      let added = not (has_named_vector w plan.to.vector_name) in
      attempt (when_needed added faults.create_name) w (create_vector added plan.to.vector_name w)
        λ w.
          attempt (when_needed hooks.has_set_dual_write faults.enable_dual) w
            (set_dual_write hooks (some plan.to) w) (after_backfill added backfill)
