-- ===== src/Tests/Switch.antt =====
-- Runs of the definitions of Switch, and its theorems at concrete inputs.
use persistent_memory_stack.Prelude.{[], false, inl, none, refl, some, true, ◌∷◌, ◌≡◌}
use persistent_memory_stack.Prelude.Text.{codes, text_eq, text_eq_iff}
use persistent_memory_stack.Switch.{
  ActivePin, Faults, RunSwitchHooks, SwitchPlan, SwitchResult, World, result, run_switch,
  throws_after,
}
use persistent_memory_stack.Switch.Returning.{Returns, all_work, run_switch-Returns}
use persistent_memory_stack.Switch.Reads.{CanRead, run_switch-CanRead}

abbrev old_pin : ActivePin
old_pin = record { model_id = codes "m1"; dim = 4; vector_name = codes "m1_4" }

abbrev new_pin : ActivePin
new_pin = record { model_id = codes "m2"; dim = 8; vector_name = codes "m2_8" }

abbrev to_new : SwitchPlan
to_new = record { from = old_pin; to = new_pin }

abbrev before_switch : World
before_switch = record { vectors = codes "m1_4" ∷ []; active = old_pin; dual_write = none }

abbrev all_hooks : RunSwitchHooks
all_hooks = record { has_set_dual_write = true; no_flip = false; no_drop = false }

-- The pin is saved, but the call that saves it reports a failure.
abbrev lost_answer : Faults
lost_answer = record all_work { save_pin = throws_after }

switch_runs : run_switch all_work to_new all_hooks (some 3) before_switch ≡ (
  result true 3 true true,
  record { vectors = codes "m2_8" ∷ []; active = new_pin; dual_write = none },
)
unfolding run_switch text_eq
switch_runs = refl

-- A switch to the same pin drops the only vector.
same_pin_drops :
    (run_switch all_work
      (record { from = old_pin; to = old_pin })
      all_hooks
      (some 3)
      before_switch).1.vectors
    ≡ []
unfolding run_switch text_eq
same_pin_drops = refl

run_switch-CanRead_example :
    CanRead (run_switch lost_answer to_new all_hooks (some 3) before_switch).1
unfolding text_eq
run_switch-CanRead_example =
    run_switch-CanRead lost_answer to_new all_hooks
      (λ e. cc ((text_eq_iff (codes "m2_8") (codes "m1_4")).1 e)) (some 3) before_switch
      (unfold CanRead in inl refl)

abbrev report : SwitchResult
report = record { added = true; migrated = 3; flipped = true; dropped = true }

abbrev after_switch : World
after_switch = record { vectors = codes "m2_8" ∷ []; active = new_pin; dual_write = none }

run_switch-Returns_example :
    Returns true 3 new_pin false
      (codes "m1_4")
      (run_switch all_work to_new all_hooks (some 3) before_switch)
run_switch-Returns_example = run_switch-Returns to_new all_hooks 3 before_switch
