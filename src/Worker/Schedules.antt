-- ===== src/Worker/Schedules.antt =====
-- apps/worker/src/scheduled/reconcile.ts, `planReconcile`, over the table of scheduled jobs as a map
-- by the name of the job, which is its key.
pub mod Plan
use persistent_memory_stack.Prelude.{
  Bool, List, Option, [], if◌then◌else◌, is_some, none, some, ◌∷◌,
}
use persistent_memory_stack.Prelude.Text.{Text}
use persistent_memory_stack.Prelude.Assoc.{lookup}

pub record ScheduledHandler : Type 0 where
  pub name : Text
  pub default_cron : Text

pub record ScheduleRow : Type 0 where
  pub cron : Text
  pub enabled : Bool

-- The plan of the source names its lists toCreate, toUpsertSchedule, toRemoveSchedule, toDeleteRows.
pub record SchedulePlan : Type 0 where
  pub to_create : List (Text × Text)
  pub to_upsert : List (Text × Text)
  pub to_remove : List Text
  pub to_delete : List Text

abbrev pub Rows : Type 0
Rows = List (Text × ScheduleRow)

add_handler : ScheduledHandler → Option ScheduleRow → SchedulePlan → SchedulePlan
add_handler h none p = record p {
  to_create = (h.name, h.default_cron) ∷ p.to_create;
  to_upsert = (h.name, h.default_cron) ∷ p.to_upsert;
}
add_handler h (some row) p =
    if row.enabled
    then record p { to_upsert = (h.name, row.cron) ∷ p.to_upsert }
    else record p { to_remove = h.name ∷ p.to_remove }

-- The loop over the retired names, after which nothing is added.
plan_retired : List Text → Rows → SchedulePlan
plan_retired [] rows = record { to_create = []; to_upsert = []; to_remove = []; to_delete = [] }
plan_retired (name ∷ names) rows =
    let p = plan_retired names rows in
    if is_some (lookup name rows)
    then record p { to_remove = name ∷ p.to_remove; to_delete = name ∷ p.to_delete }
    else p

unfoldable pub plan_reconcile : List ScheduledHandler → Rows → List Text → SchedulePlan
unfolding add_handler plan_retired
plan_reconcile [] rows retired = plan_retired retired rows
plan_reconcile (h ∷ hs) rows retired =
    add_handler h (lookup h.name rows) (plan_reconcile hs rows retired)
