-- ===== src/Worker/Schedules/Plan.antt =====
-- Which schedulers a plan wants.
use persistent_memory_stack.Prelude.{
  Bool, Bool-cases, Elem, List, Option, [], ap, false, if◌then◌else◌, inl, inr, is_some, none, refl,
  some, true, ◌↔◌, ◌∙◌, ◌∷◌, ◌≡◌,
}
use persistent_memory_stack.Prelude.Text.{Text}
use persistent_memory_stack.Prelude.Assoc.{lookup}
use persistent_memory_stack.Worker.Schedules.{
  Rows, SchedulePlan, ScheduleRow, ScheduledHandler, add_handler, plan_reconcile, plan_retired,
}

-- The cron at which a handler's job is to run: the row's if it is enabled, else none; the default if
-- there is no row.
abbrev cron_of : ScheduledHandler → Option ScheduleRow → Option Text
cron_of h none = some h.default_cron
cron_of h (some row) = if row.enabled then some row.cron else none

abbrev pub IsWanted : List ScheduledHandler → Rows → Text × Text → Type 0
IsWanted hs rows (name, cron) =
    (h : ScheduledHandler) × (Elem h hs
      × ((h.name ≡ name) × (cron_of h (lookup h.name rows) ≡ some cron)))

plan_retired-empty : (names : List Text) (rows : Rows) → (plan_retired names rows).to_upsert ≡ []
unfolding plan_retired
plan_retired-empty [] rows = refl
plan_retired-empty (name ∷ names) rows = elim (Bool-cases (is_some (lookup name rows))) [
  | inl e ↦ rw (e, plan_retired) (plan_retired-empty names rows)
  | inr e ↦ rw (e, plan_retired) (plan_retired-empty names rows)
]

module _ (rows : Rows) where
  later :
      (h : ScheduledHandler) (hs : List ScheduledHandler) (job : Text × Text)
      → IsWanted hs rows job
      → IsWanted (h ∷ hs) rows job
  later h hs job (k, (m, w)) = (k, (inr m, w))

  abbrev prepend : Text → Option Text → List (Text × Text) → List (Text × Text)
  prepend name none jobs = jobs
  prepend name (some cron) jobs = (name, cron) ∷ jobs

  add_handler-to_upsert :
      (h : ScheduledHandler) (found : Option ScheduleRow) (p : SchedulePlan)
      → (add_handler h found p).to_upsert ≡ prepend h.name (cron_of h found) p.to_upsert
  unfolding add_handler
  add_handler-to_upsert h none p = refl
  add_handler-to_upsert h (some row) p = by_flag row.enabled
    where
      by_flag :
          (b : Bool)
          → (if b
              then record p { to_upsert = (h.name, row.cron) ∷ p.to_upsert }
              else record p { to_remove = h.name ∷ p.to_remove }).to_upsert
            ≡ prepend h.name (if b then some row.cron else none) p.to_upsert
      by_flag true = refl
      by_flag false = refl

  prepend-IsWanted :
      (h : ScheduledHandler) (hs : List ScheduledHandler) (jobs : List (Text × Text))
      (name cron : Text)
      → (Elem (name, cron) jobs ↔ IsWanted hs rows (name, cron))
      → (o : Option Text) → cron_of h (lookup h.name rows) ≡ o
      → Elem (name, cron) (prepend h.name o jobs) ↔ IsWanted (h ∷ hs) rows (name, cron)
  prepend-IsWanted h hs jobs name cron rest none e = (
    (λ m. later h hs (name, cron) (rest.0 m)),
    λ (k, (m, (n, c))). elim m [
      | inl same ↦ absurd (cc (e, c, same))
      | inr l ↦ rest.1 (k, (l, (n, c)))
    ],
  )
  prepend-IsWanted h hs jobs name cron rest (some d) e = (
    (λ m. elim m [
      | inl same ↦ (
        h,
        (
          inl refl,
          (ap (λ (j : Text × Text). j.0) same, e ∙ ap some (ap (λ (j : Text × Text). j.1) same)),
        ),
      )
      | inr k ↦ later h hs (name, cron) (rest.0 k)
    ]),
    λ (k, (m, (n, c))). elim m [
      | inl same ↦
          let first : h.name ≡ name = ap ScheduledHandler.name same ∙ n in
          let second : d ≡ cron = cc (e, c, same) in inl (λ i. (first i, second i))
      | inr l ↦ inr (rest.1 (k, (l, (n, c))))
    ],
  )

-- A scheduler is wanted exactly for each handler that has no row, at its default, or an enabled row,
-- at the row's cron; a disabled job gets none.
pub plan_reconcile_iff :
    (hs : List ScheduledHandler) (rows : Rows) (retired : List Text) (name cron : Text)
    → Elem (name, cron) (plan_reconcile hs rows retired).to_upsert ↔ IsWanted hs rows (name, cron)
unfolding plan_reconcile
plan_reconcile_iff [] rows retired name cron =
    rw (plan_retired-empty retired rows) ((λ h. absurd h), λ (_, (m, _)). absurd m)
plan_reconcile_iff (h ∷ hs) rows retired name cron =
    rw (add_handler-to_upsert rows h (lookup h.name rows) (plan_reconcile hs rows retired))
      (prepend-IsWanted rows h hs _ name cron (plan_reconcile_iff hs rows retired name cron) _ refl)
