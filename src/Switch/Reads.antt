-- ===== src/Switch/Reads.antt =====
-- Reads keep working during a switch.
use persistent_memory_stack.Prelude.{
  Bool, Bool-cases, Elem, List, Option, [], any, false, if◌then◌else◌, inl, inr, none, not, refl,
  select, some, true, ℕ, ◌∷◌, ◌≡◌, ◌≢◌,
}
use persistent_memory_stack.Prelude.Text.{Text, text_eq, text_eq_iff}
use persistent_memory_stack.Switch.{
  ActivePin, Fault, Faults, Outcome, RunSwitchHooks, SwitchPlan, World, after_backfill, attempt,
  create_vector, delete_vector, flip, has_named_vector, result, run_switch, save_active,
  set_dual_write, step5_drop_old, throws_after, throws_before, when_needed, works,
}

-- The vector that reads use is there.
unfoldable pub CanRead : World → Type 0
CanRead w = Elem w.active.vector_name w.vectors

-- The target's vector is there, and reads use it already.
HasFlipped : SwitchPlan → World → Type 0
HasFlipped plan w = (w.active ≡ plan.to) × Elem plan.to.vector_name w.vectors

attempt-CanRead :
    (f : Fault) (before after : World) (k : World → Outcome)
    → CanRead before
    → CanRead after
    → CanRead (k after).1
    → CanRead (attempt f before after k).1
attempt-CanRead works before after k h i j = j
attempt-CanRead throws_before before after k h i j = h
attempt-CanRead throws_after before after k h i j = i

Elem-any : (name : Text) (vs : List Text) → any (λ v. text_eq v name) vs ≡ true → Elem name vs
Elem-any name [] h = cc
Elem-any name (v ∷ vs) h = elim (Bool-cases (text_eq v name)) [
  | inl e ↦ inl ((text_eq_iff v name).0 e)
  | inr e ↦ inr (Elem-any name vs (rw e at h))
]

Elem-select :
    (kept gone : Text) (vs : List Text)
    → kept ≢ gone
    → Elem kept vs
    → Elem kept (select (λ v. not (text_eq v gone)) vs)
Elem-select kept gone [] n h = h
Elem-select kept gone (v ∷ vs) n (inl same) = elim (Bool-cases (text_eq v gone)) [
  | inl e ↦ absurd (n (cc (same, (text_eq_iff v gone).0 e)))
  | inr e ↦ rw e (inl same)
]
Elem-select kept gone (v ∷ vs) n (inr h) = elim (Bool-cases (text_eq v gone)) [
  | inl e ↦ rw e (Elem-select kept gone vs n h)
  | inr e ↦ rw e (inr (Elem-select kept gone vs n h))
]

module _ (faults : Faults) (plan : SwitchPlan) (hooks : RunSwitchHooks)
    (distinct : plan.to.vector_name ≢ plan.from.vector_name) where
  CanRead-of_HasFlipped : (w : World) → HasFlipped plan w → CanRead w
  unfolding CanRead HasFlipped
  CanRead-of_HasFlipped w (e, h) = rw e h

  delete_vector-HasFlipped :
      (b : Bool) (w : World)
      → HasFlipped plan w
      → HasFlipped plan (delete_vector b plan.from.vector_name w)
  unfolding HasFlipped
  delete_vector-HasFlipped true w (e, h) =
      (e, Elem-select plan.to.vector_name plan.from.vector_name w.vectors distinct h)
  delete_vector-HasFlipped false w h = h

  set_dual_write-HasFlipped :
      (pin : Option ActivePin) (w : World)
      → HasFlipped plan w
      → HasFlipped plan (set_dual_write hooks pin w)
  unfolding HasFlipped
  set_dual_write-HasFlipped pin w h = elim (Bool-cases hooks.has_set_dual_write) [
    | inl e ↦ rw (e, set_dual_write) h
    | inr e ↦ rw (e, set_dual_write) h
  ]

  step5_drop_old-CanRead :
      (added : Bool) (migrated : ℕ) (w : World)
      → HasFlipped plan w
      → CanRead (step5_drop_old faults plan hooks added migrated w).1
  unfolding step5_drop_old
  step5_drop_old-CanRead added migrated w h =
      let here = CanRead-of_HasFlipped w h in
      let dropped = has_named_vector w plan.from.vector_name in
      let gone =
        CanRead-of_HasFlipped (delete_vector dropped plan.from.vector_name w)
          (delete_vector-HasFlipped dropped w h) in
      attempt-CanRead faults.look_for_old w w _ here here (
        attempt-CanRead (when_needed dropped faults.delete_name) w
          (delete_vector dropped plan.from.vector_name w)
          (λ w. (result added migrated true dropped, w)) here gone gone)

  flip-CanRead :
      (added : Bool) (migrated : ℕ) (w : World)
      → CanRead w
      → Elem plan.to.vector_name w.vectors
      → CanRead (flip faults plan hooks added migrated w).1
  unfolding flip CanRead HasFlipped
  flip-CanRead added migrated w here target =
      attempt-CanRead faults.save_pin w flipped _ here reads (by_drop hooks.no_drop)
    where
      flipped : World
      flipped = save_active plan.to w

      reads : CanRead flipped
      reads = target

      moved : HasFlipped plan flipped
      moved = (refl, target)

      by_drop :
          (stop : Bool)
          → CanRead
              (if stop
                then (result added migrated true false, flipped)
                else attempt
                    (when_needed hooks.has_set_dual_write faults.disable_dual)
                    flipped
                    (set_dual_write hooks none flipped)
                    (step5_drop_old faults plan hooks added migrated)).1
      by_drop true = reads
      by_drop false =
          let off = set_dual_write-HasFlipped none flipped moved in
          attempt-CanRead (when_needed hooks.has_set_dual_write faults.disable_dual) flipped
            (set_dual_write hooks none flipped) _ reads
            (CanRead-of_HasFlipped (set_dual_write hooks none flipped) off)
            (step5_drop_old-CanRead added migrated (set_dual_write hooks none flipped) off)

  set_dual_write-CanRead :
      (pin : Option ActivePin) (w : World) → CanRead w → CanRead (set_dual_write hooks pin w)
  unfolding CanRead
  set_dual_write-CanRead pin w h = elim (Bool-cases hooks.has_set_dual_write) [
    | inl e ↦ rw (e, set_dual_write) h
    | inr e ↦ rw (e, set_dual_write) h
  ]

  set_dual_write-Elem :
      (pin : Option ActivePin) (name : Text) (w : World)
      → Elem name w.vectors
      → Elem name (set_dual_write hooks pin w).vectors
  set_dual_write-Elem pin name w h = elim (Bool-cases hooks.has_set_dual_write) [
    | inl e ↦ rw (e, set_dual_write) h
    | inr e ↦ rw (e, set_dual_write) h
  ]

  after_backfill-CanRead :
      (added : Bool) (backfill : Option ℕ) (w : World)
      → CanRead w
      → Elem plan.to.vector_name w.vectors
      → CanRead (after_backfill faults plan hooks added backfill w).1
  unfolding after_backfill
  after_backfill-CanRead added none w here target = here
  after_backfill-CanRead added (some migrated) w here target = by_stop hooks.no_flip
    where
      by_stop :
          (stop : Bool)
          → CanRead
              (if stop
                then (result added migrated false false, w)
                else flip faults plan hooks added migrated w).1
      by_stop true = here
      by_stop false = flip-CanRead added migrated w here target

  -- Whatever call fails, before or after its effect, and wherever the switch is stopped, the vector
  -- that the active pin names is in the collection, if it was before and the target has another name.
  pub run_switch-CanRead :
      (backfill : Option ℕ) (w : World)
      → CanRead w
      → CanRead (run_switch faults plan hooks backfill w).1
  unfolding run_switch
  run_switch-CanRead backfill w here =
      attempt-CanRead faults.look_for_target w w _ here here
        (by_presence (has_named_vector w plan.to.vector_name) refl)
    where
      added_one : Bool → World
      added_one b = create_vector b plan.to.vector_name w

      by_presence :
          (present : Bool)
          → has_named_vector w plan.to.vector_name ≡ present
          → CanRead
              (attempt
                (when_needed (not present) faults.create_name)
                w
                (added_one (not present))
                λ w.
                  attempt
                    (when_needed hooks.has_set_dual_write faults.enable_dual)
                    w
                    (set_dual_write hooks (some plan.to) w)
                    (after_backfill faults plan hooks (not present) backfill)).1
      by_presence true e = onward true w here (Elem-any plan.to.vector_name w.vectors e)
        where
          onward :
              Bool
              → (w : World) → CanRead w
              → Elem plan.to.vector_name w.vectors
              → CanRead
                  (attempt works w w λ w.
                    attempt
                      (when_needed hooks.has_set_dual_write faults.enable_dual)
                      w
                      (set_dual_write hooks (some plan.to) w)
                      (after_backfill faults plan hooks false backfill)).1
          onward b w here target =
              let on = set_dual_write-CanRead (some plan.to) w here in
              attempt-CanRead (when_needed hooks.has_set_dual_write faults.enable_dual) w _ _ here
                on
                (after_backfill-CanRead false backfill _ on
                  (set_dual_write-Elem (some plan.to) _ w target))
      by_presence false e =
          let w2 = added_one true in
          let here2 : CanRead w2 = unfold CanRead in inr here in
          let on = set_dual_write-CanRead (some plan.to) w2 here2 in
          attempt-CanRead faults.create_name w w2 _ here here2 (
            attempt-CanRead (when_needed hooks.has_set_dual_write faults.enable_dual) w2 _ _ here2
              on
              (after_backfill-CanRead true backfill _ on
                (set_dual_write-Elem (some plan.to) _ w2 (inl refl))))
