-- ===== src/Worker/Updates/Routing.antt =====
-- A change is a change of the stored state.
use persistent_memory_stack.Prelude.{
  Bool, List, Option, [], ap, arith, default_to, false, none, refl, some, true, ◌||◌, ◌↔◌, ◌∷◌, ◌≡◌,
}
use persistent_memory_stack.Prelude.Text.{Text, text_eq, text_eq_iff}
use persistent_memory_stack.Worker.Updates.{
  MemoryUpdateRequest, MemoryUpdateState, changes, classify_memory_update, same_session,
  same_strings,
}

-- The state after the supplied fields are stored.
abbrev pub updated : MemoryUpdateState → MemoryUpdateRequest → MemoryUpdateState
updated s r = record {
  content = default_to s.content r.content;
  project = default_to s.project r.project;
  session_id = default_to s.session_id r.session_id;
  category = default_to s.category r.category;
  entities = default_to s.entities r.entities;
}

same_strings_iff : (s t : List Text) → (same_strings s t ≡ true) ↔ (s ≡ t)
unfolding same_strings
same_strings_iff [] [] = ground arith
same_strings_iff [] (b ∷ bs) = ground arith
same_strings_iff (a ∷ as_) [] = ground arith
same_strings_iff (a ∷ as_) (b ∷ bs) = ground (arith, text_eq_iff a b, same_strings_iff as_ bs)

same_session_iff : (s t : Option Text) → (same_session s t ≡ true) ↔ (s ≡ t)
same_session_iff none none = ground arith
same_session_iff none (some b) = ground arith
same_session_iff (some a) none = ground arith
same_session_iff (some a) (some b) = ground (arith, text_eq_iff a b)

changes_iff :
    {A : Type 0} (same : A → A → Bool)
    → ((a b : A) → (same a b ≡ true) ↔ (a ≡ b))
    → (new : Option A) (old : A) → (changes same new old ≡ false) ↔ (default_to old new ≡ old)
changes_iff same law none old = ((λ h. refl), λ h. refl)
changes_iff same law (some a) old = ground (arith, law a old)

or-false : (a b : Bool) → ((a || b) ≡ false) ↔ ((a ≡ false) × (b ≡ false))
or-false true b = ((λ h. absurd (cc)), λ (h, _). absurd (cc))
or-false false b = ((λ h. (refl, h)), λ (_, h). h)

-- An update is routed as having changes exactly when storing it would change the memory; and model
-- calls are required exactly when the content, the category or the entities would change.
classify_memory_update_iff :
    (s : MemoryUpdateState) (r : MemoryUpdateRequest)
    → ((classify_memory_update s r).has_changes ≡ false ↔ (updated s r ≡ s))
      × ((classify_memory_update s r).validation_required ≡ false ↔ (
          ((updated s r).content ≡ s.content)
          × ((updated s r).category ≡ s.category)
          × ((updated s r).entities ≡ s.entities)))
unfolding classify_memory_update
classify_memory_update_iff s r =
    let content = changes_iff text_eq text_eq_iff r.content s.content in
    let project = changes_iff text_eq text_eq_iff r.project s.project in
    let session = changes_iff same_session same_session_iff r.session_id s.session_id in
    let category = changes_iff text_eq text_eq_iff r.category s.category in
    let entities = changes_iff same_strings same_strings_iff r.entities s.entities in
    (
      (
        (λ h.
            let (h, m) = (or-false _ _).0 h in
            let (h, t) = (or-false _ _).0 h in
            let (c, p) = (or-false _ _).0 h in
            let (k, e) = (or-false _ _).0 m in
            λ i. record {
              content = content.0 c i;
              project = project.0 p i;
              session_id = session.0 t i;
              category = category.0 k i;
              entities = entities.0 e i;
            }),
        λ h. (or-false _ _).1 (
          (or-false _ _).1 (
            (or-false _ _).1 (
              content.1 (ap MemoryUpdateState.content h),
              project.1 (ap MemoryUpdateState.project h),
            ),
            session.1 (ap MemoryUpdateState.session_id h),
          ),
          (or-false _ _).1 (
            category.1 (ap MemoryUpdateState.category h),
            entities.1 (ap MemoryUpdateState.entities h),
          ),
        ),
      ),
      (
        (λ h.
            let (c, h) = (or-false _ _).0 h in
            let (k, e) = (or-false _ _).0 h in (content.0 c, category.0 k, entities.0 e)),
        λ (c, k, e). (or-false _ _).1 (content.1 c, (or-false _ _).1 (category.1 k, entities.1 e)),
      ),
    )
