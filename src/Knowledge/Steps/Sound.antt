-- ===== src/Knowledge/Steps/Sound.antt =====
-- What holds of every store that requests and the other processes lead to.
use persistent_memory_stack.Knowledge.Receipts.Answers.{
  Answers, applied, replayed_now, replayed_seen,
}
use persistent_memory_stack.Knowledge.Writes.Kept.{save_knowledge-Answers, update_knowledge-Answers}
use persistent_memory_stack.Knowledge.Steps.{
  IsLater, Reaches, Step, at_start, others, perform, performed, saving, then_step, updating,
}
use persistent_memory_stack.Prelude.{
  All, Bool-cases, List, Option, [], ap, arith, find?, inl, inr, is_some, on_if, refl, some, sym, ℕ,
  ◌∙◌, ◌∷◌, ◌≡◌, ◌≤◌,
}
use persistent_memory_stack.Prelude.Assoc.{lookup, text_differ}
use persistent_memory_stack.Prelude.Result.{Result, ok}
use persistent_memory_stack.Prelude.Text.{Text, text_eq, text_eq_iff}
use persistent_memory_stack.Knowledge.{Classification, KnowledgeError}
use persistent_memory_stack.Knowledge.Contract.Consistent.{IsConsistent}
use persistent_memory_stack.Knowledge.Catalog.Resolved.{resolve_classification-IsConsistent}
use persistent_memory_stack.Knowledge.Claims.{ClassificationData, Row, classification_data}
use persistent_memory_stack.Knowledge.Receipts.{Response, Revision, Store}
use persistent_memory_stack.Knowledge.Writes.{
  ClassifiedUpdate, ClassifiedWrite, Services, change_memory, create_memory, is_revision,
  keep_prior,
}
use persistent_memory_stack.Knowledge.Writes.Effects.{
  Puts, change_memory-IsChanged, create_memory-IsCreated,
}
use persistent_memory_stack.Knowledge.Steps.Kept.{
  Follows, change_memory-Follows, create_memory-Follows,
}

-- A recorded revision is one of a memory, and is not ahead of it.
abbrev pub IsRecorded : Store → Revision → Type 0
IsRecorded s h =
    (row : Row) × (lookup h.memory_id s.memories ≡ some row) × (h.revision ≤ row.revision)

pub record IsSound (s : Store) : Type 0 where
  pub consistent :
      (id : Text) (row : Row) (c : Classification)
      → lookup id s.memories ≡ some row
      → row.columns.knowledge ≡ some c
      → IsConsistent c
  pub recorded : All (IsRecorded s) s.history

All-imp {ℓ κ} :
    {A : Type ℓ} (P Q : A → Type κ) (xs : List A) → ((x : A) → P x → Q x) → All P xs → All Q xs
All-imp P Q [] k h = tt
All-imp P Q (x ∷ xs) k (p, h) = (k x p, All-imp P Q xs k h)

IsRecorded-later :
    (s u : Store) (history : List Revision)
    → Follows s u
    → All (IsRecorded s) history
    → All (IsRecorded u) history
IsRecorded-later s u history follows =
    All-imp (IsRecorded s) (IsRecorded u) history
      (λ h (row, e, le). let (new, f, le') = follows h.memory_id row e in (new, f, omega arith))

Puts-IsConsistent :
    (s u : Store) (id : Text) (row claimed : Row) (d : Classification)
    → IsSound s
    → Puts s u id row claimed
    → row.columns ≡ classification_data d
    → IsConsistent d
    → (j : Text) (new : Row) (c : Classification) → lookup j u.memories ≡ some new
    → new.columns.knowledge ≡ some c
    → IsConsistent c
unfolding classification_data
Puts-IsConsistent s u id row claimed d sound puts columns fine j new c h k =
    elim (Bool-cases (text_eq id j)) [
      | inl e ↦
          let same = (text_eq_iff id j).0 e in
          let this : new ≡ claimed = cc (h, same, puts.stored) in
          let says : new.columns ≡ classification_data d =
            ap Row.columns this ∙ puts.says.same_columns ∙ columns in
          let equal : some c ≡ some d = sym k ∙ ap ClassificationData.knowledge says in
          let same_c : c ≡ d = cc in rw same_c fine
      | inr e ↦ sound.consistent j new c (sym (puts.others j (text_differ id j e)) ∙ h) k
    ]

same-IsRecorded :
    (u : Store) {xs ys : List Revision} → xs ≡ ys → All (IsRecorded u) xs → All (IsRecorded u) ys
same-IsRecorded u same h = rw (← same) h

-- A new entry before the ones that there were.
All-IsRecorded :
    (u : Store) (h : Revision) (history : List Revision)
    → u.history ≡ h ∷ history
    → IsRecorded u h
    → All (IsRecorded u) history
    → All (IsRecorded u) u.history
All-IsRecorded u h history e p ps = same-IsRecorded u (sym e) (p, ps)

create_memory-IsSound :
    (env : Services) (input : ClassifiedWrite) (id : Text) (now : ℕ) (s u : Store) (r : Response)
    → IsSound s
    → create_memory env input id now s ≡ ok (u, r)
    → IsSound u
create_memory-IsSound env input id now s u r sound h =
    let c = create_memory-IsCreated env input id now s u r h in
    let fine = resolve_classification-IsConsistent _ _ _ _ _ _ c.resolved in
    record {
      consistent = Puts-IsConsistent s u id _ c.claimed c.classification sound c.puts refl fine;
      recorded =
          All-IsRecorded u _ s.history c.recorded
            (
              c.claimed,
              ap (λ k. lookup k u.memories) c.puts.says.same_id ∙ c.puts.stored,
              omega arith,
            )
            (IsRecorded-later s u s.history (create_memory-Follows env input id now s u r h)
              sound.recorded);
    }

keep_prior-IsRecorded :
    (s u : Store) (id : Text) (prior : Row)
    → lookup id s.memories ≡ some prior
    → Follows s u
    → All (IsRecorded s) s.history
    → All (IsRecorded u) (keep_prior id prior s.history)
unfolding keep_prior
keep_prior-IsRecorded s u id prior there follows h =
    on_if (All (IsRecorded u)) (is_some (find? (is_revision id prior.revision) s.history)) _ _
      (λ _. IsRecorded-later s u s.history follows h)
      (λ _. (follows id prior there, IsRecorded-later s u s.history follows h))

change_memory-IsSound :
    (env : Services) (id : Text) (input : ClassifiedUpdate) (now : ℕ) (s u : Store) (r : Response)
    → IsSound s
    → change_memory env id input now s ≡ ok (u, r)
    → IsSound u
change_memory-IsSound env id input now s u r sound h =
    let c = change_memory-IsChanged env id input now s u r h in
    let fine = resolve_classification-IsConsistent _ _ _ _ _ _ c.resolved in
    let follows = change_memory-Follows env id input now s u r h in
    record {
      consistent = Puts-IsConsistent s u id _ c.claimed c.classification sound c.puts refl fine;
      recorded =
          All-IsRecorded u _ (keep_prior id c.prior s.history) c.recorded
            (c.claimed, c.puts.stored, omega arith)
            (keep_prior-IsRecorded s u id c.prior c.was_there follows sound.recorded);
    }

module _ (owner : Option Text) (key hash : Text)
    (apply : Store → Result KnowledgeError (Store × Response)) (seen s t : Store) (r : Response)
    (sound : IsSound s) where
  Answers-IsSound :
      ((u : Store) → apply s ≡ ok (u, r) → IsSound u)
      → Answers owner key hash apply seen s t r
      → IsSound t
  Answers-IsSound k (replayed_seen has e) = rw e sound
  Answers-IsSound k (replayed_now has e) = rw e sound
  Answers-IsSound k (applied fresh u g e) =
      let fine = k u g in rw e (record { consistent = fine.consistent; recorded = fine.recorded })

IsLater-Follows : {s t : Store} → IsLater s t → Follows s t
IsLater-Follows later id row h =
    let (new, e, same) = later.same_rows id row h in (new, e, omega arith)

Step-IsSound : (env : Services) {s t : Store} → Step env IsLater s t → IsSound s → IsSound t
unfolding perform
Step-IsSound env {s} {t} (performed (saving raw) id now seen later r h) sound =
    let (input, _, _, answers) = save_knowledge-Answers env now seen later s t r raw id h in
    Answers-IsSound env.owner _ _ (create_memory env input id now) seen s t r sound
      (λ u g. create_memory-IsSound env input id now s u r sound g) answers
Step-IsSound env {s} {t} (performed (updating memory_id raw) id now seen later r h) sound =
    let (input, _, _, answers) =
      update_knowledge-Answers env now seen later s t r memory_id raw h in
    Answers-IsSound env.owner _ _ (change_memory env memory_id input now) seen s t r sound
      (λ u g. change_memory-IsSound env memory_id input now s u r sound g) answers
Step-IsSound env {s} {t} (others later) sound = record {
  consistent = λ id row c e k.
      let (old, f, same, _) = later.same_columns id row e in
      sound.consistent id old c f (ap ClassificationData.knowledge (sym same) ∙ k);
  recorded =
      same-IsRecorded t (sym later.same_history)
        (IsRecorded-later s t s.history (IsLater-Follows later) sound.recorded);
}

-- Let each classification that a memory of a store has be a consistent one, and each recorded
-- revision be one of a memory that is there and not be ahead of it. This stays so through any number
-- of saves and updates, and through what other processes write, as long as they neither delete nor
-- import a memory, but leave the receipts, the history and each memory's columns and revision.
pub Reaches-IsSound :
    (env : Services) {s t : Store} → IsSound s → Reaches env IsLater s t → IsSound t
Reaches-IsSound env sound at_start = sound
Reaches-IsSound env sound (then_step path step) =
    Step-IsSound env step (Reaches-IsSound env sound path)
