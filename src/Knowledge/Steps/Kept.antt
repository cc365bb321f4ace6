-- ===== src/Knowledge/Steps/Kept.antt =====
-- Revisions: what an accepted update leaves, and that no two are accepted for one revision.
use persistent_memory_stack.Prelude.{
  Bool-cases, Option, ap, arith, inl, inr, none, some, ℕ, ◌<◌, ◌∙◌, ◌≡◌, ◌≤◌,
}
use persistent_memory_stack.Prelude.Assoc.{lookup, text_differ}
use persistent_memory_stack.Prelude.Result.{Result, ok}
use persistent_memory_stack.Prelude.Text.{Text, text_eq, text_eq_iff}
use persistent_memory_stack.Knowledge.{KnowledgeError}
use persistent_memory_stack.Knowledge.Claims.{Row}
use persistent_memory_stack.Knowledge.Receipts.{Response, Store, with_new_receipt}
use persistent_memory_stack.Knowledge.Receipts.Answers.{
  Answers, applied, replayed_now, replayed_seen,
}
use persistent_memory_stack.Knowledge.Writes.{
  ClassifiedUpdate, ClassifiedWrite, RawRequest, Services, change_memory, create_memory,
  update_issues, update_knowledge,
}
use persistent_memory_stack.Knowledge.Writes.Kept.{
  parsed_fields, save_knowledge-Answers, update_knowledge-Answers,
}
use persistent_memory_stack.Knowledge.Writes.Effects.{
  IsChanged, Puts, change_memory-IsChanged, create_memory-IsCreated,
}
use persistent_memory_stack.Knowledge.Steps.{
  KeepsMemory, Reaches, Step, at_start, others, perform, performed, saving, then_step, updating,
}

-- Every memory is still there, at its revision or a later one.
abbrev pub Follows : Store → Store → Type 0
Follows s t = (id : Text) → KeepsMemory id s t

Puts-Follows :
    (s u : Store) (id : Text) (row claimed : Row)
    → Puts s u id row claimed
    → ((old : Row) → lookup id s.memories ≡ some old → old.revision ≤ row.revision)
    → Follows s u
Puts-Follows s u id row claimed puts k j old h = elim (Bool-cases (text_eq id j)) [
  | inl e ↦
      let same = (text_eq_iff id j).0 e in
      (claimed, rw (← same) puts.stored, rw (puts.says.same_revision) (k old (rw same h)))
  | inr e ↦ (old, puts.others j (text_differ id j e) ∙ h, omega arith)
]

pub create_memory-Follows :
    (env : Services) (input : ClassifiedWrite) (id : Text) (now : ℕ) (s u : Store) (r : Response)
    → create_memory env input id now s ≡ ok (u, r)
    → Follows s u
create_memory-Follows env input id now s u r h =
    let c = create_memory-IsCreated env input id now s u r h in
    Puts-Follows s u id _ c.claimed c.puts (λ old e. absurd (cc (c.is_new, e)))

pub change_memory-Follows :
    (env : Services) (id : Text) (input : ClassifiedUpdate) (now : ℕ) (s u : Store) (r : Response)
    → change_memory env id input now s ≡ ok (u, r)
    → Follows s u
change_memory-Follows env id input now s u r h =
    let c = change_memory-IsChanged env id input now s u r h in
    Puts-Follows s u id _ c.claimed c.puts
      (λ old e. let same : old ≡ c.prior = cc (c.was_there, e) in rw same (omega arith))

module _ (owner : Option Text) (key hash : Text)
    (apply : Store → Result KnowledgeError (Store × Response)) (seen s t : Store)
    (r : Response) where
  Answers-Follows :
      ((u : Store) → apply s ≡ ok (u, r) → Follows s u)
      → Answers owner key hash apply seen s t r
      → (id : Text) → KeepsMemory id s t
  Answers-Follows k (replayed_seen has e) id row h = (row, rw e h, omega arith)
  Answers-Follows k (replayed_now has e) id row h = (row, rw e h, omega arith)
  Answers-Follows k (applied fresh u g e) id row h = let follows = k u g id row h in rw e follows

-- A request keeps every memory, and so the other processes decide.
pub Step-KeepsMemory :
    (env : Services) {Others : Store → Store → Type 0} (id : Text) {s t : Store}
    → (Others s t → KeepsMemory id s t)
    → Step env Others s t
    → KeepsMemory id s t
unfolding perform
Step-KeepsMemory env id {s} {t} kept (performed (saving raw) new now seen later r h) =
    let (input, _, _, answers) = save_knowledge-Answers env now seen later s t r raw new h in
    Answers-Follows env.owner _ _ (create_memory env input new now) seen s t r
      (λ u g. create_memory-Follows env input new now s u r g) answers id
Step-KeepsMemory env id {s} {t} kept (performed (updating memory_id raw) new now seen later r h) =
    let (input, _, _, answers) =
      update_knowledge-Answers env now seen later s t r memory_id raw h in
    Answers-Follows env.owner _ _ (change_memory env memory_id input now) seen s t r
      (λ u g. change_memory-Follows env memory_id input now s u r g) answers id
Step-KeepsMemory env id kept (others wrote) = kept wrote

Reaches-KeepsMemory :
    (env : Services) (id : Text) {s t : Store}
    → Reaches env (KeepsMemory id) s t
    → KeepsMemory id s t
Reaches-KeepsMemory env id at_start = λ row h. (row, h, omega arith)
Reaches-KeepsMemory env id (then_step path step) = λ row h.
    let (mid, e, le) = Reaches-KeepsMemory env id path row h in
    let (new, f, le') = Step-KeepsMemory env id (λ k. k) step mid e in (new, f, omega arith)

-- An update that is no replay has changed its memory.
pub update_knowledge-IsChanged :
    (env : Services) (id : Text) (raw : RawRequest ClassifiedUpdate) (input : ClassifiedUpdate)
    (now : ℕ) (seen later s t : Store) (r : Response)
    → raw.fields ≡ some input
    → lookup input.idempotency_key seen.receipts ≡ none
    → lookup input.idempotency_key s.receipts ≡ none
    → update_knowledge env id raw now seen later s ≡ ok (t, r)
    → (u : Store) × IsChanged env id input now s u r
      × (t ≡ (with_new_receipt input.idempotency_key (env.hash_update id input) (u, r)).0)
update_knowledge-IsChanged env id raw input now seen later s t r given unseen unstored h =
    let (parsed, e, _, answers) = update_knowledge-Answers env now seen later s t r id raw h in
    let same : parsed ≡ input = cc (given, (parsed_fields update_issues raw parsed e).0) in
    by_answer parsed same answers
  where
    by_answer :
        (k : ClassifiedUpdate)
        → k ≡ input
        → Answers env.owner k.idempotency_key
            (env.hash_update id k)
            (change_memory env id k now)
            seen
            s
            t
            r
        → (u : Store) × IsChanged env id input now s u r
          × (t ≡ (with_new_receipt input.idempotency_key (env.hash_update id input) (u, r)).0)
    by_answer k same (replayed_seen has e) = absurd (cc (has.stored, rw (← same) at unseen))
    by_answer k same (replayed_now has e) = absurd (cc (has.stored, rw (← same) at unstored))
    by_answer k same (applied fresh u g e) =
        rw (← same) (u, change_memory-IsChanged env id k now s u r g, e)

-- Two updates of one memory are both applied, and in between run any requests, and other processes
-- that write anything, deletions and imports of other memories included, but keep this memory and
-- do not lower its revision. Then the two expect different revisions, the later one a later
-- revision: of two that read the same revision, only one is applied, so that neither overwrites
-- what it has not read.
pub update_knowledge_once :
    (env : Services) (id : Text) (raw raw' : RawRequest ClassifiedUpdate)
    (input input' : ClassifiedUpdate) (now now' : ℕ) (seen later s t seen' later' s' t' : Store)
    (r r' : Response)
    → raw.fields ≡ some input
    → raw'.fields ≡ some input'
    → lookup input.idempotency_key seen.receipts ≡ none
    → lookup input.idempotency_key s.receipts ≡ none
    → lookup input'.idempotency_key seen'.receipts ≡ none
    → lookup input'.idempotency_key s'.receipts ≡ none
    → update_knowledge env id raw now seen later s ≡ ok (t, r)
    → Reaches env (KeepsMemory id) t s'
    → update_knowledge env id raw' now' seen' later' s' ≡ ok (t', r')
    → input.expected_revision < input'.expected_revision
update_knowledge_once env id raw raw' input input' now now' seen later s t seen' later' s' t' r r' f
      f' a b a' b' h path h' =
    let (u, c, e) = update_knowledge-IsChanged env id raw input now seen later s t r f a b h in
    let (u', c', _) =
      update_knowledge-IsChanged env id raw' input' now' seen' later' s' t' r' f' a' b' h' in
    let stored : lookup id t.memories ≡ some c.claimed =
      ap (λ (w : Store). lookup id w.memories) e ∙ c.puts.stored in
    let (row, g, le) = Reaches-KeepsMemory env id path c.claimed stored in
    let same : row ≡ c'.prior = cc (g, c'.was_there) in
    let le' : c.claimed.revision ≤ c'.prior.revision = rw (← same) le in
    omega (arith, c.puts.says.same_revision, c.expected, c'.expected)
