-- ===== src/Knowledge/Writes.antt =====
-- `parseKnowledge`, `saveKnowledge` and `updateKnowledge`. A request reads the store before its
-- transaction, when others may still write: those earlier stores are arguments. What zod's field
-- rules, the hashes, the scan for private data and the validator give are parameters.
pub mod Kept
pub mod Effects
pub mod Saved
use persistent_memory_stack.Prelude.{
  Bool, List, Option, [], default_to, false, find?, if◌then◌else◌, is_some, none, not, or_else,
  some, true, ℕ, ◌&&◌, ◌++◌, ◌+◌, ◌==◌, ◌∷◌,
}
use persistent_memory_stack.Prelude.Assoc.{insert, lookup}
use persistent_memory_stack.Prelude.Result.{Result, err, ok, require, ◌>>=◌, ◌>>◌}
use persistent_memory_stack.Prelude.Text.{Text, codes, text_eq}
use persistent_memory_stack.Knowledge.{
  Classification, Issue, KnowledgeError, KnowledgeSource, UpdateIntent, additional_evidence,
  changes_missing, content_validation_failed, content_validation_unavailable, duplicate_row,
  intent_conflict, legacy_classification_required, memory_classification_invalid,
  memory_contract_upgrade_required, not_found, pii_detected, reclassification, revision_conflict,
  validator_failed,
}
use persistent_memory_stack.Knowledge.Contract.{classification_issues, is_nil, issue_if}
use persistent_memory_stack.Knowledge.Catalog.{
  KnowledgeResolution, KnowledgeTerm, parse_classification, resolve_classification,
}
use persistent_memory_stack.Knowledge.Claims.{
  Dependency, Hashes, Row, classification_data, pending, persist_claim,
}
use persistent_memory_stack.Knowledge.Receipts.{
  Response, Revision, Store, by, create, existing_receipt, knowledge_result, legacy_snapshot,
  with_receipt,
}

pub record ClassifiedWrite : Type 0 where
  pub content : Text
  pub classification : Classification
  pub idempotency_key : Text
  pub resolutions : Option (List KnowledgeResolution)

pub record ClassifiedUpdate : Type 0 where
  pub expected_revision : ℕ
  pub intent : UpdateIntent
  pub content : Option Text
  pub classification : Option Classification
  pub reason : Text
  pub evidence : List KnowledgeSource
  pub idempotency_key : Text
  pub resolutions : Option (List KnowledgeResolution)

-- A request as it comes: its version, and what the field rules make of it.
pub record RawRequest (A : Type 0) : Type 0 where
  pub contract_version : Option ℕ
  pub fields : Option A

pub data Verdict : Type 0 where
  accept unclear malformed failing : Verdict

pub record Services : Type 0 where
  pub owner : Option Text
  pub read : Classification → Option Classification
  pub read_content : Text → Option Text
  pub hashes : Hashes
  pub hash_create : ClassifiedWrite → Text
  pub hash_update : Text → ClassifiedUpdate → Text
  pub is_clean : ClassifiedWrite → Bool
  pub is_clean_update : ClassifiedUpdate → ClassifiedWrite → Bool
  pub verdict : Text → Verdict

abbrev pub is_current : Option ℕ → Bool
is_current none = false
is_current (some v) = v == 2

-- The issues that the contract itself adds to those of the field rules.
abbrev pub write_issues : ClassifiedWrite → List Issue
write_issues input = classification_issues input.classification

abbrev pub update_issues : ClassifiedUpdate → List Issue
update_issues input =
    issue_if (not (is_some input.content) && not (is_some input.classification)) changes_missing
    ++ elim input.classification [ none ↦ [] | some c ↦ classification_issues c ]

unfoldable pub parse_knowledge :
    {A : Type 0} → (A → List Issue) → RawRequest A → Result KnowledgeError A
parse_knowledge issues raw = do
  require (is_current raw.contract_version) memory_contract_upgrade_required
  elim raw.fields [
    | none ↦ err (memory_classification_invalid [])
    | some input ↦ do
      require (is_nil (issues input)) (memory_classification_invalid (issues input))
      ok input
  ]

pub assert_content : Verdict → Result KnowledgeError (Unit {0})
assert_content accept = ok tt
assert_content unclear = err content_validation_failed
assert_content malformed = err content_validation_unavailable
assert_content failing = err validator_failed

-- `create` on the table of revisions, whose key is the memory and the number.
abbrev pub is_revision : Text → ℕ → Revision → Bool
is_revision id n r = text_eq r.memory_id id && r.revision == n

pub add_revision : Revision → List Revision → Result KnowledgeError (List Revision)
add_revision r history = do
  require (not (is_some (find? (is_revision r.memory_id r.revision) history))) duplicate_row
  ok (r ∷ history)

abbrev pub new_row : Text → Text → Classification → ℕ → Row
new_row id content c now = record {
  id = id;
  content = content;
  created_at = now;
  revision = 1;
  columns = classification_data c;
  embedding_status = pending;
  graph_status = pending;
  graph_version = now;
  record_updated_at = now;
  source_id = none;
  dependencies = [];
}

abbrev pub created_revision : Row → Classification → Revision
created_revision row c = record {
  memory_id = row.id;
  revision = row.revision;
  snapshot = row;
  intent = create;
  reason = codes "Explicit classified capture.";
  evidence = c.sources;
}

-- The common end of both transactions: the row is put, its claims are persisted and its revision
-- is recorded.
pub accept_row :
    Services
    → Store
    → List KnowledgeTerm
    → List Dependency
    → Text
    → Row
    → Classification
    → (Row → Revision)
    → List Revision
    → Result KnowledgeError (Store × Response)
unfolding add_revision
accept_row env s terms previous id row c revision history = do
  let memories = insert id row s.memories
  (p, claimed) ←
      persist_claim env.hashes (λ k. lookup k memories) terms false previous row c s.projection
  after ← add_revision (revision claimed) history
  ok (
    record s {
      terms = terms;
      projection = p;
      memories = insert id claimed memories;
      history = after;
    },
    knowledge_result claimed,
  )

-- The transaction of `saveKnowledge`.
pub create_memory :
    Services → ClassifiedWrite → Text → ℕ → Store → Result KnowledgeError (Store × Response)
unfolding accept_row
create_memory env input id now s = do
  (terms, c) ← resolve_classification env.read input.classification input.resolutions s.terms
  require (not (is_some (lookup id s.memories))) duplicate_row
  accept_row env s terms [] id (new_row id input.content c now) c
      (λ claimed. created_revision claimed c) s.history

unfoldable pub save_knowledge :
    Services
    → RawRequest ClassifiedWrite
    → Text
    → ℕ
    → Store
    → Store
    → Result KnowledgeError (Store × Response)
unfolding parse_knowledge assert_content create_memory
save_knowledge env raw id now seen s = do
  input ← parse_knowledge write_issues raw
  receipt ← existing_receipt env.owner input.idempotency_key (env.hash_create input) seen
  elim receipt [
    | some response ↦ ok (s, response)
    | none ↦ do
      require (env.is_clean input) pii_detected
      assert_content (env.verdict input.content)
      with_receipt env.owner input.idempotency_key (env.hash_create input)
          (create_memory env input id now) s
  ]

-- `KnowledgeWrite.safeParse` of what a record would become.
pub candidate_of :
    Services → Text → Text → Option Classification → Result KnowledgeError ClassifiedWrite
candidate_of env key content knowledge = elim knowledge [
  | none ↦ err (memory_classification_invalid [])
  | some k ↦ elim (env.read_content content) [
    | none ↦ err (memory_classification_invalid [])
    | some text ↦ do
      c ← parse_classification env.read memory_classification_invalid k
      ok (record { content = text; classification = c; idempotency_key = key; resolutions = none })
  ]
]

-- `changes.content && changes.content !== prior.content`
abbrev pub replaces_content : Option Text → Text → Bool
replaces_content (some (c ∷ cs)) content = not (text_eq (c ∷ cs) content)
replaces_content _ content = false

abbrev pub keeps_content : UpdateIntent → Bool
keeps_content additional_evidence = true
keeps_content reclassification = true
keeps_content _ = false

pub found : Option Row → Result KnowledgeError Row
found none = err not_found
found (some row) = ok row

abbrev pub legacy_revision : Text → Row → Revision
legacy_revision id row = record {
  memory_id = id;
  revision = row.revision;
  snapshot = row;
  intent = legacy_snapshot;
  reason = codes "Preserved before first classified update; no historical evidence inferred.";
  evidence = [];
}

-- The row as it was is kept, unless the history has its revision.
unfoldable pub keep_prior : Text → Row → List Revision → List Revision
keep_prior id row history =
    if is_some (find? (is_revision id row.revision) history)
    then history
    else legacy_revision id row ∷ history

abbrev pub changed_row : Row → ClassifiedUpdate → Classification → ℕ → Row
changed_row prior input c now = record prior {
  content = default_to prior.content input.content;
  columns = classification_data c;
  revision = prior.revision + 1;
  record_updated_at = now;
  embedding_status = pending;
  graph_status = pending;
  graph_version = now;
}

abbrev pub changed_revision : Text → ClassifiedUpdate → Row → Revision
changed_revision id input row = record {
  memory_id = id;
  revision = row.revision;
  snapshot = row;
  intent = by input.intent;
  reason = input.reason;
  evidence = input.evidence;
}

abbrev pub legacy_classification : Option Classification → Result KnowledgeError Classification
legacy_classification none = err (legacy_classification_required [])
legacy_classification (some c) = ok c

-- The transaction of `updateKnowledge`.
pub change_memory :
    Services → Text → ClassifiedUpdate → ℕ → Store → Result KnowledgeError (Store × Response)
unfolding candidate_of found keep_prior accept_row
change_memory env id input now s = do
  prior ← found (lookup id s.memories)
  require (prior.revision == input.expected_revision) revision_conflict
  k ← legacy_classification (or_else input.classification prior.columns.knowledge)
  parsed ← parse_classification env.read legacy_classification_required k
  resulting ←
      candidate_of env input.idempotency_key (default_to prior.content input.content) (some parsed)
  (terms, c) ← resolve_classification env.read parsed input.resolutions s.terms
  require (not (keeps_content input.intent && replaces_content input.content prior.content))
      intent_conflict
  accept_row env s terms prior.dependencies id (changed_row prior input c now) c
      (changed_revision id input) (keep_prior id prior s.history)

-- The second store is the one in which the current row is read.
unfoldable pub update_knowledge :
    Services
    → Text
    → RawRequest ClassifiedUpdate
    → ℕ
    → Store
    → Store
    → Store
    → Result KnowledgeError (Store × Response)
unfolding parse_knowledge assert_content candidate_of found change_memory
update_knowledge env id raw now seen later s = do
  input ← parse_knowledge update_issues raw
  receipt ← existing_receipt env.owner input.idempotency_key (env.hash_update id input) seen
  elim receipt [
    | some response ↦ ok (s, response)
    | none ↦ do
      current ← found (lookup id later.memories)
      require (current.revision == input.expected_revision) revision_conflict
      candidate ←
          candidate_of env input.idempotency_key (default_to current.content input.content)
            (or_else input.classification current.columns.knowledge)
      require (env.is_clean_update input candidate) pii_detected
      assert_content (env.verdict candidate.content)
      with_receipt env.owner input.idempotency_key (env.hash_update id input)
          (change_memory env id input now) s
  ]
