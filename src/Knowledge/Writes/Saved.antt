-- ===== src/Knowledge/Writes/Saved.antt =====
-- When a memory is saved.
use persistent_memory_stack.Prelude.{
  All, List, [], any, ap, false, find?, is_some, none, refl, some, true, ℕ, ◌∙◌, ◌∷◌, ◌≡◌, ◌≢◌,
}
use persistent_memory_stack.Prelude.Assoc.{insert, lookup, lookup-insert}
use persistent_memory_stack.Prelude.Result.{ok}
use persistent_memory_stack.Prelude.Text.{Text}
use persistent_memory_stack.Knowledge.{Classification, listed, topic}
use persistent_memory_stack.Knowledge.Contract.Consistent.{IsConsistent}
use persistent_memory_stack.Knowledge.Catalog.{KnowledgeTerm, resolve_classification}
use persistent_memory_stack.Knowledge.Catalog.Resolved.{resolve_classification-IsConsistent}
use persistent_memory_stack.Knowledge.Claims.{Row, classification_data, is_claim_of, is_term}
use persistent_memory_stack.Knowledge.Claims.Persisted.{HasTarget, persist_claim_lem}
use persistent_memory_stack.Knowledge.Receipts.{
  Response, Revision, Store, existing_receipt, knowledge_result, with_new_receipt, with_receipt,
}
use persistent_memory_stack.Knowledge.Writes.{
  ClassifiedWrite, RawRequest, Services, accept, accept_row, add_revision, assert_content,
  create_memory, created_revision, is_revision, new_row, parse_knowledge, save_knowledge,
  write_issues,
}
use persistent_memory_stack.Knowledge.Writes.Effects.{create_memory-IsCreated, persist_claim-Says}

-- The id is new to the tables, the names are resolved, and what is linked to is there.
pub record CanCreate (env : Services) (input : ClassifiedWrite) (id : Text) (now : ℕ) (s : Store)
    : Type 0 where
  pub terms : List KnowledgeTerm
  pub classification : Classification
  pub resolved :
      resolve_classification env.read input.classification input.resolutions s.terms
      ≡ ok (terms, classification)
  pub is_new : lookup id s.memories ≡ none
  pub unclaimed :
      find? (is_claim_of (new_row id input.content classification now)) s.projection.claims ≡ none
  pub unrecorded : find? (is_revision id 1) s.history ≡ none
  pub topical : any (is_term topic classification.primary_topic) terms ≡ true
  pub linked :
      All
        (HasTarget
          (λ k. lookup k (insert id (new_row id input.content classification now) s.memories))
          terms
          classification)
        (listed classification.relationships)

-- A request of a known owner that no receipt answers, and that the contract, the scan and the
-- validator let through.
pub record MaySave (env : Services) (raw : RawRequest ClassifiedWrite) (input : ClassifiedWrite)
    (seen s : Store) : Type 0 where
  pub parsed : parse_knowledge write_issues raw ≡ ok input
  pub owned : is_some env.owner ≡ true
  pub unseen : lookup input.idempotency_key seen.receipts ≡ none
  pub unstored : lookup input.idempotency_key s.receipts ≡ none
  pub clean : env.is_clean input ≡ true
  pub accepted : env.verdict input.content ≡ accept

add_revision_lem :
    (r : Revision) (history : List Revision)
    → find? (is_revision r.memory_id r.revision) history ≡ none
    → add_revision r history ≡ ok (r ∷ history)
unfolding add_revision
add_revision_lem r history e = rw (e, add_revision) refl

create_memory_lem :
    (env : Services) (input : ClassifiedWrite) (id : Text) (now : ℕ) (s : Store)
    → CanCreate env input id now s
    → (u : Store) × (r : Response) × (create_memory env input id now s ≡ ok (u, r))
unfolding create_memory accept_row
create_memory_lem env input id now s can =
    let c = can.classification in
    let row = new_row id input.content c now in
    let memories = insert id row s.memories in
    let (p, claimed, persisted) =
      persist_claim_lem env.hashes (λ k. lookup k memories) can.terms false [] row c s.projection
        can.unclaimed can.topical can.linked in
    let says =
      persist_claim-Says env.hashes (λ k. lookup k memories) can.terms false [] row c s.projection p
        claimed persisted in
    let unrecorded : find? (is_revision claimed.id claimed.revision) s.history ≡ none =
      ap (λ (j : Text). find? (is_revision j claimed.revision) s.history) says.same_id
      ∙ ap (λ (n : ℕ). find? (is_revision id n) s.history) says.same_revision
      ∙ can.unrecorded in
    (
      record s {
        terms = can.terms;
        projection = p;
        memories = insert id claimed memories;
        history = created_revision claimed c ∷ s.history;
      },
      knowledge_result claimed,
      rw
          (
            can.resolved,
            can.is_new,
            persisted,
            add_revision_lem (created_revision claimed c) s.history unrecorded,
          )
          refl,
    )

-- The memory that a save leaves.
pub record IsSaved (env : Services) (input : ClassifiedWrite) (id : Text) (s t : Store)
    (r : Response) : Type 0 where
  pub row : Row
  pub classification : Classification
  pub stored : lookup id t.memories ≡ some row
  pub first : row.revision ≡ 1
  pub content : row.content ≡ input.content
  pub columns : row.columns ≡ classification_data classification
  pub consistent : IsConsistent classification
  pub others : (j : Text) → id ≢ j → lookup j t.memories ≡ lookup j s.memories
  pub recorded : t.history ≡ created_revision row classification ∷ s.history
  pub receipt :
      lookup input.idempotency_key t.receipts
      ≡ some (record { request_hash = env.hash_create input; response = r })
  pub answer : r ≡ knowledge_result row

-- A request of a known owner that is no replay, and that the contract, the scan and the validator
-- let through, is saved, if its id is new, its names are resolved and the targets of its links are
-- there: the memory has the content and the columns of a consistent classification, as its first
-- revision, which is recorded; the other memories are as they were, and the receipt has the
-- response.
pub save_knowledge-IsSaved :
    (env : Services) (raw : RawRequest ClassifiedWrite) (input : ClassifiedWrite) (id : Text)
    (now : ℕ) (seen s : Store)
    → MaySave env raw input seen s
    → CanCreate env input id now s
    → (t : Store) × (r : Response) × (save_knowledge env raw id now seen s ≡ ok (t, r))
      × IsSaved env input id s t r
unfolding save_knowledge existing_receipt with_receipt assert_content
save_knowledge-IsSaved env raw input id now seen s may can =
    let (u, r, made) = create_memory_lem env input id now s can in
    let c = create_memory-IsCreated env input id now s u r made in
    let t = (with_new_receipt input.idempotency_key (env.hash_create input) (u, r)).0 in
    (
      t,
      r,
      rw (may.parsed, may.owned, may.unseen, may.clean, may.accepted, may.owned, may.unstored, made)
          refl,
      record {
        row = c.claimed;
        classification = c.classification;
        stored = c.puts.stored;
        first = c.puts.says.same_revision;
        content = c.puts.says.same_content;
        columns = c.puts.says.same_columns;
        consistent = resolve_classification-IsConsistent _ _ _ _ _ _ c.resolved;
        others = c.puts.others;
        recorded = c.recorded;
        receipt =
            lookup-insert input.idempotency_key
              (record { request_hash = env.hash_create input; response = r }) u.receipts;
        answer = c.answer;
      },
    )
