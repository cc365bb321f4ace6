-- ===== src/Knowledge/Receipts.antt =====
-- The tables of the write path, and `withReceipt` and `existingReceipt`: a request is applied once
-- for its key. A transaction is a function of the store that it starts from, and what it throws
-- leaves the store as it is; the lock of the owner lets no other write in between.
pub mod Answers
use persistent_memory_stack.Prelude.{Bool, List, Option, false, is_some, none, some, true, ℕ, ◌||◌}
use persistent_memory_stack.Prelude.Assoc.{insert, lookup}
use persistent_memory_stack.Prelude.Result.{Result, ok, require, ◌>>=◌, ◌>>◌}
use persistent_memory_stack.Prelude.Text.{Text, text_eq}
use persistent_memory_stack.Knowledge.{
  KnowledgeError, KnowledgeSource, UpdateIntent, idempotency_conflict, personal_owner_required,
}
use persistent_memory_stack.Knowledge.Catalog.{KnowledgeTerm}
use persistent_memory_stack.Knowledge.Claims.{ProcessStatus, Projection, Row, pending}

pub data RevisionIntent : Type 0 where
  create legacy_snapshot : RevisionIntent
  by : UpdateIntent → RevisionIntent

pub record Revision : Type 0 where
  pub memory_id : Text
  pub revision : ℕ
  pub snapshot : Row
  pub intent : RevisionIntent
  pub reason : Text
  pub evidence : List KnowledgeSource

pub record Response : Type 0 where
  pub row : Row
  pub is_classified : Bool
  pub is_processing : Bool

pub record Receipt : Type 0 where
  pub request_hash : Text
  pub response : Response

-- What an owner sees: rows that are deleted or not personal are hidden by the row rules.
pub record Store : Type 0 where
  pub terms : List KnowledgeTerm
  pub projection : Projection
  pub memories : List (Text × Row)
  pub history : List Revision
  pub receipts : List (Text × Receipt)

abbrev is_pending : ProcessStatus → Bool
is_pending pending = true
is_pending _ = false

abbrev pub knowledge_result : Row → Response
knowledge_result row = record {
  row = row;
  is_classified = is_some row.columns.knowledge;
  is_processing = is_pending row.embedding_status || is_pending row.graph_status;
}

-- The response that a receipt keeps, if it is one of this request.
pub replayed : Text → Receipt → Result KnowledgeError Response
replayed hash r = do require (text_eq r.request_hash hash) idempotency_conflict; ok r.response

abbrev pub with_new_receipt : Text → Text → Store × Response → Store × Response
with_new_receipt key hash (t, response) = (
  record t {
    receipts = insert key (record { request_hash = hash; response = response }) t.receipts;
  },
  response,
)

unfoldable pub with_receipt :
    Option Text
    → Text
    → Text
    → (Store → Result KnowledgeError (Store × Response))
    → Store
    → Result KnowledgeError (Store × Response)
unfolding replayed
with_receipt owner key hash apply s = do
  require (is_some owner) personal_owner_required
  elim (lookup key s.receipts) [
    | some r ↦ replayed hash r >>= λ response. ok (s, response)
    | none ↦ apply s >>= λ applied. ok (with_new_receipt key hash applied)
  ]

unfoldable pub existing_receipt :
    Option Text → Text → Text → Store → Result KnowledgeError (Option Response)
unfolding replayed
existing_receipt owner key hash s = do
  require (is_some owner) personal_owner_required
  elim (lookup key s.receipts) [
    | some r ↦ replayed hash r >>= λ response. ok (some response)
    | none ↦ ok none
  ]
