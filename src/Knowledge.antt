-- ===== src/Knowledge.antt =====
-- packages/shared/src/knowledge/contract.ts and apps/api/src/services/knowledge.ts: the records of
-- the classified write path. Texts are as zod leaves them, trimmed and within their bounds.
pub mod Contract
pub mod Catalog
pub mod Claims
pub mod Receipts
pub mod Writes
pub mod Steps
use persistent_memory_stack.Prelude.{Bool, List, Option, [], false, none, some, true, ℕ, ◌||◌, ◌∷◌}
use persistent_memory_stack.Prelude.Text.{Text, codes, text_eq}

pub data MemoryType : Type 0 where
  fact decision preference procedure event constraint : MemoryType

pub data AssertionStatus : Type 0 where
  fact observation proposal inference : AssertionStatus

pub data UpdateIntent : Type 0 where
  correction supersession additional_evidence reclassification : UpdateIntent

pub data RelationType : Type 0 where
  about uses evaluates prefers supported_by supersedes : RelationType

pub data SourceKind : Type 0 where
  user document tool web agent import : SourceKind

pub record KnowledgeSource : Type 0 where
  pub kind : SourceKind
  pub reference : Text
  pub evidence : Text

-- The kinds of the terms of the catalog.
pub data TermKind : Type 0 where
  topic project system : TermKind

abbrev pub same_kind : TermKind → TermKind → Bool
same_kind topic topic = true
same_kind project project = true
same_kind system system = true
same_kind _ _ = false

abbrev pub kind_text : TermKind → Text
kind_text topic = codes "topic"
kind_text project = codes "project"
kind_text system = codes "system"

pub data OriginKind : Type 0 where
  general : OriginKind
  of_term : TermKind → OriginKind

pub record Origin : Type 0 where
  pub kind : OriginKind
  pub name : Option Text

pub data ApplicabilityState : Type 0 where
  associated general unresolved : ApplicabilityState

pub record Applicability : Type 0 where
  pub state : ApplicabilityState
  pub projects : Option (List Text)
  pub systems : Option (List Text)
  pub reason : Option Text

pub data TargetKind : Type 0 where
  memory entity : TargetKind
  of_term : TermKind → TargetKind

-- The last two are those of the links to the primary topic and to the sources, which no request has.
pub data LinkStatus : Type 0 where
  proposed inferred source_supported classified source_reported : LinkStatus

pub record Link : Type 0 where
  pub relation : RelationType
  pub target_kind : TargetKind
  pub target_name : Text
  pub status : LinkStatus
  pub source_references : List Text

pub record Classification : Type 0 where
  pub memory_type : MemoryType
  pub assertion_status : AssertionStatus
  pub primary_topic : Text
  pub topic_tags : List Text
  pub origin : Origin
  pub applicability : Applicability
  pub sources : List KnowledgeSource
  pub entities : Option (List Text)
  pub additional_tags : Option (List Text)
  pub title : Option Text
  pub relationships : Option (List Link)

pub data Issue : Type 0 where
  primary_topic_missing duplicate_topics general_named origin_unnamed : Issue
  association_missing association_claimed reason_missing unresolved_fact changes_missing : Issue
  unsourced_link unproposed_link : ℕ → Issue

-- The codes of the errors that are thrown; `invalid_result` is zod's own error, and
-- `duplicate_row` is the database's.
pub data KnowledgeError : Type 0 where
  memory_contract_upgrade_required personal_owner_required unused_resolution : KnowledgeError
  memory_classification_invalid : List Issue → KnowledgeError
  classification_ambiguous classification_resolution_required : TermKind → Text → KnowledgeError
  idempotency_conflict content_validation_unavailable content_validation_failed : KnowledgeError
  pii_detected validator_failed not_found revision_conflict : KnowledgeError
  legacy_classification_required : List Issue → KnowledgeError
  intent_conflict projection_conflict relationship_target_unreadable : KnowledgeError
  relationship_target_unresolved duplicate_row : KnowledgeError
  invalid_result : List Issue → KnowledgeError

-- `values ?? []`
abbrev pub listed {ℓ} : {A : Type ℓ} → Option (List A) → List A
listed none = []
listed (some xs) = xs

-- `values.includes(text)`
abbrev pub includes : Text → List Text → Bool
includes t [] = false
includes t (u ∷ us) = text_eq u t || includes t us
