-- ===== src/Worker/Requeue.antt =====
-- apps/worker/src/steps/ingest-reconciler.ts, `planRequeue`, and the versions of a document in
-- apps/worker/src/steps/document-version.ts.
pub mod Partition
use persistent_memory_stack.Prelude.{
  Bool, List, Option, [], any, default_to, false, head?, if◌then◌else◌, none, some, true, ℕ, ◌+◌,
  ◌∷◌,
}
use persistent_memory_stack.Prelude.Text.{Text, codes, text_eq}

pub record DocumentRow : Type 0 where
  pub id : Text
  pub mime_type : Option Text

pub record SourceRow : Type 0 where
  pub title : Option Text
  pub minio_object_key : Option Text
  pub documents : List DocumentRow

pub record StuckJob : Type 0 where
  pub id : Text
  pub team_id : Text
  pub project : Text
  pub session_id : Option Text
  pub source_id : Option Text
  pub source : Option SourceRow

pub record IngestJobData : Type 0 where
  pub ingest_job_id : Text
  pub source_id : Text
  pub document_id : Text
  pub team_id : Text
  pub project : Text
  pub minio_object_key : Text
  pub mime_type : Text
  pub filename : Text
  pub session_id : Option Text

pub record ReconcilePlan : Type 0 where
  pub payloads : List IngestJobData
  pub skipped_live : ℕ
  pub skipped_unreconstructable : ℕ

-- A text that is neither null nor ''.
abbrev pub truthy : Option Text → Option Text
truthy none = none
truthy (some []) = none
truthy (some (c ∷ s)) = some (c ∷ s)

rebuilt :
    StuckJob → Option Text → Option Text → Option Text → Option DocumentRow → Option IngestJobData
rebuilt job (some source_id) (some key) (some title) (some doc) = some (record {
  ingest_job_id = job.id;
  source_id = source_id;
  document_id = doc.id;
  team_id = job.team_id;
  project = job.project;
  minio_object_key = key;
  mime_type = default_to (codes "application/octet-stream") doc.mime_type;
  filename = title;
  session_id = job.session_id;
})
rebuilt job _ _ _ _ = none

from_source : StuckJob → Option SourceRow → Option IngestJobData
from_source job none = none
from_source job (some src) =
    rebuilt job (truthy job.source_id) (truthy src.minio_object_key) (truthy src.title)
      (head? src.documents)

-- The payload of a job, if its rows suffice for one.
unfoldable pub payload_of : StuckJob → Option IngestJobData
unfolding rebuilt from_source
payload_of job = from_source job job.source

add_job : Bool → Option IngestJobData → ReconcilePlan → ReconcilePlan
add_job true payload plan = record plan { skipped_live = plan.skipped_live + 1 }
add_job false none plan = record plan {
  skipped_unreconstructable = plan.skipped_unreconstructable + 1;
}
add_job false (some p) plan = record plan { payloads = p ∷ plan.payloads }

-- The loop, whose later rounds add after the first one's payload.
unfoldable pub plan_requeue : List StuckJob → List Text → ReconcilePlan
unfolding add_job
plan_requeue [] live = record { payloads = []; skipped_live = 0; skipped_unreconstructable = 0 }
plan_requeue (job ∷ jobs) live =
    add_job (any (λ id. text_eq id job.id) live) (payload_of job) (plan_requeue jobs live)

pub data IngestAction : Type 0 where
  first unchanged changed : IngestAction

decide_hash : Option Text → Text → IngestAction
decide_hash none new = first
decide_hash (some prior) new = if text_eq prior new then unchanged else changed

unfoldable pub decide_ingest_action : Option Text → Text → IngestAction
unfolding decide_hash
decide_ingest_action prior new = decide_hash (truthy prior) new

pub record DocumentVersion : Type 0 where
  pub content_hash : Option Text
  pub version_number : ℕ

-- The row that `finalizeDocumentVersion` writes.
unfoldable pub finalize_version : Text → IngestAction → ℕ → DocumentVersion
finalize_version new changed prior = record { content_hash = some new; version_number = prior + 1 }
finalize_version new _ prior = record { content_hash = some new; version_number = prior }
