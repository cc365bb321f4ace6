-- ===== src/Tests/Worker.antt =====
-- Runs of the definitions of Worker, and its theorems at concrete inputs.
use persistent_memory_stack.Prelude.{Elem, List, [], none, refl, some, true, ◌↔◌, ◌∷◌, ◌≡◌}
use persistent_memory_stack.Prelude.Text.{Text, codes, text_eq}
use persistent_memory_stack.Worker.Requeue.{StuckJob, payload_of, plan_requeue}
use persistent_memory_stack.Worker.Requeue.Partition.{IsPlan, plan_requeue-IsPlan}
use persistent_memory_stack.Worker.Updates.{MemoryUpdateRequest, MemoryUpdateState}
use persistent_memory_stack.Worker.Schedules.{Rows, ScheduledHandler, plan_reconcile}
use persistent_memory_stack.Worker.Schedules.Plan.{IsWanted, plan_reconcile_iff}
use persistent_memory_stack.Worker.Graph.{
  GraphEpisodeReference, GraphOperationRow, build_graph_deletion_plan, replay_operations,
}
use persistent_memory_stack.Worker.Graph.Replay.{IsReported, replay_operations-IsReported}

abbrev lost_job : StuckJob
lost_job = record {
  id = codes "j1";
  team_id = codes "t";
  project = codes "p";
  session_id = none;
  source_id = some (codes "s");
  source = some (record {
    title = some (codes "notes.txt");
    minio_object_key = some (codes "k");
    documents = (record { id = codes "d"; mime_type = none }) ∷ [];
  });
}

abbrev stuck : List StuckJob
stuck = lost_job ∷ record lost_job { id = codes "j2" } ∷ record lost_job { source = none } ∷ []

one_live : (plan_requeue stuck (codes "j2" ∷ [])).skipped_live ≡ 1
unfolding plan_requeue payload_of text_eq
one_live = refl

plan_requeue-IsPlan_example :
    let plan = plan_requeue stuck (codes "j2" ∷ []) in
    IsPlan (codes "j2" ∷ []) stuck plan.payloads plan.skipped_live plan.skipped_unreconstructable
plan_requeue-IsPlan_example = plan_requeue-IsPlan stuck (codes "j2" ∷ [])

abbrev stored_memory : MemoryUpdateState
stored_memory = record {
  content = codes "c";
  project = codes "p";
  session_id = none;
  category = codes "fact";
  entities = codes "e" ∷ [];
}

abbrev same_again : MemoryUpdateRequest
same_again = record {
  content = some (codes "c");
  project = none;
  session_id = some none;
  category = none;
  entities = some (codes "e" ∷ []);
}

abbrev handlers : List ScheduledHandler
handlers =
    record { name = codes "a"; default_cron = codes "1" }
    ∷ record { name = codes "b"; default_cron = codes "2" }
    ∷ []

abbrev job_rows : Rows
job_rows = (codes "b", record { cron = codes "3"; enabled = true }) ∷ []

plan_reconcile_iff_example :
    Elem {A = Text × Text} (codes "b", codes "3") (plan_reconcile handlers job_rows []).to_upsert
    ↔ IsWanted handlers job_rows (codes "b", codes "3")
plan_reconcile_iff_example = plan_reconcile_iff handlers job_rows [] (codes "b") (codes "3")

abbrev episode : GraphEpisodeReference
episode = record { group_id = codes "g"; episode_id = codes "e" }

-- A group id that holds a null takes the key of another reference, which is then not removed.
keys_collide :
    build_graph_deletion_plan none (
      record { group_id = 1 ∷ 0 ∷ 2 ∷ []; episode_id = 3 ∷ [] }
      ∷ record { group_id = 1 ∷ []; episode_id = 2 ∷ 0 ∷ 3 ∷ [] }
      ∷ [])
    ≡ (record { group_id = 1 ∷ 0 ∷ 2 ∷ []; episode_id = 3 ∷ [] } ∷ [])
unfolding build_graph_deletion_plan text_eq
keys_collide = refl

abbrev removal : GraphOperationRow
removal = record { id = codes "o"; graph_group_id = codes "g"; graph_episode_id = codes "e" }

replay_operations-IsReported_example :
    let r = replay_operations (λ g e. true) (λ g e. some []) (removal ∷ []) in
    IsReported (λ g e. true) (λ g e. some []) (removal ∷ []) r.completed_ids r.failed_ids
replay_operations-IsReported_example =
    replay_operations-IsReported (λ g e. true) (λ g e. some []) (removal ∷ [])
