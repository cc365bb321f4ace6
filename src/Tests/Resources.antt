-- ===== src/Tests/Resources.antt =====
-- Runs of the definitions of Resources, and its theorems at concrete inputs.
use persistent_memory_stack.Prelude.{List, [], none, some, true, ◌∷◌, ◌≡◌}
use persistent_memory_stack.Prelude.Text.{codes}
use persistent_memory_stack.Resources.Models.{DiskResources, ResourceSnapshot, at_home}
use persistent_memory_stack.Resources.Evaluation.{Reservation}
use persistent_memory_stack.Resources.Recommendation.{ResourceRecommendation, recommend_resources}
use persistent_memory_stack.Resources.Recommendation.Largest.{
  IsRecommended, recommend_resources-IsRecommended,
}

-- One disk that holds the installation, the models and Docker's data.
abbrev one_disk : DiskResources
one_disk = record {
  filesystem_id = some (codes "d1");
  free_bytes = some 60000000000;
  measured = true;
}

abbrev laptop : ResourceSnapshot
laptop = record {
  platform = "linux";
  host_arch = "x64";
  cpu_count = some 8;
  total_memory = some 17179869184;
  free_memory = some 8589934592;
  available_memory = none;
  available_source = none;
  available_reason = none;
  memory_reason = none;
  install_disk = one_disk;
  ollama_disk = one_disk;
  docker_host_disk = some one_disk;
  docker_ok = true;
  docker_context = some at_home;
  docker_memory = some 6442450944;
  docker_cpus = some 4;
  docker_storage = none;
}

-- The installation and Docker's data on one filesystem.
abbrev installation : Reservation
installation = record { disk = one_disk; least = 35; good = 60 }

abbrev shared_disk : List Reservation
shared_disk = installation ∷ record { disk = one_disk; least = 2; good = 4 } ∷ []

-- A laptop with room on its disk.
abbrev roomy_disk : DiskResources
roomy_disk = record one_disk { free_bytes = some 100000000000 }

abbrev roomy : ResourceSnapshot
roomy = record laptop {
  install_disk = roomy_disk;
  ollama_disk = roomy_disk;
  docker_host_disk = some roomy_disk;
}

recommend_resources-IsRecommended_example :
    (r : ResourceRecommendation) × (recommend_resources roomy ≡ some r) × IsRecommended roomy r
recommend_resources-IsRecommended_example = recommend_resources-IsRecommended roomy
