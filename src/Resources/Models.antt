-- ===== src/Resources/Models.antt =====
-- The types of resource-policy.ts and the table of models. A number of bytes is absent where the
-- source has null or a number that `known` refuses, one that is negative or not finite.
use Prim.Native.String.{String}
use persistent_memory_stack.Prelude.{Bool, List, Option, [], false, if◌then◌else◌, true, ℕ, ◌∷◌}
use persistent_memory_stack.Prelude.Text.{Text}

pub record DiskResources : Type 0 where
  pub filesystem_id : Option Text
  pub free_bytes : Option ℕ
  pub measured : Bool

pub data DockerContext : Type 0 where
  at_home at_remote at_unknown : DockerContext

pub record ResourceSnapshot : Type 0 where
  pub platform : String
  pub host_arch : String
  pub cpu_count : Option ℕ
  pub total_memory : Option ℕ
  pub free_memory : Option ℕ
  pub available_memory : Option ℕ
  -- 'macos-vm-stat' is true, 'os-free' is false
  pub available_source : Option Bool
  pub available_reason : Option String
  pub memory_reason : Option String
  pub install_disk : DiskResources
  pub ollama_disk : DiskResources
  pub docker_host_disk : Option DiskResources
  pub docker_ok : Bool
  pub docker_context : Option DockerContext
  pub docker_memory : Option ℕ
  pub docker_cpus : Option ℕ
  pub docker_storage : Option ℕ

pub record ResourceQuantities : Type 0 where
  pub host_memory : ℕ
  pub free_host_memory : ℕ
  pub docker_memory_gib : ℕ
  pub install_disk_gib : ℕ
  pub model_disk : ℕ
  pub docker_disk : ℕ
  pub cpus : ℕ

pub record ResourceBudget : Type 0 where
  pub minimum : ResourceQuantities
  pub recommended : ResourceQuantities

pub record ResourceModel : Type 0 where
  pub provider : String
  pub model : String
  pub dim : ℕ
  pub is_local : Bool
  pub budget : ResourceBudget

quantities : ℕ → ℕ → ℕ → Bool → ResourceQuantities
quantities ram free disk ample = record {
  host_memory = ram;
  free_host_memory = free;
  docker_memory_gib = if ample then 6 else 4;
  install_disk_gib = if ample then 60 else 35;
  model_disk = disk;
  docker_disk = if ample then 40 else 25;
  cpus = if ample then 4 else 2;
}

budget_of : ℕ → ℕ → ℕ → ℕ → ℕ → ℕ → ResourceBudget
budget_of ram free disk rec_ram rec_free rec_disk = record {
  minimum = quantities ram free disk false;
  recommended = quantities rec_ram rec_free rec_disk true;
}

entry : String → String → ℕ → Bool → ResourceBudget → ResourceModel
entry provider model dim is_local budget = record {
  provider = provider;
  model = model;
  dim = dim;
  is_local = is_local;
  budget = budget;
}

unfoldable pub resource_models : List ResourceModel
unfolding quantities budget_of entry
resource_models =
    entry "ollama" "nomic-embed-text" 768 true (budget_of 12 3 2 16 5 4)
    ∷ entry "ollama" "qwen3-embedding:0.6b" 1024 true (budget_of 16 4 4 24 6 6)
    ∷ entry "ollama" "qwen3-embedding:4b" 2560 true (budget_of 24 6 8 32 10 12)
    ∷ entry "ollama" "qwen3-embedding:8b" 4096 true (budget_of 48 12 16 64 16 24)
    ∷ entry "openai" "text-embedding-3-small" 1536 false (budget_of 8 2 0 16 4 0)
    ∷ entry "openai" "text-embedding-3-large" 3072 false (budget_of 8 2 0 16 4 0)
    ∷ entry "voyage" "voyage-4" 1024 false (budget_of 8 2 0 16 4 0)
    ∷ entry "voyage" "voyage-4-large" 1024 false (budget_of 8 2 0 16 4 0)
    ∷ entry "voyage" "voyage-4-lite" 1024 false (budget_of 8 2 0 16 4 0)
    ∷ entry "voyage" "voyage-3-large" 1024 false (budget_of 8 2 0 16 4 0)
    ∷ []
