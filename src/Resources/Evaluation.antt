-- ===== src/Resources/Evaluation.antt =====
-- `evaluateResources`: the assessment that the checks build up, in their order. A blocker or a
-- warning is its code; the messages are left out.
pub mod Clear
pub mod Kept
pub mod Verdict
pub mod Sharing
pub mod Rooms
pub mod Needs
use Prim.Native.String.{String}
use text.Mathlib.Text.{◌==◌ as str_eq}
use persistent_memory_stack.Prelude.{
  Bool, List, Option, [], false, find?, if◌then◌else◌, is_some, ltb, min, none, not, some, true, ℕ,
  ◌&&◌, ◌*◌, ◌++◌, ◌+◌, ◌||◌, ◌∷◌,
}
use persistent_memory_stack.Prelude.Text.{Text, text_eq}
use persistent_memory_stack.Prelude.Assoc.{insert, lookup}
use persistent_memory_stack.Resources.Models.{
  DiskResources, DockerContext, ResourceModel, ResourceQuantities, ResourceSnapshot, at_unknown,
  resource_models,
}

pub data MemoryName : Type 0 where
  host_ram estimated_available_host_ram free_host_ram docker_ram : MemoryName

pub data IssueCode : Type 0 where
  memory_unknown memory_minimum memory_recommended : MemoryName → IssueCode
  unsupported_model host_memory_fallback available_memory_fallback host_architecture : IssueCode
  host_cpu_unknown host_cpu_minimum host_cpu_recommended docker_unavailable : IssueCode
  docker_cpu_unknown docker_cpu_minimum docker_cpu_recommended : IssueCode
  filesystem_unknown disk_minimum disk_recommended docker_host_disk_unknown : IssueCode
  docker_context_unknown docker_storage_unknown docker_disk_minimum docker_disk_recommended :
      IssueCode

pub record ResourceAssessment : Type 0 where
  pub model : Option ResourceModel
  pub allowed : Bool
  pub requires_acknowledgement : Bool
  pub meets_recommended : Bool
  pub blockers : List IssueCode
  pub warnings : List IssueCode

pub block : IssueCode → ResourceAssessment → ResourceAssessment
block code a = record a { blockers = a.blockers ++ (code ∷ []); meets_recommended = false }

pub warn : IssueCode → ResourceAssessment → ResourceAssessment
warn code a = record a { warnings = a.warnings ++ (code ∷ []); meets_recommended = false }

pub unknown : IssueCode → ResourceAssessment → ResourceAssessment
unknown code a = record a { warnings = a.warnings ++ (code ∷ []); requires_acknowledgement = true }

abbrev pub gib : ℕ
gib = 1073741824

-- The three outcomes of a measured value against a minimum and a recommendation.
abbrev pub graded :
    Bool
    → Bool
    → (ResourceAssessment → ResourceAssessment)
    → (ResourceAssessment → ResourceAssessment)
    → ResourceAssessment
    → ResourceAssessment
graded too_low low blocking warning a = if too_low then blocking a else if low then warning a else a

pub check_value :
    Option ℕ → ℕ → ℕ → IssueCode → IssueCode → IssueCode → ResourceAssessment → ResourceAssessment
unfolding block warn
check_value none least good absent low fair a = block absent a
check_value (some value) least good absent low fair a =
    graded (ltb value least) (ltb value good) (block low) (warn fair) a

pub memory : MemoryName → Option ℕ → ℕ → ℕ → ResourceAssessment → ResourceAssessment
memory name value least good =
    check_value value (least * gib) (good * gib) (memory_unknown name) (memory_minimum name)
      (memory_recommended name)

-- A reason is given when it is neither absent nor ''.
abbrev is_given : Option String → Bool
is_given none = false
is_given (some s) = not (str_eq s "")

pub note_if : Bool → IssueCode → ResourceAssessment → ResourceAssessment
note_if condition code a = if condition then unknown code a else a

pub block_if : Bool → IssueCode → ResourceAssessment → ResourceAssessment
block_if condition code a = if condition then block code a else a

abbrev is_estimated : Option Bool → Bool
is_estimated (some true) = true
is_estimated _ = false

abbrev free_name : Option Bool → MemoryName
free_name (some true) = estimated_available_host_ram
free_name _ = free_host_ram

-- `availableMemorySource ? availableMemoryBytes ?? null : freeMemoryBytes`
abbrev pub free_value : ResourceSnapshot → Option ℕ
free_value s = if is_some s.available_source then s.available_memory else s.free_memory

abbrev pub known_arch : String → Bool
known_arch arch = str_eq arch "x64" || str_eq arch "arm64"

pub check_host :
    ResourceSnapshot
    → ResourceQuantities
    → ResourceQuantities
    → ResourceAssessment
    → ResourceAssessment
unfolding memory note_if block_if
check_host s least good a =
    check_value s.cpu_count least.cpus good.cpus host_cpu_unknown host_cpu_minimum
      host_cpu_recommended
      (block_if (not (known_arch s.host_arch)) host_architecture (
        note_if (is_given s.available_reason) available_memory_fallback (
          memory (free_name s.available_source) (free_value s) least.free_host_memory
            good.free_host_memory
            (note_if (is_given s.memory_reason) host_memory_fallback
              (memory host_ram s.total_memory least.host_memory good.host_memory a)))))

pub check_docker :
    ResourceSnapshot
    → ResourceQuantities
    → ResourceQuantities
    → ResourceAssessment
    → ResourceAssessment
unfolding memory block
check_docker s least good a =
    if not s.docker_ok
    then block docker_unavailable a
    else check_value s.docker_cpus least.cpus good.cpus docker_cpu_unknown docker_cpu_minimum
        docker_cpu_recommended
        (memory docker_ram s.docker_memory least.docker_memory_gib good.docker_memory_gib a)

pub record Reservation : Type 0 where
  pub disk : DiskResources
  pub least : ℕ
  pub good : ℕ

abbrev same_filesystem : Option Text → Option Text → Bool
same_filesystem none none = true
same_filesystem (some a) (some b) = text_eq a b
same_filesystem _ _ = false

abbrev docker_reservation :
    ResourceSnapshot
    → ResourceQuantities
    → ResourceQuantities
    → Option DiskResources
    → List Reservation
docker_reservation s least good none = []
docker_reservation s least good (some disk) =
    if same_filesystem disk.filesystem_id s.install_disk.filesystem_id
    then []
    else (record { disk = disk; least = least.docker_disk; good = good.docker_disk }) ∷ []

pub reservations_of : ResourceSnapshot → ResourceModel → List Reservation
reservations_of s m =
    let least = m.budget.minimum in
    let good = m.budget.recommended in
    (record { disk = s.install_disk; least = least.install_disk_gib; good = good.install_disk_gib })
    ∷ ((if m.is_local
          then (record { disk = s.ollama_disk; least = least.model_disk; good = good.model_disk })
            ∷ []
          else [])
        ++ docker_reservation s least good s.docker_host_disk)

pub record DiskGroup : Type 0 where
  pub free : ℕ
  pub least : ℕ
  pub good : ℕ

-- What is measured of a reservation: the filesystem and its free bytes. An empty id is falsy.
abbrev pub usable : DiskResources → Option (Text × ℕ)
usable disk = elim disk.filesystem_id [
  | none ↦ none
  | some [] ↦ none
  | some (c ∷ cs) ↦ elim disk.free_bytes [
    | none ↦ none
    | some free ↦ if disk.measured then some ((c ∷ cs), free) else none
  ]
]

abbrev pub joined : Reservation → ℕ → Option DiskGroup → DiskGroup
joined r free none = record { free = free; least = r.least; good = r.good }
joined r free (some g) = record {
  free = min g.free free;
  least = g.least + r.least;
  good = g.good + r.good;
}

pub group_disks :
    List Reservation
    → List (Text × DiskGroup)
    → ResourceAssessment
    → List (Text × DiskGroup) × ResourceAssessment
group_disks [] groups a = (groups, a)
group_disks (r ∷ rs) groups a = elim (usable r.disk) [
  | none ↦ group_disks rs groups (block filesystem_unknown a)
  | some (id, free) ↦ group_disks rs (insert id (joined r free (lookup id groups)) groups) a
]

pub check_groups : List (Text × DiskGroup) → ResourceAssessment → ResourceAssessment
check_groups [] a = a
check_groups ((id, g) ∷ gs) a = check_groups gs (
    graded (ltb g.free (g.least * gib)) (ltb g.free (g.good * gib)) (block disk_minimum)
      (warn disk_recommended) a)

pub check_disks : ResourceSnapshot → ResourceModel → ResourceAssessment → ResourceAssessment
check_disks s m a =
    let (groups, after) = group_disks (reservations_of s m) [] a in check_groups groups after

abbrev needs_docker_disk : ResourceSnapshot → Bool
needs_docker_disk s =
    not (is_some s.docker_host_disk) && (str_eq s.platform "darwin" || str_eq s.platform "win32")

abbrev is_unknown_context : Option DockerContext → Bool
is_unknown_context (some at_unknown) = true
is_unknown_context _ = false

pub check_storage :
    ResourceSnapshot
    → ResourceQuantities
    → ResourceQuantities
    → ResourceAssessment
    → ResourceAssessment
check_storage s least good a =
    if s.docker_ok
    then elim s.docker_storage [
      | none ↦ unknown docker_storage_unknown a
      | some free ↦
          graded (ltb free (least.docker_disk * gib)) (ltb free (good.docker_disk * gib))
            (block docker_disk_minimum) (warn docker_disk_recommended) a
    ]
    else a

abbrev pub is_empty : List IssueCode → Bool
is_empty [] = true
is_empty (_ ∷ _) = false

pub started : Option ResourceModel → ResourceAssessment
started m = record {
  model = m;
  allowed = false;
  requires_acknowledgement = false;
  meets_recommended = true;
  blockers = [];
  warnings = [];
}

pub check_all : ResourceSnapshot → ResourceModel → ResourceAssessment
check_all s m = check_storage s m.budget.minimum m.budget.recommended (
    note_if (is_unknown_context s.docker_context) docker_context_unknown (
      note_if (needs_docker_disk s) docker_host_disk_unknown (
        check_disks s m (
          check_docker s m.budget.minimum m.budget.recommended
            (check_host s m.budget.minimum m.budget.recommended (started (some m)))))))

abbrev settled : ResourceAssessment → ResourceAssessment
settled a = record a { allowed = is_empty a.blockers }

unfoldable pub model_of : String → String → Option ResourceModel
model_of provider name =
    find? (λ m. str_eq (ResourceModel.provider m) provider && str_eq (ResourceModel.model m) name)
      resource_models

pub assess : ResourceSnapshot → Option ResourceModel → ResourceAssessment
assess s none = block unsupported_model (started none)
assess s (some m) = settled (check_all s m)

unfoldable pub evaluate_resources : ResourceSnapshot → String → String → ResourceAssessment
unfolding assess
evaluate_resources s provider name = assess s (model_of provider name)
