-- ===== src/Resources/Evaluation/Kept.antt =====
-- The checks of evaluateResources leave the model of the assessment as it is.
use Prim.Native.String.{String}
use persistent_memory_stack.Prelude.Text.{Text}
use persistent_memory_stack.Prelude.{
  Bool, Bool-cases, List, Option, Option-cases, [], false, if◌then◌else◌, inl, inr, ltb, none, refl,
  some, true, ℕ, ◌*◌, ◌∙◌, ◌∷◌, ◌≡◌,
}
use persistent_memory_stack.Resources.Models.{ResourceModel, ResourceQuantities, ResourceSnapshot}
use persistent_memory_stack.Resources.Evaluation.{
  DiskGroup, IssueCode, MemoryName, Reservation, ResourceAssessment, assess, block, block_if,
  check_all, check_disks, check_docker, check_groups, check_host, check_storage, check_value,
  docker_disk_minimum, docker_disk_recommended, docker_storage_unknown, evaluate_resources, gib,
  graded, group_disks, memory, model_of, note_if, reservations_of, started, unknown, usable, warn,
}

graded_lem :
    (low fair : Bool) (c d : IssueCode) (a : ResourceAssessment)
    → (graded low fair (block c) (warn d) a).model ≡ a.model
unfolding block warn
graded_lem true fair c d a = refl
graded_lem false true c d a = refl
graded_lem false false c d a = refl

check_value_lem :
    (value : Option ℕ) (least good : ℕ) (absent low fair : IssueCode) (a : ResourceAssessment)
    → (check_value value least good absent low fair a).model ≡ a.model
unfolding check_value block
check_value_lem none least good absent low fair a = refl
check_value_lem (some v) least good absent low fair a =
    graded_lem (ltb v least) (ltb v good) low fair a

memory_lem :
    (name : MemoryName) (value : Option ℕ) (least good : ℕ) (a : ResourceAssessment)
    → (memory name value least good a).model ≡ a.model
unfolding memory
memory_lem name value least good a = check_value_lem value _ _ _ _ _ a

note_if_lem : (b : Bool) (c : IssueCode) (a : ResourceAssessment) → (note_if b c a).model ≡ a.model
unfolding note_if unknown
note_if_lem true c a = refl
note_if_lem false c a = refl

block_if_lem :
    (b : Bool) (c : IssueCode) (a : ResourceAssessment) → (block_if b c a).model ≡ a.model
unfolding block_if block
block_if_lem true c a = refl
block_if_lem false c a = refl

check_host_lem :
    (s : ResourceSnapshot) (least good : ResourceQuantities) (a : ResourceAssessment)
    → (check_host s least good a).model ≡ a.model
unfolding check_host
check_host_lem s least good a =
    check_value_lem s.cpu_count _ _ _ _ _ _
    ∙ block_if_lem _ _ _
    ∙ note_if_lem _ _ _
    ∙ memory_lem _ _ _ _ _
    ∙ note_if_lem _ _ _
    ∙ memory_lem _ _ _ _ a

check_docker_lem :
    (s : ResourceSnapshot) (least good : ResourceQuantities) (a : ResourceAssessment)
    → (check_docker s least good a).model ≡ a.model
unfolding check_docker block
check_docker_lem s least good a = elim (Bool-cases s.docker_ok) [
  | inl e ↦ rw e (check_value_lem s.docker_cpus _ _ _ _ _ _ ∙ memory_lem _ _ _ _ a)
  | inr e ↦ rw e refl
]

group_disks_lem :
    (rs : List Reservation) (groups : List (Text × DiskGroup)) (a : ResourceAssessment)
    → (group_disks rs groups a).1.model ≡ a.model
unfolding group_disks block
group_disks_lem [] groups a = refl
group_disks_lem (r ∷ rs) groups a = elim (Option-cases (usable r.disk)) [
  | inl e ↦ rw (e, group_disks) (group_disks_lem rs groups _)
  | inr ((id, free), e) ↦ rw (e, group_disks) (group_disks_lem rs _ a)
]

check_groups_lem :
    (groups : List (Text × DiskGroup)) (a : ResourceAssessment)
    → (check_groups groups a).model ≡ a.model
unfolding check_groups
check_groups_lem [] a = refl
check_groups_lem ((id, g) ∷ gs) a = check_groups_lem gs _ ∙ graded_lem _ _ _ _ a

check_disks_lem :
    (s : ResourceSnapshot) (m : ResourceModel) (a : ResourceAssessment)
    → (check_disks s m a).model ≡ a.model
unfolding check_disks
check_disks_lem s m a = check_groups_lem _ _ ∙ group_disks_lem (reservations_of s m) [] a

check_storage_lem :
    (s : ResourceSnapshot) (least good : ResourceQuantities) (a : ResourceAssessment)
    → (check_storage s least good a).model ≡ a.model
unfolding check_storage unknown
check_storage_lem s least good a = by_cases s.docker_ok s.docker_storage
  where
    by_cases :
        (up : Bool) (storage : Option ℕ)
        → (if up
            then elim storage [
              | none ↦ unknown docker_storage_unknown a
              | some free ↦
                  graded
                    (ltb free (least.docker_disk * gib))
                    (ltb free (good.docker_disk * gib))
                    (block docker_disk_minimum)
                    (warn docker_disk_recommended)
                    a
            ]
            else a).model
          ≡ a.model
    by_cases false storage = refl
    by_cases true none = refl
    by_cases true (some v) = graded_lem _ _ _ _ a

-- An assessment of a model of the table names that model.
pub evaluate_resources_lem :
    (s : ResourceSnapshot) (provider name : String) (m : ResourceModel)
    → model_of provider name ≡ some m
    → (evaluate_resources s provider name).model ≡ some m
unfolding evaluate_resources assess check_all started
evaluate_resources_lem s provider name m e = rw e (
    check_storage_lem s _ _ _
    ∙ note_if_lem _ _ _
    ∙ note_if_lem _ _ _
    ∙ check_disks_lem s m _
    ∙ check_docker_lem s _ _ _
    ∙ check_host_lem s _ _ _)
