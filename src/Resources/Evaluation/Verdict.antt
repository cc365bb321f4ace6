-- ===== src/Resources/Evaluation/Verdict.antt =====
-- When an installation is allowed.
use persistent_memory_stack.Prelude.Text.{Text}
use Prim.Native.String.{String}
use persistent_memory_stack.Prelude.{none, some, true, ℕ, ◌*◌, ◌≡◌, ◌≢◌, ◌≤◌}
use persistent_memory_stack.Resources.Models.{ResourceModel, ResourceQuantities, ResourceSnapshot}
use persistent_memory_stack.Resources.Evaluation.{Reservation, gib, usable}
use persistent_memory_stack.Resources.Evaluation.Needs.{DisksSuffice}
use persistent_memory_stack.Resources.Evaluation.Clear.{DockerSuffices, HostSuffices}

-- The filesystem of a reservation and its free space are known.
abbrev IsMeasured : Reservation → Type 0
IsMeasured r = usable r.disk ≢ none

-- Docker's own storage blocks only if it is known to be too small.
abbrev StorageSuffices : ResourceSnapshot → ResourceQuantities → Type 0
StorageSuffices s least =
    (free : ℕ) → s.docker_ok ≡ true → s.docker_storage ≡ some free → least.docker_disk * gib ≤ free

-- All the minimums of a model's budget.
pub record Suffices (s : ResourceSnapshot) (m : ResourceModel) : Type 0 where
  pub host : HostSuffices s m.budget.minimum
  pub docker : DockerSuffices s m.budget.minimum
  pub disks : DisksSuffice s m
  pub storage : StorageSuffices s m.budget.minimum
