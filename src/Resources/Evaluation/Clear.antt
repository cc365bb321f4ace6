-- ===== src/Resources/Evaluation/Clear.antt =====
-- When the checks of single quantities, of the host and of Docker leave nothing blocked.
use persistent_memory_stack.Prelude.{
  Bool, List, Option, [], ap, arith, false, if◌then◌else◌, ltb, ltb→lt, none, not, refl, some, true,
  ℕ, ◌*◌, ◌++◌, ◌↔◌, ◌∷◌, ◌≡◌, ◌≢◌, ◌≤◌,
}
use persistent_memory_stack.Resources.Models.{ResourceQuantities, ResourceSnapshot}
use persistent_memory_stack.Resources.Evaluation.{
  IssueCode, MemoryName, ResourceAssessment, block, block_if, check_docker, check_host, check_value,
  docker_cpu_minimum, docker_cpu_recommended, docker_cpu_unknown, docker_ram, docker_unavailable,
  free_value, gib, graded, known_arch, memory, note_if, unknown, warn,
}

-- Nothing blocks the installation so far.
abbrev pub IsClear : ResourceAssessment → Type 0
IsClear a = a.blockers ≡ []

-- A measured value of at least this much.
abbrev pub Reaches : Option ℕ → ℕ → Type 0
Reaches none n = ⊥
Reaches (some v) n = n ≤ v

append-nonempty : (xs : List IssueCode) (c : IssueCode) → (xs ++ (c ∷ [])) ≢ []
append-nonempty [] c h = cc
append-nonempty (x ∷ xs) c h = cc

pub block-not-IsClear : (c : IssueCode) (a : ResourceAssessment) → ¬ IsClear (block c a)
unfolding block
block-not-IsClear c a = append-nonempty a.blockers c

pub graded-IsClear :
    (low fair : IssueCode) (value least good : ℕ) (a : ResourceAssessment)
    → IsClear (graded (ltb value least) (ltb value good) (block low) (warn fair) a)
      ↔ (IsClear a × (least ≤ value))
unfolding warn
graded-IsClear low fair value least good a = by_tests (ltb value least) (ltb value good) refl
  where
    by_tests :
        (b c : Bool)
        → ltb value least ≡ b
        → IsClear (graded b c (block low) (warn fair) a) ↔ (IsClear a × (least ≤ value))
    by_tests true c e = (
      (λ h. absurd (block-not-IsClear low a h)),
      λ (_, p). absurd (let q = ltb→lt _ _ e in omega arith),
    )
    by_tests false true e = ((λ h. (h, ground arith)), λ (h, _). h)
    by_tests false false e = ((λ h. (h, ground arith)), λ (h, _). h)

check_value-IsClear :
    (value : Option ℕ) (least good : ℕ) (absent low fair : IssueCode) (a : ResourceAssessment)
    → IsClear (check_value value least good absent low fair a) ↔ (IsClear a × Reaches value least)
unfolding check_value
check_value-IsClear none least good absent low fair a =
    ((λ h. absurd (block-not-IsClear absent a h)), λ (_, p). absurd p)
check_value-IsClear (some v) least good absent low fair a = graded-IsClear low fair v least good a

memory-IsClear :
    (name : MemoryName) (value : Option ℕ) (least good : ℕ) (a : ResourceAssessment)
    → IsClear (memory name value least good a) ↔ (IsClear a × Reaches value (least * gib))
unfolding memory
memory-IsClear name value least good a = check_value-IsClear value _ _ _ _ _ a

pub note_if-IsClear :
    (b : Bool) (c : IssueCode) (a : ResourceAssessment) → IsClear (note_if b c a) ↔ IsClear a
unfolding note_if unknown
note_if-IsClear true c a = ((λ h. h), λ h. h)
note_if-IsClear false c a = ((λ h. h), λ h. h)

block_if-IsClear :
    (b : Bool) (c : IssueCode) (a : ResourceAssessment)
    → IsClear (block_if b c a) ↔ (IsClear a × (b ≡ false))
unfolding block_if
block_if-IsClear true c a = ((λ h. absurd (block-not-IsClear c a h)), λ (_, e). cc)
block_if-IsClear false c a = ((λ h. (h, refl)), λ (h, _). h)

-- What the host must offer.
pub record HostSuffices (s : ResourceSnapshot) (least : ResourceQuantities) : Type 0 where
  pub ram : Reaches s.total_memory (least.host_memory * gib)
  pub free_ram : Reaches (free_value s) (least.free_host_memory * gib)
  pub arch : known_arch s.host_arch ≡ true
  pub host_cpus : Reaches s.cpu_count least.cpus

pub check_host-IsClear :
    (s : ResourceSnapshot) (least good : ResourceQuantities) (a : ResourceAssessment)
    → IsClear (check_host s least good a) ↔ (IsClear a × HostSuffices s least)
unfolding check_host
check_host-IsClear s least good a = (
  λ h.
      let (h, cpus) = (check_value-IsClear s.cpu_count _ _ _ _ _ _).0 h in
      let (h, arch) = (block_if-IsClear _ _ _).0 h in
      let (h, free) = (memory-IsClear _ _ _ _ _).0 ((note_if-IsClear _ _ _).0 h) in
      let (h, total) = (memory-IsClear _ _ _ _ _).0 ((note_if-IsClear _ _ _).0 h) in
      (h, record { ram = total; free_ram = free; arch = not-false _ arch; host_cpus = cpus }),
  λ (h, fits). (check_value-IsClear s.cpu_count _ _ _ _ _ _).1 (
    (block_if-IsClear _ _ _).1 (
      (note_if-IsClear _ _ _).1 (
          (memory-IsClear _ _ _ _ _).1 (
            (note_if-IsClear _ _ _).1 ((memory-IsClear _ _ _ _ _).1 (h, fits.ram)),
            fits.free_ram,
          )),
      ap not fits.arch,
    ),
    fits.host_cpus,
  ),
)
  where
    not-false : (b : Bool) → not b ≡ false → b ≡ true
    not-false true e = refl
    not-false false e = cc

-- What Docker must offer, apart from storage.
abbrev pub DockerSuffices : ResourceSnapshot → ResourceQuantities → Type 0
DockerSuffices s least =
    (s.docker_ok ≡ true)
    × (Reaches s.docker_memory (least.docker_memory_gib * gib) × Reaches s.docker_cpus least.cpus)

pub check_docker-IsClear :
    (s : ResourceSnapshot) (least good : ResourceQuantities) (a : ResourceAssessment)
    → IsClear (check_docker s least good a) ↔ (IsClear a × DockerSuffices s least)
unfolding check_docker
check_docker-IsClear s least good a = by_status s.docker_ok
  where
    after : ResourceAssessment
    after =
        check_value s.docker_cpus least.cpus good.cpus docker_cpu_unknown docker_cpu_minimum
          docker_cpu_recommended
          (memory docker_ram s.docker_memory least.docker_memory_gib good.docker_memory_gib a)

    by_status :
        (up : Bool)
        → IsClear (if not up then block docker_unavailable a else after) ↔ (
            IsClear a
            × ((up ≡ true)
                × (Reaches s.docker_memory (least.docker_memory_gib * gib)
                    × Reaches s.docker_cpus least.cpus)))
    by_status false = ((λ h. absurd (block-not-IsClear _ a h)), λ (_, (e, _)). absurd (cc))
    by_status true = (
      (λ h.
          let (h, cpus) = (check_value-IsClear s.docker_cpus _ _ _ _ _ _).0 h in
          let (h, ram) = (memory-IsClear _ _ _ _ _).0 h in (h, (refl, (ram, cpus)))),
      λ (h, (_, (ram, cpus))).
          (check_value-IsClear s.docker_cpus _ _ _ _ _ _).1
            ((memory-IsClear _ _ _ _ _).1 (h, ram), cpus),
    )
