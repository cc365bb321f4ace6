-- ===== src/Resources/Evaluation/Needs.antt =====
-- What a model reserves on the disks, and what they must offer.
use persistent_memory_stack.Prelude.Text.{Text, text_eq_iff}
use mathlib.Core.Path.{subst}
use persistent_memory_stack.Prelude.{
  Bool-cases, Elem, List, Option, Option-cases, [], arith, false, if◌then◌else◌, inl, inr, none,
  refl, some, sym, true, ℕ, ◌++◌, ◌↔◌, ◌∙◌, ◌∷◌, ◌≡◌, ◌≢◌,
}
use persistent_memory_stack.Resources.Models.{DiskResources, ResourceModel, ResourceSnapshot}
use persistent_memory_stack.Resources.Evaluation.{
  Reservation, docker_reservation, reservations_of, same_filesystem,
}
use persistent_memory_stack.Resources.Evaluation.Rooms.{HasRooms, IsOn}

-- Each disk that something is reserved on is measured.
abbrev pub AreMeasured : List Reservation → Type 0
AreMeasured rs = (q : Reservation) → Elem q rs → (id : Text) × (free : ℕ) × IsOn q.disk id free

abbrev for_install : ResourceSnapshot → ResourceModel → Reservation
for_install s m = record {
  disk = s.install_disk;
  least = m.budget.minimum.install_disk_gib;
  good = m.budget.recommended.install_disk_gib;
}

abbrev for_model : ResourceSnapshot → ResourceModel → Reservation
for_model s m = record {
  disk = s.ollama_disk;
  least = m.budget.minimum.model_disk;
  good = m.budget.recommended.model_disk;
}

abbrev for_docker : ResourceModel → DiskResources → Reservation
for_docker m disk = record {
  disk = disk;
  least = m.budget.minimum.docker_disk;
  good = m.budget.recommended.docker_disk;
}

-- A local model has a reservation, and Docker has one where its disk is known and on another
-- filesystem than the installation.
pub record IsNeeded (s : ResourceSnapshot) (m : ResourceModel) (models docker : List Reservation)
    : Type 0 where
  pub local_model : m.is_local ≡ true → models ≡ for_model s m ∷ []
  pub remote_model : m.is_local ≡ false → models ≡ []
  pub no_disk : s.docker_host_disk ≡ none → docker ≡ []
  pub shared :
      (d : DiskResources)
      → s.docker_host_disk ≡ some d
      → d.filesystem_id ≡ s.install_disk.filesystem_id
      → docker ≡ []
  pub apart :
      (d : DiskResources)
      → s.docker_host_disk ≡ some d
      → d.filesystem_id ≢ s.install_disk.filesystem_id
      → docker ≡ for_docker m d ∷ []

same_filesystem_iff : (a b : Option Text) → (same_filesystem a b ≡ true) ↔ (a ≡ b)
same_filesystem_iff none none = ((λ h. refl), λ h. refl)
same_filesystem_iff none (some t) = ((λ h. absurd (cc h)), λ h. absurd (cc h))
same_filesystem_iff (some t) none = ((λ h. absurd (cc h)), λ h. absurd (cc h))
same_filesystem_iff (some t) (some u) = ground (arith, text_eq_iff t u)

abbrev models_of : ResourceSnapshot → ResourceModel → List Reservation
models_of s m = if m.is_local then for_model s m ∷ [] else []

abbrev docker_of : ResourceSnapshot → ResourceModel → List Reservation
docker_of s m = docker_reservation s m.budget.minimum m.budget.recommended s.docker_host_disk

reservations_of-IsNeeded :
    (s : ResourceSnapshot) (m : ResourceModel) → IsNeeded s m (models_of s m) (docker_of s m)
reservations_of-IsNeeded s m = record {
  local_model = λ e. rw e refl;
  remote_model = λ e. rw e refl;
  no_disk = λ e. rw e refl;
  shared = λ d e same. rw (e, (same_filesystem_iff _ _).1 same) refl;
  apart = λ d e other.
      elim (Bool-cases (same_filesystem d.filesystem_id s.install_disk.filesystem_id)) [
        | inl t ↦ absurd (other ((same_filesystem_iff _ _).0 t))
        | inr t ↦ rw (e, t) refl
      ];
}

IsNeeded-unique :
    (s : ResourceSnapshot) (m : ResourceModel) (models docker : List Reservation)
    → IsNeeded s m models docker
    → (models ≡ models_of s m) × (docker ≡ docker_of s m)
IsNeeded-unique s m models docker h =
    let k = reservations_of-IsNeeded s m in
    (
      elim (Bool-cases m.is_local) [
        | inl e ↦ h.local_model e ∙ sym (k.local_model e)
        | inr e ↦ h.remote_model e ∙ sym (k.remote_model e)
      ],
      elim (Option-cases s.docker_host_disk) [
        | inl e ↦ h.no_disk e ∙ sym (k.no_disk e)
        | inr (d, e) ↦
            elim (Bool-cases (same_filesystem d.filesystem_id s.install_disk.filesystem_id)) [
              | inl t ↦
                  let same = (same_filesystem_iff _ _).0 t in
                  h.shared d e same ∙ sym (k.shared d e same)
              | inr t ↦
                  let other : d.filesystem_id ≢ s.install_disk.filesystem_id =
                    λ q. cc (t, (same_filesystem_iff _ _).1 q) in
                  h.apart d e other ∙ sym (k.apart d e other)
            ]
      ],
    )

-- What the disks must offer to the reservations together.
abbrev pub DisksSuffice : ResourceSnapshot → ResourceModel → Type 0
DisksSuffice s m =
    (models : List Reservation) × (docker : List Reservation) × IsNeeded s m models docker
    × AreMeasured (for_install s m ∷ (models ++ docker))
    × HasRooms (for_install s m ∷ (models ++ docker))

pub DisksSuffice-iff :
    (s : ResourceSnapshot) (m : ResourceModel)
    → (AreMeasured (reservations_of s m) × HasRooms (reservations_of s m)) ↔ DisksSuffice s m
unfolding reservations_of
DisksSuffice-iff s m = (
  (λ (ms, room). (models_of s m, docker_of s m, reservations_of-IsNeeded s m, ms, room)),
  λ (models, docker, h, ms, room).
      let (a, b) = IsNeeded-unique s m models docker h in
      let same : for_install s m ∷ (models ++ docker)
          ≡ for_install s m ∷ (models_of s m ++ docker_of s m) =
        cc (a, b) in
      (subst AreMeasured same ms, subst HasRooms same room),
)
