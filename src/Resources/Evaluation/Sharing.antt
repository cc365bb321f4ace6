-- ===== src/Resources/Evaluation/Sharing.antt =====
-- What is reserved on one filesystem.
use persistent_memory_stack.Prelude.{
  Bool-cases, Elem, List, Option, Option-cases, [], ap, arith, if◌then◌else◌, inl, inr, none, refl,
  some, ℕ, ◌*◌, ◌+◌, ◌∙◌, ◌∷◌, ◌≡◌, ◌≤◌, ◌⊎◌,
}
use persistent_memory_stack.Prelude.Text.{Text, text_eq, text_eq_iff}
use persistent_memory_stack.Prelude.Assoc.{
  insert, lookup, lookup-insert, lookup-insert_other, text_differ,
}
use persistent_memory_stack.Resources.Evaluation.{
  DiskGroup, Reservation, ResourceAssessment, block, filesystem_unknown, gib, group_disks, joined,
  started, usable,
}

-- The filesystems that reservations fall on, with what is reserved on each.
abbrev pub disk_groups : List Reservation → List (Text × DiskGroup)
disk_groups rs = (group_disks rs [] (started none)).0

-- A filesystem has room for all that is reserved on it.
abbrev pub HasRoom : Text × DiskGroup → Type 0
HasRoom (id, g) = g.least * gib ≤ g.free

-- The part of an amount that falls on a filesystem.
abbrev share : Text → Option (Text × ℕ) → ℕ → ℕ
share id none amount = 0
share id (some (other, free)) amount = if text_eq other id then amount else 0

-- The sum of the minimums that are reserved on a filesystem.
pub total : Text → List Reservation → ℕ
total id [] = 0
total id (r ∷ rs) = share id (usable r.disk) r.least + total id rs

abbrev least_in : Option DiskGroup → ℕ
least_in none = 0
least_in (some g) = g.least

abbrev pub Groups : Type 0
Groups = List (Text × DiskGroup)

joined-least :
    (r : Reservation) (free : ℕ) (o : Option DiskGroup)
    → (joined r free o).least ≡ least_in o + r.least
joined-least r free none = omega arith
joined-least r free (some g) = refl

-- The effect of one reservation on the minimum of each group.
least_in-insert :
    (id other : Text) (free : ℕ) (r : Reservation) (groups : Groups)
    → least_in (lookup id (insert other (joined r free (lookup other groups)) groups))
      ≡ share id (some (other, free)) r.least + least_in (lookup id groups)
least_in-insert id other free r groups = elim (Bool-cases (text_eq other id)) [
  | inl e ↦
      let same = (text_eq_iff other id).0 e in
      rw (e, same, lookup-insert id (joined r free (lookup id groups)) groups)
        (omega (arith, joined-least r free (lookup id groups)))
  | inr e ↦
      rw
        (
          e,
          lookup-insert_other other id (joined r free (lookup other groups)) groups
              (text_differ other id e),
        )
        (omega arith)
]

group_disks-total :
    (rs : List Reservation) (groups : Groups) (a : ResourceAssessment) (id : Text)
    → least_in (lookup id (group_disks rs groups a).0) ≡ total id rs + least_in (lookup id groups)
unfolding group_disks total
group_disks-total [] groups a id = omega arith
group_disks-total (r ∷ rs) groups a id = elim (Option-cases (usable r.disk)) [
  | inl e ↦
      rw (e, group_disks)
        (omega (arith, group_disks-total rs groups (block filesystem_unknown a) id))
  | inr ((other, free), e) ↦
      rw (e, group_disks)
        (omega (
          arith,
          group_disks-total rs (insert other (joined r free (lookup other groups)) groups) a id,
          least_in-insert id other free r groups,
        ))
]

-- No group that there is loses its bound.
abbrev IsBounded : ℕ → Option DiskGroup → Type 0
IsBounded free none = ⊥
IsBounded free (some g) = g.free ≤ free

joined-IsBounded :
    (r : Reservation) (free bound : ℕ) (o : Option DiskGroup)
    → (free ≤ bound) ⊎ IsBounded bound o
    → (joined r free o).free ≤ bound
joined-IsBounded r free bound none (inl h) = h
joined-IsBounded r free bound none (inr h) = absurd h
joined-IsBounded r free bound (some g) (inl h) = omega arith
joined-IsBounded r free bound (some g) (inr h) = omega arith

insert-IsBounded :
    (id other : Text) (free bound : ℕ) (r : Reservation) (groups : Groups)
    → IsBounded bound (lookup id groups)
    → IsBounded bound (lookup id (insert other (joined r free (lookup other groups)) groups))
insert-IsBounded id other free bound r groups h = elim (Bool-cases (text_eq other id)) [
  | inl e ↦
      let same = (text_eq_iff other id).0 e in
      rw (same, lookup-insert id (joined r free (lookup id groups)) groups)
        (joined-IsBounded r free bound (lookup id groups) (inr h))
  | inr e ↦
      rw
        (lookup-insert_other other id (joined r free (lookup other groups)) groups
          (text_differ other id e))
        h
]

group_disks-IsBounded :
    (rs : List Reservation) (groups : Groups) (a : ResourceAssessment) (id : Text) (bound : ℕ)
    → IsBounded bound (lookup id groups)
    → IsBounded bound (lookup id (group_disks rs groups a).0)
unfolding group_disks
group_disks-IsBounded [] groups a id bound h = h
group_disks-IsBounded (r ∷ rs) groups a id bound h = elim (Option-cases (usable r.disk)) [
  | inl e ↦ rw (e, group_disks) (group_disks-IsBounded rs groups _ id bound h)
  | inr ((other, free), e) ↦
      rw (e, group_disks)
        (group_disks-IsBounded rs _ a id bound (insert-IsBounded id other free bound r groups h))
]

group_disks-measured :
    (rs : List Reservation) (groups : Groups) (a : ResourceAssessment) (q : Reservation) (id : Text)
    (free : ℕ)
    → Elem q rs
    → usable q.disk ≡ some (id, free)
    → IsBounded free (lookup id (group_disks rs groups a).0)
unfolding group_disks
group_disks-measured [] groups a q id free h u = absurd h
group_disks-measured (r ∷ rs) groups a q id free (inl same) u =
    let e : usable r.disk ≡ some (id, free) = ap (λ x. usable (Reservation.disk x)) same ∙ u in
    rw (e, group_disks)
      (group_disks-IsBounded rs _ a id free (
        rw (lookup-insert id (joined r free (lookup id groups)) groups)
          (joined-IsBounded r free free (lookup id groups) (inl (omega arith)))))
group_disks-measured (r ∷ rs) groups a q id free (inr h) u = elim (Option-cases (usable r.disk)) [
  | inl e ↦ rw (e, group_disks) (group_disks-measured rs groups _ q id free h u)
  | inr ((other, f), e) ↦ rw (e, group_disks) (group_disks-measured rs _ a q id free h u)
]

-- Each measured reservation lies in the group of its filesystem, which holds the sum of all the
-- minimums reserved there, and counts no more free space than this reservation's measurement gave.
pub disk_groups_lem :
    (rs : List Reservation) (q : Reservation) (id : Text) (free : ℕ)
    → Elem q rs
    → usable q.disk ≡ some (id, free)
    → (g : DiskGroup) × (lookup id (disk_groups rs) ≡ some g)
      × (g.least ≡ total id rs)
      × (g.free ≤ free)
disk_groups_lem rs q id free h u =
    by_group (lookup id (disk_groups rs)) refl
      (group_disks-measured rs [] (started none) q id free h u)
      (group_disks-total rs [] (started none) id)
  where
    by_group :
        (o : Option DiskGroup)
        → lookup id (disk_groups rs) ≡ o
        → IsBounded free o
        → least_in o ≡ total id rs + least_in (lookup {V = DiskGroup} id [])
        → (g : DiskGroup) × (o ≡ some g) × (g.least ≡ total id rs) × (g.free ≤ free)
    by_group none e h k = absurd h
    by_group (some g) e h k = unfold lookup in (g, refl, omega (arith, k), h)
