-- ===== src/Resources/Evaluation/Rooms.antt =====
-- When the filesystems have room for what is reserved on them.
use mathlib.Core.Path.{subst}
use persistent_memory_stack.Resources.Models.{DiskResources}
use persistent_memory_stack.Resources.Evaluation.Sharing.{
  Groups, HasRoom, disk_groups, disk_groups_lem, total,
}
use persistent_memory_stack.Prelude.{
  All, Bool, Bool-cases, Elem, List, Option, Option-cases, [], ap, arith, false, inl, inr, none,
  refl, some, sym, true, ℕ, ◌*◌, ◌↔◌, ◌∙◌, ◌∷◌, ◌≡◌, ◌≢◌, ◌≤◌, ◌⊎◌,
}
use persistent_memory_stack.Prelude.Text.{Text, text_eq, text_eq_iff, text_eq_refl}
use persistent_memory_stack.Prelude.Assoc.{
  HasUniqueKeys, insert, insert-HasUniqueKeys, lookup, lookup-insert, lookup-insert_other,
  text_differ,
}
use persistent_memory_stack.Resources.Evaluation.{
  DiskGroup, Reservation, ResourceAssessment, gib, group_disks, joined, started, usable,
}

-- A disk that is measured: its filesystem has a name, not '', and its free bytes are known.
abbrev pub IsOn : DiskResources → Text → ℕ → Type 0
IsOn d id free =
    (d.filesystem_id ≡ some id) × (id ≢ []) × (d.free_bytes ≡ some free) × (d.measured ≡ true)

pub usable_iff :
    (d : DiskResources) (id : Text) (free : ℕ) → (usable d ≡ some (id, free)) ↔ IsOn d id free
usable_iff d id free = by_fields d.filesystem_id d.free_bytes d.measured
  where
    by_fields :
        (name : Option Text) (bytes : Option ℕ) (m : Bool)
        → (usable (record { filesystem_id = name; free_bytes = bytes; measured = m })
            ≡ some (id, free))
          ↔ ((name ≡ some id) × (id ≢ []) × (bytes ≡ some free) × (m ≡ true))
    by_fields none bytes m = ((λ h. absurd (cc h)), λ (h, _, _, _). absurd (cc h))
    by_fields (some []) bytes m = ((λ h. absurd (cc h)), λ (h, n, _, _). absurd (n (cc h)))
    by_fields (some (c ∷ cs)) none m = ((λ h. absurd (cc h)), λ (_, _, h, _). absurd (cc h))
    by_fields (some (c ∷ cs)) (some f) false = ((λ h. absurd (cc h)), λ (_, _, _, h). absurd (cc h))
    by_fields (some (c ∷ cs)) (some f) true = (
      (λ h.
          let first : c ∷ cs ≡ id = cc h in
          let second : f ≡ free = cc h in
          (ap some first, (λ e. cc (first, e)), ap some second, refl)),
      λ (a, _, b, _).
          let first : c ∷ cs ≡ id = cc a in let second : f ≡ free = cc b in cc (first, second),
    )

-- Every measured disk that something is reserved on has room for all that is reserved on its
-- filesystem.
abbrev pub HasRooms : List Reservation → Type 0
HasRooms rs =
    (q : Reservation) (id : Text) (free : ℕ)
    → Elem q rs
    → IsOn q.disk id free
    → total id rs * gib ≤ free

group_disks-HasUniqueKeys :
    (rs : List Reservation) (groups : Groups) (a : ResourceAssessment)
    → HasUniqueKeys groups
    → HasUniqueKeys (group_disks rs groups a).0
unfolding group_disks
group_disks-HasUniqueKeys [] groups a h = h
group_disks-HasUniqueKeys (r ∷ rs) groups a h = elim (Option-cases (usable r.disk)) [
  | inl e ↦ rw (e, group_disks) (group_disks-HasUniqueKeys rs groups _ h)
  | inr ((other, free), e) ↦
      rw (e, group_disks) (group_disks-HasUniqueKeys rs _ a (insert-HasUniqueKeys other _ groups h))
]

-- The free space of a group is the one of a reservation on its filesystem, or of the group before.
abbrev IsAttained : List Reservation → Groups → Text → DiskGroup → Type 0
IsAttained rs groups id g =
    ((q : Reservation) × Elem q rs × (usable q.disk ≡ some (id, g.free)))
    ⊎ ((old : DiskGroup) × (lookup id groups ≡ some old) × (old.free ≡ g.free))

joined-free :
    (r : Reservation) (free : ℕ) (o : Option DiskGroup)
    → ((joined r free o).free ≡ free)
      ⊎ ((old : DiskGroup) × (o ≡ some old) × (old.free ≡ (joined r free o).free))
joined-free r free none = inl refl
joined-free r free (some g) = elim (le_or g.free free) [
  | inl h ↦ inr (g, refl, omega arith)
  | inr h ↦ inl (omega arith)
]
  where
    le_or : (a b : ℕ) → (a ≤ b) ⊎ (b ≤ a)
    le_or a b = ground arith

insert-IsAttained :
    (r : Reservation) (other id : Text) (free : ℕ) (groups : Groups) (old g : DiskGroup)
    → usable r.disk ≡ some (other, free)
    → lookup id (insert other (joined r free (lookup other groups)) groups) ≡ some old
    → old.free ≡ g.free
    → (usable r.disk ≡ some (id, g.free))
      ⊎ ((older : DiskGroup) × (lookup id groups ≡ some older) × (older.free ≡ g.free))
insert-IsAttained r other id free groups old g u h e = elim (Bool-cases (text_eq other id)) [
  | inl t ↦
      let same = (text_eq_iff other id).0 t in
      let is : joined r free (lookup other groups) ≡ old =
        cc (lookup-insert other (joined r free (lookup other groups)) groups, same, h) in
      elim (joined-free r free (lookup other groups)) [
        | inl f ↦
            let eq : free ≡ g.free = sym f ∙ ap DiskGroup.free is ∙ e in inl (cc (u, same, eq))
        | inr (older, k, f) ↦ inr (older, cc (k, same), f ∙ ap DiskGroup.free is ∙ e)
      ]
  | inr t ↦ inr (old, sym (lookup-insert_other other id _ groups (text_differ other id t)) ∙ h, e)
]

group_disks-IsAttained :
    (rs : List Reservation) (groups : Groups) (a : ResourceAssessment) (id : Text) (g : DiskGroup)
    → lookup id (group_disks rs groups a).0 ≡ some g
    → IsAttained rs groups id g
unfolding group_disks
group_disks-IsAttained [] groups a id g h = inr (g, h, refl)
group_disks-IsAttained (r ∷ rs) groups a id g h = elim (Option-cases (usable r.disk)) [
  | inl e ↦ elim (group_disks-IsAttained rs groups _ id g (rw (e, group_disks) at h)) [
    | inl (q, m, u) ↦ inl (q, inr m, u)
    | inr before ↦ inr before
  ]
  | inr ((other, free), e) ↦ elim (group_disks-IsAttained rs _ a id g (rw (e, group_disks) at h)) [
    | inl (q, m, u) ↦ inl (q, inr m, u)
    | inr (old, k, f) ↦ elim (insert-IsAttained r other id free groups old g e k f) [
      | inl u ↦ inl (r, inl refl, u)
      | inr before ↦ inr before
    ]
  ]
]

All-lookup :
    (groups : Groups) (id : Text) (g : DiskGroup)
    → All HasRoom groups
    → lookup id groups ≡ some g
    → HasRoom (id, g)
unfolding lookup
All-lookup [] id g h e = absurd (cc e)
All-lookup ((j, w) ∷ groups) id g (p, h) e = elim (Bool-cases (text_eq j id)) [
  | inl t ↦ let same : w ≡ g = cc (rw (t, lookup) at e) in subst (λ x. HasRoom (id, x)) same p
  | inr t ↦ All-lookup groups id g h (rw (t, lookup) at e)
]

lookup-All :
    (groups : Groups)
    → HasUniqueKeys groups
    → ((id : Text) (g : DiskGroup) → lookup id groups ≡ some g → HasRoom (id, g))
    → All HasRoom groups
unfolding lookup HasUniqueKeys
lookup-All [] u h = tt
lookup-All ((j, w) ∷ groups) (p, u) h = (
  h j w (rw (text_eq_refl j) refl),
  lookup-All groups u (λ id g e. elim (Bool-cases (text_eq j id)) [
    | inl t ↦ absurd (cc (p, (text_eq_iff j id).0 t, e))
    | inr t ↦ h id g (rw (t, lookup) e)
  ]),
)

-- The groups have room exactly when every measured disk has room for all that is reserved on its
-- filesystem.
pub HasRooms-iff : (rs : List Reservation) → All HasRoom (disk_groups rs) ↔ HasRooms rs
HasRooms-iff rs = (
  (λ h q id free m on.
      let (g, e, least, bound) =
        disk_groups_lem rs q id free m ((usable_iff q.disk id free).1 on) in
      let room = All-lookup (disk_groups rs) id g h e in
      subst (λ n. n * gib ≤ free) least (omega arith)),
  λ h.
      lookup-All (disk_groups rs)
        (group_disks-HasUniqueKeys rs [] (started none) (unfold HasUniqueKeys in tt))
        (λ id g e. elim (group_disks-IsAttained rs [] (started none) id g e) [
          | inl (q, m, u) ↦
              let room = h q id g.free m ((usable_iff q.disk id g.free).0 u) in
              let (k, f, least, _) = disk_groups_lem rs q id g.free m u in
              let same : k ≡ g = cc (e, f) in
              subst (λ n. n * gib ≤ g.free) (sym least ∙ ap DiskGroup.least same) room
          | inr (old, k, _) ↦ absurd (nothing id old k)
        ]),
)
  where
    nothing : (id : Text) (old : DiskGroup) → lookup {V = DiskGroup} id [] ≡ some old → ⊥
    nothing id old k = unfold lookup in cc k
