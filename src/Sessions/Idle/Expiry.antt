-- ===== src/Sessions/Idle/Expiry.antt =====
-- Which ids are returned.
use persistent_memory_stack.Prelude.{
  Bool, Bool-cases, Elem, List, [], ap, arith, inl, inr, leb, leb→le, le→leb, map, select, true, ℕ,
  ◌*◌, ◌+◌, ◌==◌, ◌↔◌, ◌∷◌, ◌≡◌, ◌≤◌,
}
use persistent_memory_stack.Prelude.Text.{Text}
use persistent_memory_stack.Sessions.Idle.{idle_session_ids}

-- An id is returned exactly when a session of that id has been quiet for the whole timeout, which
-- must be positive.
idle_session_ids_iff :
    (id : Text) (sessions : List (Text × ℕ)) (seconds now : ℕ)
    → Elem id (idle_session_ids sessions seconds now)
      ↔ ((1 ≤ seconds) × (at : ℕ) × Elem (id, at) sessions × (at + seconds * 1000 ≤ now))
unfolding idle_session_ids
idle_session_ids_iff id sessions seconds now = elim (Bool-cases (seconds == 0)) [
  | inl e ↦ rw e ((λ h. absurd h), λ (p, _, _, _). absurd (ground arith))
  | inr e ↦ rw e (
    (λ h. let (a, m, q) = to sessions h in (ground arith, a, m, q)),
    λ (_, a, m, q). from sessions a m q,
  )
]
  where
    quiet : Text × ℕ → Bool
    quiet (id, at) = leb (at + seconds * 1000) now

    name : Text × ℕ → Text
    name (id, at) = id

    second : Text × ℕ → ℕ
    second (id, at) = at

    to :
        (m : List (Text × ℕ))
        → Elem id (map name (select quiet m))
        → (at : ℕ) × Elem (id, at) m × (at + seconds * 1000 ≤ now)
    to [] h = absurd h
    to ((j, at) ∷ m) h = elim (Bool-cases (leb (at + seconds * 1000) now)) [
      | inl t ↦ elim (rw t at h) [
        | inl same ↦ (at, inl (ap (λ i. (i, at)) same), leb→le _ _ t)
        | inr more ↦ let (a, k, q) = to m more in (a, inr k, q)
      ]
      | inr t ↦ let (a, k, q) = to m (rw t at h) in (a, inr k, q)
    ]

    from :
        (m : List (Text × ℕ)) (at : ℕ)
        → Elem (id, at) m
        → at + seconds * 1000 ≤ now
        → Elem id (map name (select quiet m))
    from [] at h q = absurd h
    from ((j, b) ∷ m) at (inl e) q =
        let t : leb (b + seconds * 1000) now ≡ true = le→leb _ _ (rw (ap second e) q) in
        rw t (inl (ap name e))
    from ((j, b) ∷ m) at (inr h) q = elim (Bool-cases (leb (b + seconds * 1000) now)) [
      | inl t ↦ rw t (inr (from m at h q))
      | inr t ↦ rw t (from m at h q)
    ]
