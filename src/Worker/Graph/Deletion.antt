-- ===== src/Worker/Graph/Deletion.antt =====
-- What a deletion plan holds.
use persistent_memory_stack.Prelude.{
  Bool, Bool-cases, Elem, List, Option, [], ap, false, if◌then◌else◌, inl, inr, refl, true, ◌∷◌,
  ◌≡◌, ◌⊎◌,
}
use persistent_memory_stack.Prelude.Text.{Text, text_eq, text_eq_iff}
use persistent_memory_stack.Worker.Graph.{
  GraphEpisodeReference, build_graph_deletion_plan, dedupe, episode_key, is_seen, plus_current,
}

-- A reference to an episode, by its key, is in the list.
abbrev pub IsPlanned : GraphEpisodeReference → List GraphEpisodeReference → Type 0
IsPlanned r plan = (s : GraphEpisodeReference) × Elem s plan × (episode_key s ≡ episode_key r)

-- No key is that of an earlier reference.
pub HasDistinctKeys : List Text → List GraphEpisodeReference → Type 0
HasDistinctKeys seen [] = Unit
HasDistinctKeys seen (r ∷ rs) =
    (is_seen seen (episode_key r) ≡ false) × HasDistinctKeys (episode_key r ∷ seen) rs

dedupe-HasDistinctKeys :
    (seen : List Text) (rs : List GraphEpisodeReference) → HasDistinctKeys seen (dedupe seen rs)
unfolding dedupe HasDistinctKeys
dedupe-HasDistinctKeys seen [] = tt
dedupe-HasDistinctKeys seen (r ∷ rs) =
    by_seen (is_seen seen (episode_key r)) refl (dedupe-HasDistinctKeys seen rs)
      (dedupe-HasDistinctKeys (episode_key r ∷ seen) rs)
  where
    by_seen :
        (b : Bool)
        → is_seen seen (episode_key r) ≡ b
        → HasDistinctKeys seen (dedupe seen rs)
        → HasDistinctKeys (episode_key r ∷ seen) (dedupe (episode_key r ∷ seen) rs)
        → HasDistinctKeys seen (if b then dedupe seen rs else r ∷ dedupe (episode_key r ∷ seen) rs)
    by_seen true e h k = h
    by_seen false e h k = (e, k)

dedupe-IsPlanned :
    (seen : List Text) (r : GraphEpisodeReference) (rs : List GraphEpisodeReference)
    → Elem r rs
    → (is_seen seen (episode_key r) ≡ true) ⊎ IsPlanned r (dedupe seen rs)
unfolding dedupe
dedupe-IsPlanned seen r [] h = absurd h
dedupe-IsPlanned seen r (q ∷ rs) h =
    by_seen h (is_seen seen (episode_key q)) refl (λ m. dedupe-IsPlanned seen r rs m)
      (λ m. dedupe-IsPlanned (episode_key q ∷ seen) r rs m)
  where
    by_seen :
        Elem r (q ∷ rs)
        → (b : Bool) → is_seen seen (episode_key q) ≡ b
        → (Elem r rs → (is_seen seen (episode_key r) ≡ true) ⊎ IsPlanned r (dedupe seen rs))
        → (Elem r rs
            → (is_seen (episode_key q ∷ seen) (episode_key r) ≡ true)
              ⊎ IsPlanned r (dedupe (episode_key q ∷ seen) rs))
        → (is_seen seen (episode_key r) ≡ true)
          ⊎ IsPlanned r (if b then dedupe seen rs else q ∷ dedupe (episode_key q ∷ seen) rs)
    by_seen (inl same) true e f g = inl (rw (← same) e)
    by_seen (inl same) false e f g = inr (q, inl refl, ap episode_key same)
    by_seen (inr m) true e f g = f m
    by_seen (inr m) false e f g = elim (g m) [
      | inr (s, k, l) ↦ inr (s, inr k, l)
      | inl h ↦ elim (Bool-cases (text_eq (episode_key q) (episode_key r))) [
        | inl t ↦ inr (q, inl refl, (text_eq_iff _ _).0 t)
        | inr t ↦ inl (cc (t, h))
      ]
    ]

-- The plan names each key once, and the key of every episode of the provenance and of the current
-- one.
build_graph_deletion_plan_lem :
    (current : Option GraphEpisodeReference) (provenance : List GraphEpisodeReference)
    → HasDistinctKeys [] (build_graph_deletion_plan current provenance)
      × ((r : GraphEpisodeReference)
          → Elem r (plus_current provenance current)
          → IsPlanned r (build_graph_deletion_plan current provenance))
unfolding build_graph_deletion_plan
build_graph_deletion_plan_lem current provenance = (
  dedupe-HasDistinctKeys [] (plus_current provenance current),
  λ r h. elim (dedupe-IsPlanned [] r (plus_current provenance current) h) [
    | inl e ↦ absurd (cc e)
    | inr k ↦ k
  ],
)
