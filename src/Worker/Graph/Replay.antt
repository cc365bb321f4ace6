-- ===== src/Worker/Graph/Replay.antt =====
-- What a replay reports.
use persistent_memory_stack.Prelude.{
  Bool, Bool-cases, Elem, List, Option, [], arith, false, inl, inr, none, or_false, refl, some,
  true, ◌&&◌, ◌↔◌, ◌∷◌, ◌≡◌,
}
use persistent_memory_stack.Prelude.Text.{Text, text_eq, text_eq_iff}
use persistent_memory_stack.Worker.Graph.{
  EpisodeImpact, GraphOperationRow, ReplayResult, add_row, checked, replay_operations, still_there,
  succeeds,
}

-- No entry says that the episode is present.
abbrev pub IsAbsent : Text → List EpisodeImpact → Type 0
IsAbsent episode impacts =
    (i : EpisodeImpact) → Elem i impacts → i.episode_uuid ≡ episode → i.is_present ≡ false

entry :
    (episode : Text) (i : EpisodeImpact)
    → ((text_eq i.episode_uuid episode && i.is_present) ≡ false)
      ↔ (i.episode_uuid ≡ episode → i.is_present ≡ false)
entry episode i = ground (arith, text_eq_iff i.episode_uuid episode)

still_there_iff :
    (episode : Text) (impacts : List EpisodeImpact)
    → (still_there episode impacts ≡ false) ↔ IsAbsent episode impacts
still_there_iff episode [] = ((λ h i m. absurd m), λ h. refl)
still_there_iff episode (i ∷ is) = (
  (λ h j m.
      let (first, rest) = or_false _ _ h in
      elim m [
        | inl e ↦ rw (← e) ((entry episode i).0 first)
        | inr k ↦ (still_there_iff episode is).0 rest j k
      ]),
  λ h.
      rw ((entry episode i).1 (h i (inl refl)), (still_there_iff episode is).1 (λ j m. h j (inr m)))
        refl,
)

same-IsAbsent :
    {episode : Text} {is js : List EpisodeImpact}
    → some is ≡ some js
    → IsAbsent episode js
    → IsAbsent episode is
same-IsAbsent {is = is} {js = js} e h = let same : is ≡ js = cc in rw same h

module _ (remove : Text → Text → Bool) (impact : Text → Text → Option (List EpisodeImpact)) where
  -- Removed, and then absent from the answer of a query for its group.
  abbrev pub IsRemoved : GraphOperationRow → Type 0
  IsRemoved row =
      (remove row.graph_group_id row.graph_episode_id ≡ true)
      × ((impacts : List EpisodeImpact) × (impact row.graph_group_id row.graph_episode_id
            ≡ some impacts)
          × IsAbsent row.graph_episode_id impacts)

  succeeds_iff : (row : GraphOperationRow) → (succeeds remove impact row ≡ true) ↔ IsRemoved row
  succeeds_iff row =
      by_calls (remove row.graph_group_id row.graph_episode_id)
        (impact row.graph_group_id row.graph_episode_id)
    where
      by_calls :
          (b : Bool) (found : Option (List EpisodeImpact))
          → ((b && checked remove impact row.graph_episode_id found) ≡ true) ↔ (
              (b ≡ true)
              × ((impacts : List EpisodeImpact) × (found ≡ some impacts)
                  × IsAbsent row.graph_episode_id impacts))
      by_calls false found = ((λ h. absurd (cc)), λ (e, _). absurd (cc))
      by_calls true none = ((λ h. absurd (cc)), λ (_, (_, e, _)). absurd (cc))
      by_calls true (some is) =
          let (there, absent) = still_there_iff row.graph_episode_id is in
          elim (Bool-cases (still_there row.graph_episode_id is)) [
            | inl t ↦ (
              (λ h. absurd (cc (t, h))),
              λ (_, (js, e, n)). absurd (cc (t, absent (same-IsAbsent e n))),
            )
            | inr t ↦ ((λ h. (refl, (is, refl, there t))), λ h. cc t)
          ]

  -- Each row in its turn goes to one of the two lists, which keep the order of the rows.
  pub data IsReported : List GraphOperationRow → List Text → List Text → Type 0 where
    no_rows : IsReported [] [] []
    is_completed :
        {row : GraphOperationRow} {rows : List GraphOperationRow} {completed failed : List Text}
        → IsRemoved row
        → IsReported rows completed failed
        → IsReported (row ∷ rows) (row.id ∷ completed) failed
    is_failed :
        {row : GraphOperationRow} {rows : List GraphOperationRow} {completed failed : List Text}
        → ¬ IsRemoved row
        → IsReported rows completed failed
        → IsReported (row ∷ rows) completed (row.id ∷ failed)

  add_row-IsReported :
      (row : GraphOperationRow) (rows : List GraphOperationRow) (r : ReplayResult)
      → IsReported rows r.completed_ids r.failed_ids
      → (b : Bool) → succeeds remove impact row ≡ b
      → let more = add_row remove impact b row.id r in
        IsReported (row ∷ rows) more.completed_ids more.failed_ids
  add_row-IsReported row rows r h true e = is_completed ((succeeds_iff row).0 e) h
  add_row-IsReported row rows r h false e =
      is_failed (λ removed. cc (e, (succeeds_iff row).1 removed)) h

  -- Each operation in its turn is reported once, in the order of the rows: as completed when the call
  -- removed its episode and a query for the group then answered without an entry that says that the
  -- episode is present, and as failed otherwise.
  pub replay_operations-IsReported :
      (rows : List GraphOperationRow)
      → let r = replay_operations remove impact rows in IsReported rows r.completed_ids r.failed_ids
  unfolding replay_operations
  replay_operations-IsReported [] = no_rows
  replay_operations-IsReported (row ∷ rows) =
      add_row-IsReported row rows _ (replay_operations-IsReported rows) (succeeds remove impact row)
        refl
