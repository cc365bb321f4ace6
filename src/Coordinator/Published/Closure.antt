-- ===== src/Coordinator/Published/Closure.antt =====
-- The loop of `loadPublishedUpgradeContracts`: its end, and what it has loaded by then.
use persistent_memory_stack.Prelude.Text.{Text, text_eq, text_eq_iff, text_eq_refl}
use persistent_memory_stack.Prelude.Result.{Result, ok, ok-injective, on_bind, on_require}
use persistent_memory_stack.Prelude.{
  All, All-append, List, [], ap, append-nil, append_assoc, arith, false, if◌then◌else◌, length,
  length-append, ltb, ltb→lt, not, refl, some, suc, sym, true, zero, ℕ, ◌++◌, ◌∙◌, ◌∷◌, ◌≡◌, ◌≤◌,
}
use persistent_memory_stack.Prelude.Assoc.{insert}
use persistent_memory_stack.Json.{Json}
use persistent_memory_stack.Upgrade.Lines.Together.{IsSoundAt, validate_each-IsSound}
use persistent_memory_stack.Upgrade.Contract.{Contract}
use persistent_memory_stack.Upgrade.Lines.{validate_each, versions_of}
use persistent_memory_stack.Coordinator.{
  CoordinatorError, fetch_failed, has_text, invalid_contract, timed_out, too_many_releases,
  wrong_version,
}
use persistent_memory_stack.Coordinator.Releases.{
  IsDistinct, has_text-append, open_hop, same_text_value,
}
use persistent_memory_stack.Coordinator.Published.{
  Loading, PublishedReleasePin, Sources, at_target, fetch_published_release_commit, lift_thrown,
  lift_upgrade, load_all, load_published_upgrade_contracts, load_release, of_some, raw_stops,
  valid_published_pin, version_at_commit,
}
use persistent_memory_stack.Coordinator.Published.Queue.{
  Queues, insert-fresh, on_lifted, on_some, queue_stops-Queues, versions_of-append,
}

module _ (sources : Sources) (line : Text) (target : PublishedReleasePin) where
  -- A release that is loaded for a version: its tag was fetched at its commit, where the package has
  -- this version, and it is the chosen target where the version is the target's.
  pub record IsPinned (entry : Text × PublishedReleasePin) : Type 0 where
    pub named : entry.1.version ≡ entry.0
    pub in_form : valid_published_pin entry.1 ≡ true
    pub fetched : sources.fetch entry.1.tag ≡ some entry.1.commit
    pub packaged : version_at_commit sources line entry.1.commit ≡ some entry.0
    pub chosen : text_eq entry.0 target.version ≡ true → entry.1 ≡ target

  -- Between two turns: the versions were queued once each, first those that are loaded.
  pub record Inv (st : Loading) : Type 0 where
    pub order : st.queued ≡ versions_of st.releases ++ st.pending
    pub distinct : IsDistinct st.queued
    pub pinned : All IsPinned st.releases
    pub same : versions_of st.raw_contracts ≡ versions_of st.releases
    pub few : length st.releases ≤ 25
    pub wanted : has_text target.version st.queued ≡ true

  -- What a turn that succeeds has checked.
  pub record Loads (version : Text) (st next : Loading) : Type 0 where
    pub release : PublishedReleasePin
    pub raw : Json
    pub room : ltb (length st.releases) 25 ≡ true
    pub pin : IsPinned (version, release)
    pub then_queued :
        Queues
          (record st {
            releases = insert version release st.releases;
            raw_contracts = insert version raw st.raw_contracts;
          })
          next

  fetch_published_release_commit-lem :
      (release : PublishedReleasePin) (commit : Text)
      → fetch_published_release_commit sources line release ≡ ok commit
      → (valid_published_pin release ≡ true)
        × (sources.fetch release.tag ≡ some release.commit)
        × (version_at_commit sources line release.commit ≡ some release.version)
  unfolding fetch_published_release_commit
  fetch_published_release_commit-lem release commit h = on_require _ _ _ h λ v h.
      on_bind (of_some fetch_failed (sources.fetch release.tag)) _ h λ fetched f h.
        on_require _ _ _ h λ same h. on_require _ _ _ h λ p h.
          let is_same : fetched ≡ release.commit = (text_eq_iff fetched release.commit).0 same in
          (
            v,
            rw is_same at (on_some fetch_failed (sources.fetch release.tag) fetched f),
            rw is_same at
                (same_text_value (version_at_commit sources line fetched) release.version p),
          )

  abbrev selected : Text → Result CoordinatorError PublishedReleasePin
  selected v = if text_eq v target.version then ok target else lift_thrown (sources.resolve v)

  pub load_release-Loads :
      (version : Text) (st next : Loading)
      → load_release sources line target version st ≡ ok next
      → Loads version st next
  unfolding load_release
  load_release-Loads version st next h =
      on_require (not (sources.aborted (length st.releases))) timed_out _ h λ _ h.
        on_require (ltb (length st.releases) 25) too_many_releases _ h λ room h.
          on_bind (selected version) _ h λ release chosen h.
            on_require (text_eq release.version version) wrong_version _ h λ same h.
              on_bind (fetch_published_release_commit sources line release) _ h λ commit f h.
                on_bind (lift_thrown (sources.contract_at release.commit)) _ h λ raw _ h.
                  on_bind (of_some invalid_contract (raw_stops raw)) _ h λ stops _ h.
                    let is_same : release.version ≡ version =
                      (text_eq_iff release.version version).0 same in
                    let (v, fetched, packaged) =
                      fetch_published_release_commit-lem release commit f in
                    record {
                      release = release;
                      raw = raw;
                      room = room;
                      pin = record {
                        named = is_same;
                        in_form = v;
                        fetched = fetched;
                        packaged = rw is_same at packaged;
                        chosen = λ t. sym (ok-injective (rw t at chosen));
                      };
                      then_queued = queue_stops-Queues stops _ next h;
                    }

  All-last :
      {A : Type 0} (P : A → Type 0) (xs : List A) (a : A) → All P xs → P a → All P (xs ++ a ∷ [])
  All-last P xs a h p = All-append P xs (a ∷ []) h (p, tt)

  length-last : {A : Type 0} (xs : List A) (a : A) → length (xs ++ a ∷ []) ≡ suc (length xs)
  length-last xs a = omega (arith, length-append xs (a ∷ []))

  -- A turn from a state in which the version comes next.
  pub Loads-Inv :
      (version : Text) (pending : List Text) (st next : Loading)
      → Inv st
      → st.pending ≡ version ∷ pending
      → Loads version (record st { pending = pending }) next
      → Inv next × (length next.releases ≡ suc (length st.releases))
  Loads-Inv version pending st next k e l = (
    record {
      order =
          rw
            (
              l.then_queued.queued_more,
              order,
              l.then_queued.pending_more,
              l.then_queued.same_releases,
              inserted,
              versions_of-append st.releases ((version, l.release) ∷ []),
            )
            (append_assoc (versions_of st.releases) (version ∷ pending) l.then_queued.added
              ∙ sym (
                  append_assoc (versions_of st.releases) (version ∷ [])
                    (pending ++ l.then_queued.added)));
      distinct = l.then_queued.distinct k.distinct;
      pinned =
          rw (l.then_queued.same_releases, inserted)
            (All-last IsPinned st.releases (version, l.release) k.pinned l.pin);
      same =
          rw
            (
              l.then_queued.same_contracts,
              inserted_raw,
              l.then_queued.same_releases,
              inserted,
              versions_of-append st.raw_contracts ((version, l.raw) ∷ []),
              versions_of-append st.releases ((version, l.release) ∷ []),
            )
            (ap (λ vs. vs ++ version ∷ []) k.same);
      few = omega (arith, ltb→lt (length st.releases) 25 l.room, grown);
      wanted =
          rw l.then_queued.queued_more
            (has_text-append target.version st.queued l.then_queued.added k.wanted);
    },
    grown,
  )
    where
      order : st.queued ≡ versions_of st.releases ++ version ∷ pending
      order = rw e at k.order

      fresh : has_text version (versions_of st.releases) ≡ false
      fresh = open_hop (versions_of st.releases) version pending (rw (k.order, e) at k.distinct)

      inserted : insert version l.release st.releases ≡ st.releases ++ (version, l.release) ∷ []
      inserted = insert-fresh version l.release st.releases fresh

      inserted_raw :
          insert version l.raw st.raw_contracts ≡ st.raw_contracts ++ (version, l.raw) ∷ []
      inserted_raw = insert-fresh version l.raw st.raw_contracts (rw k.same fresh)

      grown : length next.releases ≡ suc (length st.releases)
      grown =
          rw (l.then_queued.same_releases, inserted) (length-last st.releases (version, l.release))

  load_all-Inv :
      (fuel : ℕ) (pending : List Text) (st final : Loading)
      → Inv st
      → st.pending ≡ pending
      → load_all sources line target fuel pending st ≡ ok final
      → Inv final × (final.pending ≡ [])
  unfolding load_all
  load_all-Inv fuel [] st final k e h = rw (← ok-injective h) (k, e)
  load_all-Inv zero (v ∷ pending) st final k e h = absurd (cc)
  load_all-Inv (suc fuel) (v ∷ pending) st final k e h =
      on_bind (load_release sources line target v (record st { pending = pending })) _ h λ next l h.
        let (kept, _) =
          Loads-Inv v pending st next k e
            (load_release-Loads v (record st { pending = pending }) next l) in
        load_all-Inv fuel next.pending next final kept refl h

  pub start-Inv : Inv (at_target sources line target)
  unfolding has_text
  start-Inv = record {
    order = refl;
    distinct = (refl, tt);
    pinned = tt;
    same = refl;
    few = omega arith;
    wanted = rw (text_eq_refl target.version) refl;
  }

  -- What is loaded for a target.
  pub record IsLoaded (contracts : List (Text × Contract))
      (releases : List (Text × PublishedReleasePin)) : Type 0 where
    pub all_pinned : All IsPinned releases
    pub distinct_versions : IsDistinct (versions_of releases)
    pub at_most : length releases ≤ 25
    pub has_target : has_text target.version (versions_of releases) ≡ true
    pub same_versions : versions_of contracts ≡ versions_of releases
    pub sound : All (IsSoundAt (versions_of releases)) contracts

  Inv-IsLoaded :
      (st : Loading) (contracts : List (Text × Contract))
      → Inv st
      → st.pending ≡ []
      → validate_each (versions_of st.releases) st.raw_contracts ≡ ok contracts
      → IsLoaded contracts st.releases
  Inv-IsLoaded st contracts k e h =
      let all_queued : st.queued ≡ versions_of st.releases =
        k.order ∙ (ap (λ p. versions_of st.releases ++ p) e ∙ append-nil _) in
      let (sound, same) =
        validate_each-IsSound (versions_of st.releases) st.raw_contracts contracts h in
      record {
        all_pinned = k.pinned;
        distinct_versions = rw all_queued at k.distinct;
        at_most = k.few;
        has_target = rw all_queued at k.wanted;
        same_versions = same ∙ k.same;
        sound = sound;
      }

  -- Where the loader returns, each of at most 25 releases was loaded once and at its pin, the target
  -- at the chosen one, and the contracts are theirs, each sound for its own version and with all its
  -- required stops among the loaded releases.
  pub load_published_upgrade_contracts-IsLoaded :
      (contracts : List (Text × Contract)) (releases : List (Text × PublishedReleasePin))
      → load_published_upgrade_contracts sources line target ≡ ok (contracts, releases)
      → IsLoaded contracts releases
  unfolding load_published_upgrade_contracts
  load_published_upgrade_contracts-IsLoaded contracts releases h =
      on_bind
        (load_all sources line target 26 (target.version ∷ []) (at_target sources line target)) _ h
        λ st loaded h.
          on_bind (lift_upgrade (validate_each (versions_of st.releases) st.raw_contracts)) _ h
            λ cs valid h.
              let (kept, done) = load_all-Inv 26 (target.version ∷ []) _ st start-Inv refl loaded in
              let pair : (cs, st.releases) ≡ (contracts, releases) = ok-injective h in
              let first : cs ≡ contracts = ap (λ p. p.0) pair in
              let second : st.releases ≡ releases = ap (λ p. p.1) pair in
              rw (first, second) at
                (Inv-IsLoaded st cs kept done
                  (on_lifted (validate_each (versions_of st.releases) st.raw_contracts) cs valid))
