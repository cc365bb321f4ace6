-- ===== src/Coordinator/Published/Ends.antt =====
-- The loop of `loadPublishedUpgradeContracts` ends: the bound on the releases comes before the fuel.
use persistent_memory_stack.Prelude.Text.{Text, text_eq}
use persistent_memory_stack.Prelude.Result.{Result, err, ok, require, ◌>>=◌, ◌>>◌}
use persistent_memory_stack.Prelude.{
  Bool, List, Option, [], arith, false, if◌then◌else◌, length, ltb, none, not, on_if, refl, some,
  suc, true, zero, ℕ, ◌+◌, ◌∷◌, ◌≡◌, ◌≢◌,
}
use persistent_memory_stack.Json.{Json}
use persistent_memory_stack.Upgrade.Version.{UpgradeError}
use persistent_memory_stack.Coordinator.{
  CoordinatorError, fetch_failed, invalid_contract, invalid_selection, invalid_stop, out_of_fuel,
  tag_changed, tag_mismatch, timed_out, too_many_releases, wrong_version,
}
use persistent_memory_stack.Coordinator.Published.{
  Loading, PublishedReleasePin, Sources, at_target, fetch_published_release_commit, lift_thrown,
  lift_upgrade, load_all, load_published_upgrade_contracts, load_release, of_some, queue_stops,
  raw_stops, stop_release, valid_published_pin,
}
use persistent_memory_stack.Coordinator.Published.Closure.{
  Inv, Loads-Inv, load_release-Loads, start-Inv,
}

-- Not the error of the model's own fuel.
unfoldable pub IsEnd : {A : Type 0} → Result CoordinatorError A → Type 0
IsEnd (ok a) = Unit
IsEnd (err e) = e ≢ out_of_fuel

ok-IsEnd : {A : Type 0} (a : A) → IsEnd (ok a)
unfolding IsEnd
ok-IsEnd a = tt

IsEnd-bind :
    {A B : Type 0} (m : Result CoordinatorError A) (f : A → Result CoordinatorError B)
    → IsEnd m
    → ((a : A) → m ≡ ok a → IsEnd (f a))
    → IsEnd (m >>= f)
unfolding IsEnd
IsEnd-bind (ok a) f h k = k a refl
IsEnd-bind (err e) f h k = h

IsEnd-require :
    {B : Type 0} (test : Bool) (e : CoordinatorError) (rest : Result CoordinatorError B)
    → e ≢ out_of_fuel
    → IsEnd rest
    → IsEnd (require test e >> rest)
unfolding IsEnd
IsEnd-require true e rest h k = k
IsEnd-require false e rest h k = h

of_some-IsEnd :
    {A : Type 0} (e : CoordinatorError) (o : Option A) → e ≢ out_of_fuel → IsEnd (of_some e o)
unfolding IsEnd of_some
of_some-IsEnd e none h = h
of_some-IsEnd e (some a) h = tt

lift_thrown-IsEnd : {A : Type 0} (r : Result Text A) → IsEnd (lift_thrown r)
unfolding IsEnd lift_thrown
lift_thrown-IsEnd (ok a) = tt
lift_thrown-IsEnd (err message) = λ h. cc h

queue_stops-IsEnd : (stops : List Json) (st : Loading) → IsEnd (queue_stops stops st)
unfolding queue_stops
queue_stops-IsEnd [] st = unfold IsEnd in tt
queue_stops-IsEnd (raw ∷ stops) st =
    IsEnd-bind (of_some invalid_stop (stop_release raw)) _
      (of_some-IsEnd invalid_stop (stop_release raw) (λ h. cc h))
      (λ stop _. queue_stops-IsEnd stops _)

module _ (sources : Sources) (line : Text) (target : PublishedReleasePin) where
  fetch_published_release_commit-IsEnd :
      (release : PublishedReleasePin) → IsEnd (fetch_published_release_commit sources line release)
  unfolding fetch_published_release_commit
  fetch_published_release_commit-IsEnd release =
      IsEnd-require (valid_published_pin release) invalid_selection _ (λ h. cc h)
        (IsEnd-bind (of_some fetch_failed (sources.fetch release.tag)) _
          (of_some-IsEnd fetch_failed (sources.fetch release.tag) (λ h. cc h))
          (λ fetched _.
            IsEnd-require (text_eq fetched release.commit) tag_changed _ (λ h. cc h)
              (IsEnd-require _ tag_mismatch (ok fetched) (λ h. cc h) (unfold IsEnd in tt))))

  chosen-IsEnd :
      (version : Text)
      → IsEnd (
          if text_eq version target.version
          then ok target
          else lift_thrown (sources.resolve version))
  chosen-IsEnd version =
      on_if IsEnd (text_eq version target.version) _ _ (λ _. unfold IsEnd in tt)
        (λ _. lift_thrown-IsEnd (sources.resolve version))

  load_release-IsEnd :
      (version : Text) (st : Loading) → IsEnd (load_release sources line target version st)
  unfolding load_release
  load_release-IsEnd version st =
      IsEnd-require (not (sources.aborted (length st.releases))) timed_out _ (λ h. cc h)
        (IsEnd-require (ltb (length st.releases) 25) too_many_releases _ (λ h. cc h)
          (IsEnd-bind _ _ (chosen-IsEnd version) (λ release _.
            IsEnd-require (text_eq release.version version) wrong_version _ (λ h. cc h)
              (IsEnd-bind (fetch_published_release_commit sources line release) _
                (fetch_published_release_commit-IsEnd release)
                (λ commit _.
                  IsEnd-bind (lift_thrown (sources.contract_at release.commit)) _
                    (lift_thrown-IsEnd (sources.contract_at release.commit))
                    (λ raw _.
                      IsEnd-bind (of_some invalid_contract (raw_stops raw)) _
                        (of_some-IsEnd invalid_contract (raw_stops raw) (λ h. cc h))
                        (λ stops _. queue_stops-IsEnd stops _)))))))

  load_all-IsEnd :
      (fuel : ℕ) (pending : List Text) (st : Loading)
      → Inv sources line target st
      → st.pending ≡ pending
      → fuel + length st.releases ≡ 26
      → IsEnd (load_all sources line target fuel pending st)
  unfolding load_all
  load_all-IsEnd fuel [] st k e n = unfold IsEnd in tt
  load_all-IsEnd zero (v ∷ pending) st k e n = absurd (omega (arith, k.few, n))
  load_all-IsEnd (suc fuel) (v ∷ pending) st k e n =
      IsEnd-bind (load_release sources line target v (record st { pending = pending })) _
        (load_release-IsEnd v (record st { pending = pending }))
        (λ next l.
          let (kept, grown) =
            Loads-Inv sources line target v pending st next k e
              (load_release-Loads sources line target v (record st { pending = pending }) next l) in
          load_all-IsEnd fuel next.pending next kept refl (omega (arith, n, grown)))

  lift_upgrade-IsEnd : {A : Type 0} (r : Result UpgradeError A) → IsEnd (lift_upgrade r)
  unfolding IsEnd lift_upgrade
  lift_upgrade-IsEnd (ok a) = tt
  lift_upgrade-IsEnd (err e) = λ h. cc h

  -- Whatever stops the contracts name, the loader ends after at most 26 turns of its loop: it returns,
  -- or throws one of its own errors or a callback's.
  pub load_published_upgrade_contracts-IsEnd :
      IsEnd (load_published_upgrade_contracts sources line target)
  unfolding load_published_upgrade_contracts
  load_published_upgrade_contracts-IsEnd =
      IsEnd-bind
        (load_all sources line target 26 (target.version ∷ []) (at_target sources line target)) _
        (load_all-IsEnd 26 (target.version ∷ []) (at_target sources line target)
          (start-Inv sources line target) refl refl)
        (λ st _.
          IsEnd-bind (lift_upgrade _) _ (lift_upgrade-IsEnd _) (λ cs _. ok-IsEnd (cs, st.releases)))
