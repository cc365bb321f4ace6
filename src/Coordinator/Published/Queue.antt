-- ===== src/Coordinator/Published/Queue.antt =====
-- The queue of `loadPublishedUpgradeContracts`, in which each version comes once.
use persistent_memory_stack.Prelude.Text.{Text, text_eq}
use persistent_memory_stack.Prelude.Result.{Result, err, ok, ok-injective, on_bind}
use persistent_memory_stack.Prelude.{
  List, Option, [], ap, append-nil, append_assoc, arith, false, if◌then◌else◌, length, none, on_if,
  or_false, refl, some, sym, ◌++◌, ◌∙◌, ◌∷◌, ◌≡◌,
}
use persistent_memory_stack.Prelude.Assoc.{insert}
use persistent_memory_stack.Json.{Json}
use persistent_memory_stack.Upgrade.Lines.{versions_of}
use persistent_memory_stack.Upgrade.Version.{UpgradeError}
use persistent_memory_stack.Coordinator.{CoordinatorError, has_text, invalid_stop}
use persistent_memory_stack.Coordinator.Releases.{IsDistinct, text_eq_sym}
use persistent_memory_stack.Coordinator.Published.{
  Loading, lift_upgrade, of_some, queue_stops, stop_release,
}

pub insert-fresh :
    {A : Type 0} (k : Text) (a : A) (m : List (Text × A))
    → has_text k (versions_of m) ≡ false
    → insert k a m ≡ m ++ (k, a) ∷ []
unfolding insert has_text
insert-fresh k a [] h = refl
insert-fresh k a ((j, b) ∷ m) h =
    let (differs, rest) = or_false (text_eq k j) _ h in
    rw (text_eq_sym k j differs) (ap (λ n. (j, b) ∷ n) (insert-fresh k a m rest))

pub versions_of-append :
    {A : Type 0} (m n : List (Text × A)) → versions_of (m ++ n) ≡ versions_of m ++ versions_of n
versions_of-append [] n = refl
versions_of-append ((k, a) ∷ m) n = ap (λ vs. k ∷ vs) (versions_of-append m n)

pub length-versions_of : {A : Type 0} (m : List (Text × A)) → length (versions_of m) ≡ length m
length-versions_of [] = refl
length-versions_of ((k, a) ∷ m) = omega (arith, length-versions_of m)

-- What queueing the stops of one contract does.
pub record Queues (st next : Loading) : Type 0 where
  pub added : List Text
  pub same_releases : next.releases ≡ st.releases
  pub same_contracts : next.raw_contracts ≡ st.raw_contracts
  pub queued_more : next.queued ≡ st.queued ++ added
  pub pending_more : next.pending ≡ st.pending ++ added
  pub distinct : IsDistinct st.queued → IsDistinct next.queued

queue_one : Text → Loading → Loading
queue_one stop st =
    if has_text stop st.queued
    then st
    else record st { queued = st.queued ++ stop ∷ []; pending = st.pending ++ stop ∷ [] }

-- A version at the end of a list in which it is not.
IsDistinct-last :
    (stop : Text) (versions : List Text)
    → has_text stop versions ≡ false
    → IsDistinct versions
    → IsDistinct (versions ++ stop ∷ [])
unfolding has_text
IsDistinct-last stop [] h d = (refl, tt)
IsDistinct-last stop (v ∷ vs) h (p, d) =
    let (differs, rest) = or_false (text_eq stop v) _ h in
    (has_text-last v stop vs p (text_eq_sym stop v differs), IsDistinct-last stop vs rest d)
  where
    has_text-last :
        (v stop : Text) (vs : List Text)
        → has_text v vs ≡ false
        → text_eq v stop ≡ false
        → has_text v (vs ++ stop ∷ []) ≡ false
    has_text-last v stop [] p e = rw e refl
    has_text-last v stop (w ∷ vs) p e =
        let (q, rest) = or_false (text_eq v w) _ p in rw q (has_text-last v stop vs rest e)

-- One version is queued, unless it was queued before.
record Queued (st next : Loading) : Type 0 where
  added : List Text
  same_releases : next.releases ≡ st.releases
  same_contracts : next.raw_contracts ≡ st.raw_contracts
  queued_more : next.queued ≡ st.queued ++ added
  pending_more : next.pending ≡ st.pending ++ added
  distinct : IsDistinct st.queued → IsDistinct next.queued

queue_one-Queued : (stop : Text) (st : Loading) → Queued st (queue_one stop st)
unfolding queue_one
queue_one-Queued stop st =
    on_if (Queued st) (has_text stop st.queued) _ _
      (λ h. record {
        added = [];
        same_releases = refl;
        same_contracts = refl;
        queued_more = sym (append-nil _);
        pending_more = sym (append-nil _);
        distinct = λ d. d;
      })
      (λ h. record {
        added = stop ∷ [];
        same_releases = refl;
        same_contracts = refl;
        queued_more = refl;
        pending_more = refl;
        distinct = IsDistinct-last stop st.queued h;
      })

Queues-nil : (st : Loading) → Queues st st
Queues-nil st = record {
  added = [];
  same_releases = refl;
  same_contracts = refl;
  queued_more = sym (append-nil _);
  pending_more = sym (append-nil _);
  distinct = λ d. d;
}

Queues-cons : (st middle next : Loading) → Queued st middle → Queues middle next → Queues st next
Queues-cons st middle next first rest = record {
  added = first.added ++ rest.added;
  same_releases = rest.same_releases ∙ first.same_releases;
  same_contracts = rest.same_contracts ∙ first.same_contracts;
  queued_more =
      rest.queued_more
      ∙ (ap (λ q. q ++ rest.added) first.queued_more
          ∙ append_assoc st.queued first.added rest.added);
  pending_more =
      rest.pending_more
      ∙ (ap (λ q. q ++ rest.added) first.pending_more
          ∙ append_assoc st.pending first.added rest.added);
  distinct = λ d. rest.distinct (first.distinct d);
}

pub on_some :
    {A : Type 0} (e : CoordinatorError) (o : Option A) (a : A) → of_some e o ≡ ok a → o ≡ some a
unfolding of_some
on_some e none a h = absurd (cc)
on_some e (some b) a h = ap (λ x. some x) (ok-injective h)

pub queue_stops-Queues :
    (stops : List Json) (st next : Loading) → queue_stops stops st ≡ ok next → Queues st next
unfolding queue_stops queue_one
queue_stops-Queues [] st next h = rw (← ok-injective h) (Queues-nil st)
queue_stops-Queues (raw ∷ stops) st next h =
    on_bind (of_some invalid_stop (stop_release raw)) _ h λ stop e h.
      Queues-cons st (queue_one stop st) next (queue_one-Queued stop st)
        (queue_stops-Queues stops (queue_one stop st) next h)

-- What `lift_upgrade` returns.
pub on_lifted : {A : Type 0} (r : Result UpgradeError A) (a : A) → lift_upgrade r ≡ ok a → r ≡ ok a
unfolding lift_upgrade
on_lifted (ok b) a h = ap (λ x. ok x) (ok-injective h)
on_lifted (err e) a h = absurd (cc)
