-- ===== src/Sessions/Clients/Requests.antt =====
-- A request to terminate reaches the client.
use persistent_memory_stack.Prelude.{
  Bool, Bool-cases, List, Option, [], arith, false, if◌then◌else◌, inl, inr, none, not, refl, some,
  true, ℕ, ◌==◌, ◌∙◌, ◌∷◌, ◌≡◌, ◌≢◌,
}
use persistent_memory_stack.Prelude.Text.{Text, text_eq, text_eq_iff}
use persistent_memory_stack.Prelude.Assoc.{
  HasUniqueKeys, erase, insert, lookup, lookup-erase, lookup-erase_other, lookup-insert,
  lookup-insert_other, lookup-select, text_differ,
}
use persistent_memory_stack.Sessions.Clients.Lifetime.{
  perform-HasUniqueKeys, perform_all-HasUniqueKeys,
}
use persistent_memory_stack.Sessions.Clients.{
  Call, Client, ClientInput, Clients, beat, close, close_client, heartbeat, heartbeat_client,
  heartbeat_found, is_idle, mark, next_client, perform, perform_all, prune, prune_idle_clients,
  requested, terminate_call, terminate_client, terminate_found, upsert, upsert_client,
}

-- The same registration, in which a request to terminate is not forgotten.
pub record Continues (c d : Client) : Type 0 where
  pub same_start : d.started_at ≡ c.started_at
  pub still_requested : c.terminate_requested ≡ true → d.terminate_requested ≡ true

-- What may become of a client: it is gone, or it continues.
abbrev Remains : Client → Option Client → Type 0
Remains c none = Unit
Remains c (some d) = Continues c d

Continues-refl : (c : Client) → Continues c c
Continues-refl c = record { same_start = refl; still_requested = λ h. h }

Remains-of_eq : (c : Client) (found : Option Client) → found ≡ some c → Remains c found
Remains-of_eq c found e = rw e (Continues-refl c)

module _ (id : Text) (c : Client) (clients : Clients) (present : lookup id clients ≡ some c) where
  -- Writing an entry, when the entry for this id continues it.
  insert-Remains :
      (k : Text) (d : Client)
      → (k ≡ id → Continues c d)
      → Remains c (lookup id (insert k d clients))
  insert-Remains k d h = elim (Bool-cases (text_eq k id)) [
    | inl e ↦
        let same = (text_eq_iff k id).0 e in rw same (rw (lookup-insert id d clients) (h same))
    | inr e ↦ Remains-of_eq c _ (lookup-insert_other k id d clients (text_differ k id e) ∙ present)
  ]

  erase-Remains : (k : Text) → Remains c (lookup id (erase k clients))
  erase-Remains k = elim (Bool-cases (text_eq k id)) [
    | inl e ↦ rw ((text_eq_iff k id).0 e) (rw (lookup-erase id clients) tt)
    | inr e ↦ Remains-of_eq c _ (lookup-erase_other k id clients (text_differ k id e) ∙ present)
  ]

  found_here :
      (k : Text) {found : Option Client} → lookup k clients ≡ found → k ≡ id → found ≡ some c
  found_here k e same = cc (e, present, same)

  next_client-Continues :
      (now : Text) (input : ClientInput) (found : Option Client)
      → found ≡ some c
      → Continues c (next_client now input found)
  unfolding next_client
  next_client-Continues now input found e =
      rw e (record { same_start = refl; still_requested = λ h. h })

  upsert-Remains :
      (now : Text) (input : ClientInput) → Remains c (lookup id (upsert_client now input clients))
  unfolding upsert_client
  upsert-Remains now input = insert-Remains input.id _ (λ same.
      next_client-Continues now input (lookup input.id clients) (found_here input.id refl same))

  beat-Continues :
      (now : Text) (activity : Option Text) (d : Client)
      → some d ≡ some c
      → Continues c (beat now activity d)
  unfolding beat
  beat-Continues now activity d e = record {
    same_start = ground arith;
    still_requested = λ h. ground arith;
  }

  heartbeat-Remains :
      (now k : Text) (activity : Option Text)
      → Remains c (lookup id (heartbeat_client now k activity clients).1)
  unfolding heartbeat_client heartbeat_found beat
  heartbeat-Remains now k activity = by_client (lookup k clients) refl
    where
      by_client :
          (found : Option Client)
          → lookup k clients ≡ found
          → Remains c (lookup id (heartbeat_found now k activity found clients).1)
      by_client none e = Remains-of_eq c _ present
      by_client (some d) e =
          insert-Remains k _ (λ same. beat-Continues now activity d (found_here k e same))

  mark-Continues : (now : Text) (d : Client) → some d ≡ some c → Continues c (mark now d)
  unfolding mark
  mark-Continues now d e = record { same_start = ground arith; still_requested = λ h. refl }

  terminate-Remains : (now k : Text) → Remains c (lookup id (terminate_client now k clients).1)
  unfolding terminate_client
  terminate-Remains now k = by_client (lookup k clients) refl
    where
      by_client :
          (found : Option Client)
          → lookup k clients ≡ found
          → Remains c (lookup id (terminate_found now k found clients).1)
      by_client none e = unfold terminate_found in Remains-of_eq c _ present
      by_client (some d) e = elim (Bool-cases d.terminate_supported) [
        | inl f ↦
            rw (f, terminate_found)
              (insert-Remains k _ (λ same.
                let kept = mark-Continues now d (found_here k e same) in
                record { same_start = kept.same_start; still_requested = kept.still_requested }))
        | inr f ↦ rw (f, terminate_found) (Remains-of_eq c _ present)
      ]

  prune-Remains :
      (parse : Text → Option ℕ) (seconds now : ℕ)
      → HasUniqueKeys clients
      → Remains c (lookup id (prune_idle_clients parse seconds now clients))
  unfolding prune_idle_clients
  prune-Remains parse seconds now u = elim (Bool-cases (seconds == 0)) [
    | inl e ↦ rw (e, prune_idle_clients) (Remains-of_eq c _ present)
    | inr e ↦
        rw (e, prune_idle_clients)
          (rw (lookup-select (λ (k, d). not (is_idle parse seconds now d)) id c clients u present)
            (kept (not (is_idle parse seconds now c))))
  ]
    where
      kept : (b : Bool) → Remains c (if b then some c else none)
      kept true = Continues-refl c
      kept false = tt

  perform-Remains :
      (parse : Text → Option ℕ) (call : Call)
      → HasUniqueKeys clients
      → Remains c (lookup id (perform parse call clients))
  unfolding perform close_client
  perform-Remains parse (upsert now input) u = upsert-Remains now input
  perform-Remains parse (heartbeat now k activity) u = heartbeat-Remains now k activity
  perform-Remains parse (close k) u = erase-Remains k
  perform-Remains parse (terminate_call now k) u = terminate-Remains now k
  perform-Remains parse (prune seconds now) u = prune-Remains parse seconds now u

-- The id is registered before and after each of the calls.
abbrev Stays : (Text → Option ℕ) → Text → List Call → Clients → Type 0
Stays parse id [] clients = lookup id clients ≢ none
Stays parse id (call ∷ calls) clients =
    (lookup id clients ≢ none) × Stays parse id calls (perform parse call clients)

perform_all-Continues :
    (parse : Text → Option ℕ) (id : Text) (calls : List Call) (c : Client) (clients : Clients)
    → HasUniqueKeys clients
    → lookup id clients ≡ some c
    → Stays parse id calls clients
    → (d : Client) × (lookup id (perform_all parse calls clients) ≡ some d) × Continues c d
unfolding perform_all
perform_all-Continues parse id [] c clients u e stays = (c, e, Continues-refl c)
perform_all-Continues parse id (call ∷ calls) c clients u e (_, stays) =
    by_client (lookup id after) refl (perform-Remains id c clients e parse call u) (λ d f.
      perform_all-Continues parse id calls d after (perform-HasUniqueKeys parse call clients u) f
        stays)
  where
    after : Clients
    after = perform parse call clients

    by_client :
        (found : Option Client)
        → lookup id after ≡ found
        → Remains c found
        → ((d : Client)
            → lookup id after ≡ some d
            → (l : Client) × (lookup id (perform_all parse calls after) ≡ some l) × Continues d l)
        → (l : Client) × (lookup id (perform_all parse calls after) ≡ some l) × Continues c l
    by_client none f r go = absurd (first calls stays f)
      where
        first : (calls : List Call) → Stays parse id calls after → lookup id after ≢ none
        first [] s = s
        first (_ ∷ _) (s, _) = s
    by_client (some d) f r go =
        let (last, g, later) = go d f in
        (
          last,
          g,
          record {
            same_start = later.same_start ∙ r.same_start;
            still_requested = λ h. later.still_requested (r.still_requested h);
          },
        )

terminate_client-requested :
    (now id : Text) (clients : Clients)
    → (terminate_client now id clients).0 ≡ requested
    → (c : Client) × (lookup id (terminate_client now id clients).1 ≡ some c)
      × (c.terminate_requested ≡ true)
unfolding terminate_client terminate_found mark
terminate_client-requested now id clients h = by_client (lookup id clients) h
  where
    by_client :
        (found : Option Client)
        → (terminate_found now id found clients).0 ≡ requested
        → (c : Client) × (lookup id (terminate_found now id found clients).1 ≡ some c)
          × (c.terminate_requested ≡ true)
    by_client none h = absurd (cc)
    by_client (some c) h = elim (Bool-cases c.terminate_supported) [
      | inl f ↦ rw (f, terminate_found) (_, lookup-insert id _ clients, refl)
      | inr f ↦ absurd (cc (rw (f, terminate_found) at h))
    ]

-- Once a termination is accepted, every later heartbeat of that client is told to terminate, as long
-- as the client stays registered through the calls between.
pub terminate_client-heartbeat_client :
    (parse : Text → Option ℕ) (before after : List Call) (now later id : Text)
    (activity : Option Text)
    → let clients = perform_all parse before [] in
      let (outcome, marked) = terminate_client now id clients in
      outcome ≡ requested
      → Stays parse id after marked
      → (heartbeat_client later id activity (perform_all parse after marked)).0
        ≡ (record { terminate = true; registered = true })
unfolding heartbeat_client heartbeat_found perform
terminate_client-heartbeat_client parse before after now later id activity h stays =
    let clients = perform_all parse before [] in
    let (c, e, told) = terminate_client-requested now id clients h in
    let unique =
      perform-HasUniqueKeys parse (terminate_call now id) clients
        (perform_all-HasUniqueKeys parse before) in
    let (d, f, kept) = perform_all-Continues parse id after c _ unique e stays in
    rw (f, heartbeat_client) (rw (kept.still_requested told) refl)
