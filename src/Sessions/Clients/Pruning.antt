-- ===== src/Sessions/Clients/Pruning.antt =====
-- What pruning removes.
use persistent_memory_stack.Prelude.Assoc.{HasUniqueKeys, lookup, lookup-select, lookup-select-none}
use persistent_memory_stack.Prelude.{
  Bool, Bool-cases, List, Option, [], false, if◌then◌else◌, inl, inr, leb→le, le→leb, none, not,
  refl, select, some, true, ℕ, ◌&&◌, ◌*◌, ◌+◌, ◌==◌, ◌||◌, ◌↔◌, ◌≡◌, ◌≤◌, ◌⊎◌,
}
use persistent_memory_stack.Prelude.Text.{Text}
use persistent_memory_stack.Sessions.Clients.Lifetime.{perform_all-HasUniqueKeys}
use persistent_memory_stack.Sessions.Clients.{
  Call, Client, Clients, ConnectionType, due_at, expired, is_idle, is_stdio, perform_all,
  prune_idle_clients, stdio, stream, terminates_at,
}

-- The client is a stream whose activity is known, and it has been due for removal since then.
abbrev pub IsDue : (Text → Option ℕ) → ℕ → ℕ → Client → Type 0
IsDue parse seconds now c = (at : ℕ) × (terminates_at parse c seconds ≡ some at) × (at ≤ now)

some_injective : {A : Type 0} {a b : A} → ◌≡◌ {A = Option A} (some a) (some b) → a ≡ b
some_injective e = cc

IsDue-iff :
    (parse : Text → Option ℕ) (seconds now : ℕ) (c : Client)
    → (seconds == 0) ≡ false
    → (is_idle parse seconds now c ≡ true) ↔ IsDue parse seconds now c
unfolding is_idle terminates_at due_at
IsDue-iff parse seconds now c nonzero = rw nonzero (by_time c.connection (parse c.last_activity_at))
  where
    by_time :
        (kind : ConnectionType) (last : Option ℕ)
        → ((not (is_stdio kind) && expired parse seconds now last) ≡ true) ↔ (
            (at : ℕ) × ((if is_stdio kind || false then none else due_at parse seconds last)
              ≡ some at)
            × (at ≤ now))
    by_time stdio last = ((λ h. cc), λ (a, e, _). cc)
    by_time stream none = ((λ h. cc), λ (a, e, _). cc)
    by_time stream (some t) = (
      λ h. (t + seconds * 1000, refl, leb→le _ _ h),
      λ (a, e, p). le→leb _ _ (rw (some_injective e) p),
    )

never-IsDue :
    (parse : Text → Option ℕ) (seconds now : ℕ) (c : Client)
    → (seconds == 0) ≡ true
    → ¬ IsDue parse seconds now c
unfolding terminates_at
never-IsDue parse seconds now c zeroed (a, e, p) = by_kind (is_stdio c.connection) (rw zeroed at e)
  where
    by_kind :
        (b : Bool)
        → (if b || true then none else due_at parse seconds (parse c.last_activity_at)) ≡ some a
        → ⊥
    by_kind true e = cc
    by_kind false e = cc

-- The same on any map, by the entry that it has for the id.
select_iff :
    (parse : Text → Option ℕ) (seconds now : ℕ) (clients : Clients)
    → HasUniqueKeys clients
    → (seconds == 0) ≡ false
    → (id : Text) (c : Client) (found : Option Client) → lookup id clients ≡ found
    → (lookup id (select (λ ((id, c) : Text × Client). not (is_idle parse seconds now c)) clients)
        ≡ some c)
      ↔ ((lookup id clients ≡ some c) × (¬ IsDue parse seconds now c))
select_iff parse seconds now clients unique nonzero id c none f = (
  (λ h. cc (h, lookup-select-none (λ (id, c). not (is_idle parse seconds now c)) id clients f)),
  λ (h, _). cc,
)
select_iff parse seconds now clients unique nonzero id c (some d) f =
    rw (lookup-select (λ (id, c). not (is_idle parse seconds now c)) id d clients unique f, f)
      (by_idleness (Bool-cases (is_idle parse seconds now d)))
  where
    by_idleness :
        (is_idle parse seconds now d ≡ true) ⊎ (is_idle parse seconds now d ≡ false)
        → ((if not (is_idle parse seconds now d) then some d else none) ≡ some c)
          ↔ ((some d ≡ some c) × (¬ IsDue parse seconds now c))
    by_idleness (inl idle) = rw idle (
      (λ h. cc),
      λ (h, n).
          absurd (n (rw (← some_injective h) ((IsDue-iff parse seconds now d nonzero).0 idle))),
    )
    by_idleness (inr busy) = rw busy (
      (λ h. (h, λ due. let idle = (IsDue-iff parse seconds now c nonzero).1 due in cc)),
      λ (h, _). h,
    )

-- Pruning keeps exactly the clients that are not due at that time by the date that their status
-- shows, and keeps each of them as it was; where no idle time is set, it keeps all of them.
prune_idle_clients_iff :
    (parse : Text → Option ℕ) (calls : List Call) (seconds now : ℕ) (id : Text) (c : Client)
    → let clients = perform_all parse calls [] in
      (lookup id (prune_idle_clients parse seconds now clients) ≡ some c)
      ↔ ((lookup id clients ≡ some c) × (¬ IsDue parse seconds now c))
unfolding prune_idle_clients
prune_idle_clients_iff parse calls seconds now id c = elim (Bool-cases (seconds == 0)) [
  | inl e ↦ rw e ((λ h. (h, never-IsDue parse seconds now c e)), λ (h, _). h)
  | inr e ↦ rw e (
      select_iff parse seconds now (perform_all parse calls [])
        (perform_all-HasUniqueKeys parse calls) e id c _ refl)
]
