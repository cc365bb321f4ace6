-- ===== src/Sessions/Clients/Lifetime.antt =====
-- Invariants of the map of clients over any sequence of calls.
use persistent_memory_stack.Prelude.{
  Bool-cases, List, Option, [], inl, inr, none, some, ℕ, ◌==◌, ◌∷◌,
}
use persistent_memory_stack.Prelude.Text.{Text}
use persistent_memory_stack.Prelude.Assoc.{
  HasUniqueKeys, erase-HasUniqueKeys, insert-HasUniqueKeys, lookup, select-HasUniqueKeys,
}
use persistent_memory_stack.Sessions.Clients.{
  Call, Client, Clients, beat, close, close_client, heartbeat, heartbeat_client, heartbeat_found,
  perform, perform_all, prune, prune_idle_clients, terminate_call, terminate_client,
  terminate_found, upsert, upsert_client,
}

pub perform-HasUniqueKeys :
    (parse : Text → Option ℕ) (c : Call) (clients : Clients)
    → HasUniqueKeys clients
    → HasUniqueKeys (perform parse c clients)
unfolding perform upsert_client close_client heartbeat_client heartbeat_found terminate_client
    terminate_found prune_idle_clients
perform-HasUniqueKeys parse (upsert now input) clients h = insert-HasUniqueKeys _ _ clients h
perform-HasUniqueKeys parse (heartbeat now id activity) clients h = by_client (lookup id clients)
  where
    by_client :
        (found : Option Client) → HasUniqueKeys (heartbeat_found now id activity found clients).1
    by_client none = h
    by_client (some c) = insert-HasUniqueKeys id (beat now activity c) clients h
perform-HasUniqueKeys parse (close id) clients h = erase-HasUniqueKeys id clients h
perform-HasUniqueKeys parse (terminate_call now id) clients h = by_client (lookup id clients)
  where
    by_client : (found : Option Client) → HasUniqueKeys (terminate_found now id found clients).1
    by_client none = h
    by_client (some c) = elim (Bool-cases c.terminate_supported) [
      | inl e ↦ rw (e, terminate_found) (insert-HasUniqueKeys id _ clients h)
      | inr e ↦ rw (e, terminate_found) h
    ]
perform-HasUniqueKeys parse (prune seconds now) clients h = elim (Bool-cases (seconds == 0)) [
  | inl e ↦ rw (e, prune_idle_clients) h
  | inr e ↦ rw (e, prune_idle_clients) (select-HasUniqueKeys _ clients h)
]

-- Whatever is called, and in whatever order, no id is ever held twice.
pub perform_all-HasUniqueKeys :
    (parse : Text → Option ℕ) (cs : List Call) → HasUniqueKeys (perform_all parse cs [])
unfolding perform_all
perform_all-HasUniqueKeys parse cs = go cs [] (unfold HasUniqueKeys in tt)
  where
    go :
        (cs : List Call) (clients : Clients)
        → HasUniqueKeys clients
        → HasUniqueKeys (perform_all parse cs clients)
    go [] clients h = h
    go (c ∷ cs) clients h =
        go cs (perform parse c clients) (perform-HasUniqueKeys parse c clients h)
