-- ===== src/Sessions/Clients.antt =====
-- apps/api/src/services/mcp-sessions.ts: the map of connected clients, and each operation on it. The
-- clock and `Date.parse` are parameters; an idle time is in whole seconds, where 0 stands for any
-- number that is not positive or not finite.
pub mod Lifetime
pub mod Pruning
pub mod Requests
use persistent_memory_stack.Prelude.{
  Bool, List, Option, [], default_to, false, if◌then◌else◌, leb, none, not, or_else, select, some,
  true, ℕ, ◌&&◌, ◌*◌, ◌+◌, ◌==◌, ◌||◌, ◌∷◌,
}
use persistent_memory_stack.Prelude.Text.{Text}
use persistent_memory_stack.Prelude.Assoc.{erase, insert, lookup}

pub data ConnectionType : Type 0 where
  stream stdio : ConnectionType

pub record ClientInput : Type 0 where
  pub id : Text
  pub client_name : Text
  pub connection : ConnectionType
  pub pid : Option ℕ
  pub terminate_supported : Option Bool
  pub last_activity_at : Option Text

pub record Client : Type 0 where
  pub client_name : Text
  pub connection : ConnectionType
  pub pid : Option ℕ
  pub started_at : Text
  pub last_seen_at : Text
  pub last_activity_at : Text
  pub terminate_supported : Bool
  pub terminate_requested : Bool

-- The clients by their ids, which the records repeat in the source.
abbrev pub Clients : Type 0
Clients = List (Text × Client)

abbrev pub is_stdio : ConnectionType → Bool
is_stdio stdio = true
is_stdio stream = false

abbrev existing_field : {A : Type 0} → (Client → A) → Option Client → Option A
existing_field get none = none
existing_field get (some c) = some (get c)

abbrev existing_pid : Option Client → Option ℕ
existing_pid none = none
existing_pid (some c) = c.pid

-- The record that `upsertMcpClient` builds.
next_client : Text → ClientInput → Option Client → Client
next_client now input existing = record {
  client_name = input.client_name;
  connection = input.connection;
  pid = or_else input.pid (existing_pid existing);
  started_at = default_to now (existing_field Client.started_at existing);
  last_seen_at = now;
  last_activity_at =
      default_to now
        (or_else input.last_activity_at (existing_field Client.last_activity_at existing));
  terminate_supported = default_to (is_stdio input.connection) input.terminate_supported;
  terminate_requested = default_to false (existing_field Client.terminate_requested existing);
}

unfoldable pub upsert_client : Text → ClientInput → Clients → Clients
unfolding next_client
upsert_client now input clients =
    insert input.id (next_client now input (lookup input.id clients)) clients

pub record Heartbeat : Type 0 where
  pub terminate : Bool
  pub registered : Bool

beat : Text → Option Text → Client → Client
beat now activity c = record c {
  last_seen_at = now;
  last_activity_at = default_to c.last_activity_at activity;
}

heartbeat_found : Text → Text → Option Text → Option Client → Clients → Heartbeat × Clients
heartbeat_found now id activity none clients =
    (record { terminate = false; registered = false }, clients)
heartbeat_found now id activity (some c) clients = (
  record { terminate = c.terminate_requested; registered = true },
  insert id (beat now activity c) clients,
)

unfoldable pub heartbeat_client : Text → Text → Option Text → Clients → Heartbeat × Clients
unfolding heartbeat_found beat
heartbeat_client now id activity clients =
    heartbeat_found now id activity (lookup id clients) clients

unfoldable pub close_client : Text → Clients → Clients
close_client id clients = erase id clients

pub data Termination : Type 0 where
  requested not_found not_terminable : Termination

mark : Text → Client → Client
mark now c = record c { terminate_requested = true; last_seen_at = now }

terminate_found : Text → Text → Option Client → Clients → Termination × Clients
terminate_found now id none clients = (not_found, clients)
terminate_found now id (some c) clients =
    if not c.terminate_supported
    then (not_terminable, clients)
    else (requested, insert id (mark now c) clients)

unfoldable pub terminate_client : Text → Text → Clients → Termination × Clients
unfolding terminate_found mark
terminate_client now id clients = terminate_found now id (lookup id clients) clients

module _ (parse : Text → Option ℕ) where
  -- `lastActivityMs <= now - idleTimeoutSeconds * 1000`, where the difference may be negative.
  abbrev expired : ℕ → ℕ → Option ℕ → Bool
  expired seconds now none = false
  expired seconds now (some last) = leb (last + seconds * 1000) now

  is_idle : ℕ → ℕ → Client → Bool
  is_idle seconds now c =
      not (is_stdio c.connection) && expired seconds now (parse c.last_activity_at)

  -- What is left; `pruneIdleMcpClients` returns its size.
  unfoldable pub prune_idle_clients : ℕ → ℕ → Clients → Clients
  unfolding is_idle
  prune_idle_clients seconds now clients =
      if seconds == 0
      then clients
      else select (λ ((id, c) : Text × Client). not (is_idle seconds now c)) clients

  -- When the client is due to be pruned, in milliseconds.
  due_at : ℕ → Option ℕ → Option ℕ
  due_at seconds none = none
  due_at seconds (some last) = some (last + seconds * 1000)

  unfoldable pub terminates_at : Client → ℕ → Option ℕ
  unfolding due_at
  terminates_at c seconds =
      if is_stdio c.connection || seconds == 0
      then none
      else due_at seconds (parse c.last_activity_at)

-- One call of the service, at some time; the map starts empty.
pub data Call : Type 0 where
  upsert : Text → ClientInput → Call
  heartbeat : Text → Text → Option Text → Call
  close : Text → Call
  terminate_call : Text → Text → Call
  prune : ℕ → ℕ → Call

unfoldable pub perform : (Text → Option ℕ) → Call → Clients → Clients
perform parse (upsert now input) clients = upsert_client now input clients
perform parse (heartbeat now id activity) clients = (heartbeat_client now id activity clients).1
perform parse (close id) clients = close_client id clients
perform parse (terminate_call now id) clients = (terminate_client now id clients).1
perform parse (prune seconds now) clients = prune_idle_clients parse seconds now clients

unfoldable pub perform_all : (Text → Option ℕ) → List Call → Clients → Clients
perform_all parse [] clients = clients
perform_all parse (c ∷ cs) clients = perform_all parse cs (perform parse c clients)
