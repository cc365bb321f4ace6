-- ===== src/Tests/Sessions.antt =====
-- Runs of the definitions of Sessions, and its theorems at concrete inputs.
use persistent_memory_stack.Prelude.{
  List, Option, [], false, none, refl, some, true, ℕ, ◌+◌, ◌-◌, ◌<◌, ◌↔◌, ◌∷◌, ◌≡◌,
}
use persistent_memory_stack.Prelude.Text.{Text, codes, text_eq}
use persistent_memory_stack.Prelude.Assoc.{insert, lookup}
use persistent_memory_stack.Sessions.Clients.{
  Call, Client, ClientInput, heartbeat, heartbeat_client, perform, perform_all, stdio, stream,
  terminate_client, upsert, upsert_client,
}
use persistent_memory_stack.Sessions.Clients.Requests.{terminate_client-heartbeat_client}
use persistent_memory_stack.Sessions.Lease.{Event, began, finished, handle_all, should_exit, start}
use persistent_memory_stack.Sessions.Lease.Released.{AllReleased, IsLastActivity}
use persistent_memory_stack.Sessions.Lease.Counting.{should_exit_iff}

-- A clock of one digit.
abbrev read_clock : Text → Option ℕ
read_clock [] = none
read_clock (c ∷ _) = some (c - 48)

abbrev editor : ClientInput
editor = record {
  id = codes "a";
  client_name = codes "editor";
  connection = stdio;
  pid = some 7;
  terminate_supported = none;
  last_activity_at = none;
}

abbrev joined : List Call
joined = upsert (codes "1") editor ∷ []

abbrev beats : List Call
beats = heartbeat (codes "3") (codes "a") none ∷ upsert (codes "4") editor ∷ []

terminate_client-heartbeat_client_example :
    (heartbeat_client (codes "5") (codes "a") none (
      perform_all read_clock beats
        (terminate_client (codes "2") (codes "a") (perform_all read_clock joined [])).1)).0
    ≡ (record { terminate = true; registered = true })
unfolding perform perform_all terminate_client heartbeat_client upsert_client lookup insert text_eq
terminate_client-heartbeat_client_example =
    terminate_client-heartbeat_client read_clock joined beats (codes "2") (codes "5") (codes "a")
      none refl ((λ e. cc), ((λ e. cc), λ e. cc))

abbrev browser : Client
browser = record {
  client_name = codes "editor";
  connection = stream;
  pid = none;
  started_at = codes "1";
  last_seen_at = codes "1";
  last_activity_at = codes "1";
  terminate_supported = false;
  terminate_requested = false;
}

abbrev opened : List Call
opened = upsert (codes "1") (record editor { connection = stream; pid = none }) ∷ []

abbrev quiet_sessions : List (Text × ℕ)
quiet_sessions = (codes "r", 700) ∷ (codes "s", 500) ∷ []

abbrev one_lease : List Event
one_lease = finished 20 0 ∷ finished 10 0 ∷ began ∷ []

should_exit_iff_example :
    (t : ℕ) × IsLastActivity 0 one_lease t
    × ((should_exit 50 (handle_all one_lease (start 30 0)) ≡ true)
        ↔ (AllReleased one_lease × (t + 30 < 50)))
should_exit_iff_example = should_exit_iff 30 0 50 one_lease
