-- ===== src/Logs.antt =====
-- The parsers of Docker's answers in apps/docker-control/src/parse.ts: the health of a container,
-- its kind by its labels, and the frames of its log. Bytes are numbers; how bytes are decoded as
-- UTF-8 is a parameter.
pub mod Frames
use persistent_memory_stack.Prelude.Text.{Text, codes, text_eq}
use persistent_memory_stack.Prelude.{
  Bool, List, Option, [], default_to, drop, false, if◌then◌else◌, is_some, leb, length, ltb, map,
  none, not, some, suc, take, true, zero, ℕ, ◌&&◌, ◌*◌, ◌++◌, ◌+◌, ◌==◌, ◌||◌, ◌∷◌,
}
use persistent_memory_stack.Prelude.Assoc.{lookup}

pub data Health : Type 0 where
  healthy unhealthy starting : Health

lower : ℕ → ℕ
lower c = if leb 65 c && leb c 90 then c + 32 else c

-- A pattern of lower case at the front, letters of either case alike.
matches_front : Text → Text → Bool
unfolding lower
matches_front [] s = true
matches_front (c ∷ p) [] = false
matches_front (c ∷ p) (d ∷ s) = c == lower d && matches_front p s

matches_in : Text → Text → Bool
unfolding matches_front
matches_in p [] = matches_front p []
matches_in p (c ∷ s) = matches_front p (c ∷ s) || matches_in p s

unfoldable pub parse_health : Text → Option Health
unfolding matches_in
parse_health status =
    if matches_in (codes "(healthy)") status
    then some healthy
    else if matches_in (codes "(unhealthy)") status
    then some unhealthy
    else if matches_in (codes "health: starting") status
    then some starting
    else none

unfoldable pub is_runtime_compose_service : Option (List (Text × Text)) → Bool
unfolding lookup text_eq lower
is_runtime_compose_service none = false
is_runtime_compose_service (some labels) =
    is_some (lookup (codes "com.docker.compose.config-hash") labels)
    && text_eq (map lower (default_to [] (lookup (codes "com.docker.compose.oneoff") labels)))
        (codes "false")

unfoldable pub is_mcp_session : Option (List (Text × Text)) → Bool
unfolding lookup text_eq
is_mcp_session none = false
is_mcp_session (some labels) = elim (lookup (codes "persistent-memory.role") labels) [
  | none ↦ false
  | some role ↦ text_eq role (codes "mcp-client")
]

unfoldable pub is_controllable : Option (List (Text × Text)) → Bool
unfolding is_runtime_compose_service is_mcp_session
is_controllable labels = is_runtime_compose_service labels && not (is_mcp_session labels)

-- `buf[0] <= 2` and three bytes that are 0.
abbrev pub is_header : List ℕ → Bool
is_header (kind ∷ a ∷ b ∷ c ∷ rest) = leb kind 2 && a == 0 && b == 0 && c == 0
is_header _ = false

-- `buf.readUInt32BE(4)`
abbrev pub read_size : List ℕ → ℕ
read_size (_ ∷ _ ∷ _ ∷ _ ∷ a ∷ b ∷ c ∷ d ∷ rest) = ((a * 256 + b) * 256 + c) * 256 + d
read_size _ = 0

-- `out.push(s)` before what follows.
abbrev pub joined : Text → Option (List Text) → Option (List Text)
joined s none = none
joined s (some texts) = some (s ∷ texts)

module _ (decode : List ℕ → Text) where
  -- The texts of the frames from here on, or `none` where a header is not one.
  unfoldable pub frame_texts : ℕ → List ℕ → Option (List Text)
  frame_texts zero buf = some []
  frame_texts (suc fuel) buf =
      let size = read_size buf in
      let rest = frame_texts fuel (drop (8 + size) buf) in
      if ltb (length buf) 8
      then some []
      else if not (is_header buf)
      then none
      else if ltb (length buf) (8 + size)
      then some []
      else joined (decode (take size (drop 8 buf))) rest

  unfoldable pub concat_texts : List Text → Text
  concat_texts [] = []
  concat_texts (s ∷ texts) = s ++ concat_texts texts

  -- `demuxDockerLog`. A frame has eight bytes at least, so the length is enough fuel.
  unfoldable pub demux_docker_log : List ℕ → Text
  unfolding frame_texts concat_texts
  demux_docker_log buf = elim (frame_texts (length buf) buf) [
    | none ↦ decode buf
    | some [] ↦ decode buf
    | some (s ∷ texts) ↦ concat_texts (s ∷ texts)
  ]
