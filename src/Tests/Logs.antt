-- ===== src/Tests/Logs.antt =====
-- Runs of the definitions of Logs, and its theorems at concrete inputs.
use persistent_memory_stack.Prelude.Text.{Text, codes, text_eq}
use persistent_memory_stack.Prelude.{List, [], arith, false, map, refl, some, ℕ, ◌++◌, ◌∷◌, ◌≡◌}
use persistent_memory_stack.Prelude.Assoc.{lookup}
use persistent_memory_stack.Logs.{
  concat_texts, demux_docker_log, frame_texts, is_controllable, is_mcp_session,
  is_runtime_compose_service, parse_health, starting,
}
use persistent_memory_stack.Logs.Frames.{
  Frame, demux_docker_log-encode_frames, encode_frames, in_header,
}

-- ASCII, in place of UTF-8.
abbrev ascii : List ℕ → Text
ascii bytes = bytes

abbrev out_frame : Frame
out_frame = record { kind = 1; payload = codes "ready" }

abbrev err_frame : Frame
err_frame = record { kind = 2; payload = codes "!" }

abbrev half_header : List ℕ
half_header = 1 ∷ 0 ∷ 0 ∷ []

demux_docker_log-encode_frames_example :
    demux_docker_log ascii (encode_frames (out_frame ∷ err_frame ∷ []) ++ half_header)
    ≡ concat_texts ascii (map (λ g. ascii g.payload) (out_frame ∷ err_frame ∷ []))
demux_docker_log-encode_frames_example =
    demux_docker_log-encode_frames ascii out_frame (err_frame ∷ []) half_header
      ((ground arith, ground arith), ((ground arith, ground arith), tt))
      (in_header half_header (ground arith))

not_framed :
    demux_docker_log ascii (codes "plain text of a terminal") ≡ codes "plain text of a terminal"
unfolding demux_docker_log frame_texts
not_framed = refl

is_starting : parse_health (codes "Up 3 seconds (Health: starting)") ≡ some starting
unfolding parse_health
is_starting = refl

one_off :
    is_controllable (
      some (
        (codes "com.docker.compose.config-hash", codes "f0")
        ∷ (codes "com.docker.compose.oneoff", codes "True")
        ∷ []))
    ≡ false
unfolding is_controllable is_runtime_compose_service is_mcp_session lookup text_eq
one_off = refl
