-- ===== src/Sessions/Idle.antt =====
-- layers/mcp-runtime/src/http-idle.ts and http-session.ts: which sessions of the HTTP runtime have
-- been idle too long, and the answer to a request whose session is missing. A number of seconds of 0
-- stands for one that is not positive or not finite; times are in milliseconds.
pub mod Expiry
use persistent_memory_stack.Prelude.{
  Bool, List, [], false, if◌then◌else◌, leb, map, select, true, ℕ, ◌*◌, ◌+◌, ◌==◌,
}
use persistent_memory_stack.Prelude.Text.{Text, codes}
use persistent_memory_stack.Prelude.Int.{negsuc, ℤ}

unfoldable pub idle_session_ids : List (Text × ℕ) → ℕ → ℕ → List Text
idle_session_ids sessions seconds now =
    if seconds == 0
    then []
    else map (λ ((id, at) : Text × ℕ). id)
        (select (λ ((id, at) : Text × ℕ). leb (at + seconds * 1000) now) sessions)

pub record HttpJsonRpcError : Type 0 where
  pub status : ℕ
  pub code : ℤ
  pub message : Text

missing_session_response : Bool → HttpJsonRpcError
missing_session_response true = record {
  status = 404;
  code = negsuc 32000;
  message = codes "Session not found";
}
missing_session_response false = record {
  status = 400;
  code = negsuc 31999;
  message = codes "Bad Request: Session ID required";
}
