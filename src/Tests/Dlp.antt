-- ===== src/Tests/Dlp.antt =====
-- Runs of the definitions of Dlp, and its theorems at concrete inputs.
use persistent_memory_stack.Prelude.{[], false, if◌then◌else◌, refl, true, ℕ, ◌==◌, ◌≡◌}
use persistent_memory_stack.Prelude.Text.{codes, text_eq}
use persistent_memory_stack.Prelude.Result.{ok}
use persistent_memory_stack.Json.{Json, arr, bool, end, field, nil, obj, prop}
use persistent_memory_stack.Dlp.{
  Reply, ScanResult, answer, body, dlp_gate, is_scan_result, refused, retryable, scan,
}

abbrev clean_scan : Json
clean_scan = obj (
    prop (codes "pii") (arr nil)
      (prop (codes "secrets") (arr nil) (prop (codes "block") (bool false) end)))

abbrev clean : ScanResult
clean = record { pii = []; secrets = []; block = false }

-- The first request meets a busy scanner, the second is answered.
abbrev busy_then_clean : ℕ → Reply
busy_then_clean attempt = if attempt == 1 then refused 503 else body clean_scan

scan_retried : scan busy_then_clean ≡ ok clean
unfolding scan answer is_scan_result field text_eq retryable
scan_retried = refl

gate_is_open : (dlp_gate (scan busy_then_clean)).blocked ≡ false
unfolding dlp_gate scan answer is_scan_result field text_eq retryable
gate_is_open = refl

gate_fails_closed : (dlp_gate (scan (λ attempt. refused 503))).fail_closed ≡ true
unfolding dlp_gate scan answer retryable
gate_fails_closed = refl
