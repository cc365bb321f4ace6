-- ===== src/Dlp/Closed.antt =====
-- The gate fails closed: what it lets through, and what the client retries.
use persistent_memory_stack.Json.{Json}
use persistent_memory_stack.Prelude.{
  [], false, map, none, some, true, ℕ, ◌++◌, ◌↔◌, ◌∷◌, ◌≡◌, ◌≤◌, ◌⊎◌,
}
use persistent_memory_stack.Dlp.{
  FailureKind, GateFinding, GateResult, PiiFinding, Reply, ScanResult, SecretFinding, body, dlp,
  gitleaks, is_scan_result, not_json, presidio, refused, timed_out, unreachable,
}

-- A body that is a valid scan.
abbrev pub Answered : Reply → ScanResult → Type 0
Answered reply s = (v : Json) × (reply ≡ body v) × (is_scan_result v ≡ some s)

-- No answer in time, no answer at all, or a status that tells of a passing state of the scanner.
abbrev pub IsTransient : Reply → Type 0
IsTransient timed_out = Unit
IsTransient unreachable = Unit
IsTransient (refused code) = (code ≡ 408) ⊎ (code ≡ 429) ⊎ (500 ≤ code)
IsTransient not_json = ⊥
IsTransient (body v) = ⊥

-- A scan by the first request, or by the second after a transient failure of the first.
abbrev pub Scanned : (ℕ → Reply) → ScanResult → Type 0
Scanned replies s = Answered (replies 1) s ⊎ (IsTransient (replies 1) × Answered (replies 2) s)

-- What the gate reports of a scan that succeeded, and of one that did not.
abbrev pub Reports : (ℕ → Reply) → GateResult → Type 0
Reports replies r =
    ((s : ScanResult) × Scanned replies s
      × (r.fail_closed ≡ false)
      × (r.failed_with ≡ none)
      × (r.findings
          ≡ map (λ p. record { detector = presidio; finding_type = PiiFinding.entity_type p }) s.pii
            ++ map (λ q. record { detector = gitleaks; finding_type = SecretFinding.rule_id q })
                s.secrets)
      × ((r.blocked ≡ false) ↔ ((s.pii ≡ []) × (s.secrets ≡ []))))
    ⊎ ((¬ ((s : ScanResult) × Scanned replies s))
        × (r.fail_closed ≡ true)
        × (r.blocked ≡ true)
        × ((kind : FailureKind) × (r.failed_with ≡ some kind))
        × ((f : GateFinding) × (r.findings ≡ f ∷ []) × (f.detector ≡ dlp)))
