-- ===== src/Dlp.antt =====
-- layers/security-dlp/src/dlp-gate/index.ts: the client of the scanner and the gate that decides
-- whether text may be written. What `fetch` gives in each attempt is a parameter; the texts of the
-- messages and the numbers inside an excerpt are left out.
pub mod Closed
use persistent_memory_stack.Prelude.{
  Bool, List, Option, [], default_to, false, if◌then◌else◌, leb, map, none, not, some, suc, true,
  zero, ℕ, ◌&&◌, ◌++◌, ◌+◌, ◌==◌, ◌||◌, ◌∷◌,
}
use persistent_memory_stack.Prelude.Text.{Text, codes}
use persistent_memory_stack.Prelude.Result.{Result, err, ok}
use persistent_memory_stack.Json.{Json, arr, bool, elems, field, fraction, num, obj, str}

pub data FailureKind : Type 0 where
  timeout network http invalid_response : FailureKind

-- `info.attempts` is absent until the error is thrown by `scan`.
pub record DlpError : Type 0 where
  pub kind : FailureKind
  pub status : Option ℕ
  pub attempts : Option ℕ

pub record PiiFinding : Type 0 where
  pub entity_type : Text
  pub start : Json
  pub end_at : Json

pub record SecretFinding : Type 0 where
  pub rule_id : Text
  pub description : Text

pub record ScanResult : Type 0 where
  pub pii : List PiiFinding
  pub secrets : List SecretFinding
  pub block : Bool

-- `Number.isFinite`
abbrev is_finite : Option Json → Bool
is_finite (some (num n)) = true
is_finite (some fraction) = true
is_finite _ = false

pii_at : Option Json → Option Json → Option Json → Option Json → Option PiiFinding
pii_at (some (str t)) (some a) (some b) score =
    if is_finite (some a) && is_finite (some b) && is_finite score
    then some (record { entity_type = t; start = a; end_at = b })
    else none
pii_at _ _ _ _ = none

pii_of : Json → Option PiiFinding
pii_of (obj p) =
    pii_at (field (codes "entity_type") p) (field (codes "start") p) (field (codes "end") p)
      (field (codes "score") p)
pii_of _ = none

secret_at : Option Json → Option Json → Option SecretFinding
secret_at (some (str r)) (some (str d)) = some (record { rule_id = r; description = d })
secret_at _ _ = none

secret_of : Json → Option SecretFinding
secret_of (obj p) = secret_at (field (codes "rule_id") p) (field (codes "description") p)
secret_of _ = none

-- `every`, with what is read of each element.
every_of : {A : Type 0} → (Json → Option A) → List Json → Option (List A)
every_of read [] = some []
every_of read (v ∷ vs) = elim (read v) [
  | none ↦ none
  | some a ↦ elim (every_of read vs) [ none ↦ none | some rest ↦ some (a ∷ rest) ]
]

abbrev pub is_nonempty : {A : Type 0} → List A → Bool
is_nonempty [] = false
is_nonempty (_ ∷ _) = true

abbrev same_bool : Bool → Bool → Bool
same_bool a b = if a then b else not b

scan_parts : Option (List PiiFinding) → Option (List SecretFinding) → Bool → Option ScanResult
scan_parts (some ps) (some ss) blocks =
    if same_bool blocks (is_nonempty ps || is_nonempty ss)
    then some (record { pii = ps; secrets = ss; block = blocks })
    else none
scan_parts _ _ _ = none

scan_fields : Option Json → Option Json → Option Json → Option ScanResult
unfolding pii_at pii_of secret_at secret_of
scan_fields (some (arr ps)) (some (arr ss)) (some (bool blocks)) =
    scan_parts (every_of pii_of (elems ps)) (every_of secret_of (elems ss)) blocks
scan_fields _ _ _ = none

-- `isScanResult`, with the result that the value then is.
unfoldable pub is_scan_result : Json → Option ScanResult
unfolding scan_fields scan_parts pii_of pii_at secret_of secret_at every_of
is_scan_result (obj p) =
    scan_fields (field (codes "pii") p) (field (codes "secrets") p) (field (codes "block") p)
is_scan_result _ = none

-- What one request meets: the signal's time is over, another exception, a status that is not a
-- success, a body that is no JSON, or a JSON body.
pub data Reply : Type 0 where
  timed_out unreachable : Reply
  refused : ℕ → Reply
  not_json : Reply
  body : Json → Reply

failure : FailureKind → DlpError
failure k = record { kind = k; status = none; attempts = none }

-- The body of the `try`, and the error that the `catch` makes of an exception.
unfoldable pub answer : Reply → Result DlpError ScanResult
unfolding failure
answer timed_out = err (failure timeout)
answer unreachable = err (failure network)
answer (refused code) = err (record { kind = http; status = some code; attempts = none })
answer not_json = err (failure invalid_response)
answer (body v) = elim (is_scan_result v) [ none ↦ err (failure invalid_response) | some s ↦ ok s ]

unfoldable pub retryable : DlpError → Bool
retryable e = elim e.kind [
  | timeout ↦ true
  | network ↦ true
  | http ↦ let code = default_to 0 e.status in code == 408 || code == 429 || leb 500 code
  | invalid_response ↦ false
]

module _ (replies : ℕ → Reply) where
  -- The loop of `scan`, over the rounds that are left, and what follows it.
  scan_from : ℕ → ℕ → Result DlpError ScanResult
  unfolding failure
  scan_from zero attempt = err (failure network)
  scan_from (suc rounds) attempt =
      let rest = scan_from rounds (attempt + 1) in
      elim (answer (replies attempt)) [
        | ok s ↦ ok s
        | err e ↦
            if not (retryable e) || attempt == 2
            then err (record e { attempts = some attempt })
            else rest
      ]

  unfoldable pub scan : Result DlpError ScanResult
  unfolding scan_from failure
  scan = scan_from 2 1

pub data Detector : Type 0 where
  presidio gitleaks dlp : Detector

pub record GateFinding : Type 0 where
  pub detector : Detector
  pub finding_type : Text

pub record GateResult : Type 0 where
  pub blocked : Bool
  pub findings : List GateFinding
  pub fail_closed : Bool
  pub failed_with : Option FailureKind

abbrev pub pii_finding : PiiFinding → GateFinding
pii_finding p = record { detector = presidio; finding_type = p.entity_type }

abbrev pub secret_finding : SecretFinding → GateFinding
secret_finding q = record { detector = gitleaks; finding_type = q.rule_id }

findings_of : ScanResult → List GateFinding
findings_of s = map pii_finding s.pii ++ map secret_finding s.secrets

-- The gate, on what the client's `scan` gives.
unfoldable pub dlp_gate : Result DlpError ScanResult → GateResult
unfolding findings_of
dlp_gate (err e) = record {
  blocked = true;
  findings = (record { detector = dlp; finding_type = codes "scanner_unavailable" }) ∷ [];
  fail_closed = true;
  failed_with = some e.kind;
}
dlp_gate (ok s) = record {
  blocked = s.block || is_nonempty (findings_of s);
  findings = findings_of s;
  fail_closed = false;
  failed_with = none;
}
