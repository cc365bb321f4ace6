-- ===== src/Embedding/Retry.antt =====
-- `withRetry` and `fetchJson` of packages/shared/src/embeddings/batch.ts. The calls of `fn` and of
-- `fetch` are parameters: what each attempt gives. A delay that is not a number is `not_a_number`.
pub mod Attempts
use Prim.Native.String.{String}
use persistent_memory_stack.Prelude.{
  Bool, List, Option, [], default_to, false, if◌then◌else◌, leb, min, none, not, some, suc, true,
  zero, ℕ, ◌*◌, ◌+◌, ◌-◌, ◌==◌, ◌^◌, ◌||◌, ◌∷◌,
}
use persistent_memory_stack.Prelude.Result.{Result, err, ok}

pub data Kind : Type 0 where
  auth rate_limit http timeout network shape dim_mismatch config : Kind

pub data Delay : Type 0 where
  millis : ℕ → Delay
  not_a_number : Delay

pub record EmbeddingError : Type 0 where
  pub kind : Kind
  pub status : Option ℕ
  pub retry_after_ms : Option Delay

-- What `fn` can throw: `e instanceof EmbeddingError`, or anything else.
pub data Thrown : Type 0 where
  embedding : EmbeddingError → Thrown
  other : Thrown

unfoldable pub is_retriable : Thrown → Bool
is_retriable other = false
is_retriable (embedding e) = elim e.kind [
  | rate_limit ↦ true
  | timeout ↦ true
  | network ↦ true
  | http ↦ leb 500 (default_to 0 e.status)
  | _ ↦ false
]

-- `Math.min(1000 * 2 ** attempt, 16000)`
abbrev backoff : ℕ → ℕ
backoff attempt = min (1000 * 2 ^ attempt) 16000

-- `explicit ?? jittered`, where `jitter` stands for `Math.random() * base`.
delay_of : (ℕ → ℕ) → ℕ → Thrown → Delay
delay_of jitter attempt other = millis (jitter (backoff attempt))
delay_of jitter attempt (embedding e) =
    default_to (millis (jitter (backoff attempt))) e.retry_after_ms

pub record Run (A : Type 0) : Type 0 where
  pub outcome : Result Thrown A
  pub calls : ℕ
  pub delays : List Delay

module _ {A : Type 0} (fn : ℕ → Result Thrown A) (jitter : ℕ → ℕ) (max_retries : ℕ) where
  -- One round of the loop and those after it; `rounds` is fuel.
  retry_from : ℕ → ℕ → Run A
  retry_from zero attempt = record { outcome = fn attempt; calls = 1; delays = [] }
  retry_from (suc rounds) attempt =
      let rest = retry_from rounds (attempt + 1) in
      elim (fn attempt) [
        | ok a ↦ record { outcome = ok a; calls = 1; delays = [] }
        | err e ↦
            if not (is_retriable e) || leb max_retries attempt
            then record { outcome = err e; calls = 1; delays = [] }
            else record {
              outcome = rest.outcome;
              calls = rest.calls + 1;
              delays = delay_of jitter attempt e ∷ rest.delays;
            }
      ]

  unfoldable pub with_retry : Run A
  unfolding retry_from is_retriable delay_of
  with_retry = retry_from (max_retries + 1) 0

-- The header `retry-after`: a number of seconds (a natural number here; the source takes any finite
-- one), a date in milliseconds, or neither.
pub data RetryAfter : Type 0 where
  seconds : ℕ → RetryAfter
  date : ℕ → RetryAfter
  unreadable : RetryAfter

-- What `fetch` and the body of its response give.
pub data Exchange (A : Type 0) : Type 0 where
  aborted unreachable : Exchange A
  refused : (status : ℕ) → Option RetryAfter → Exchange A
  not_json : Exchange A
  body : A → Exchange A

-- `Math.max(0, Date.parse(ra) - Date.now())`
delay_until : ℕ → RetryAfter → Delay
delay_until now (seconds n) = millis (n * 1000)
delay_until now (date t) = millis (t - now)
delay_until now unreadable = not_a_number

abbrev kind_of_status : ℕ → Kind
kind_of_status status =
    if status == 401 || status == 403 then auth else if status == 429 then rate_limit else http

abbrev failure : Kind → EmbeddingError
failure kind = record { kind = kind; status = none; retry_after_ms = none }

unfoldable fetch_json : {A : Type 0} → ℕ → Exchange A → Result Thrown A
unfolding delay_until
fetch_json now aborted = err (embedding (failure timeout))
fetch_json now unreachable = err (embedding (failure network))
fetch_json now (refused status header) = err (
    embedding (record {
      kind = kind_of_status status;
      status = some status;
      retry_after_ms = elim header [ none ↦ none | some ra ↦ some (delay_until now ra) ];
    }))
fetch_json now not_json = err (embedding (failure shape))
fetch_json now (body a) = ok a
