-- ===== src/Tests/Embedding.antt =====
-- Runs of the definitions of Embedding, and its theorems at concrete inputs.
use persistent_memory_stack.Prelude.{
  List, Option, [], if◌then◌else◌, ltb, none, refl, some, ℕ, ◌∷◌, ◌≡◌,
}
use persistent_memory_stack.Prelude.Result.{Result, err, ok}
use persistent_memory_stack.Embedding.Batch.{chunk_batches}
use persistent_memory_stack.Embedding.Retry.{Thrown, embedding, http, is_retriable, with_retry}
use persistent_memory_stack.Embedding.Retry.Attempts.{IsRun, with_retry-IsRun}
use persistent_memory_stack.Embedding.Registry.{ModelSpec, ollama}

abbrev three : List ℕ
three = 5 ∷ 6 ∷ 7 ∷ []

three_batched : chunk_batches three 2 ≡ ((5 ∷ 6 ∷ []) ∷ (7 ∷ []) ∷ [])
unfolding chunk_batches
three_batched = refl

abbrev answers : List (Option (List ℕ))
answers = some (1 ∷ 2 ∷ []) ∷ none ∷ []

-- The server is busy twice.
abbrev flaky : ℕ → Result Thrown ℕ
flaky attempt =
    if ltb attempt 2
    then err (embedding (record { kind = http; status = some 503; retry_after_ms = none }))
    else ok 9

flaky_calls : (with_retry flaky (λ base. base) 3).calls ≡ 3
unfolding with_retry is_retriable
flaky_calls = refl

with_retry-IsRun_example : IsRun flaky (λ base. base) 3 0 (with_retry flaky (λ base. base) 3)
with_retry-IsRun_example = with_retry-IsRun flaky (λ base. base) 3

abbrev nomic : ModelSpec
nomic = record { provider = ollama; native_dim = 768; supported_dims = some (768 ∷ []) }
