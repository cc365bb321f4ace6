-- ===== src/Embedding/Retry/Attempts.antt =====
-- How often `withRetry` calls, how long it waits and what it returns.
use persistent_memory_stack.Prelude.{
  Bool-cases, [], arith, inl, inr, leb, leb→le, length, max, refl, suc, sym, true, zero, ℕ, ◌+◌,
  ◌<◌, ◌∷◌, ◌≡◌, ◌≤◌, ◌⊎◌,
}
use persistent_memory_stack.Prelude.Result.{Result, Result-cases, err, ok}
use persistent_memory_stack.Embedding.Retry.{
  Run, Thrown, delay_of, is_retriable, retry_from, with_retry,
}

-- A failure after which another attempt is due.
abbrev Fails : {A : Type 0} → Result Thrown A → Type 0
Fails (ok a) = ⊥
Fails (err e) = is_retriable e ≡ true

module _ {A : Type 0} (fn : ℕ → Result Thrown A) (jitter : ℕ → ℕ) (max_retries : ℕ) where
  -- The attempts from one on: all but the last fail transiently, the last is returned, and it is the
  -- last because it succeeds, fails for good, or uses up the retries.
  pub record IsRun (attempt : ℕ) (r : Run A) : Type 0 where
    pub last : ℕ
    pub counted : attempt + r.calls ≡ last + 1
    pub returned : r.outcome ≡ fn last
    pub earlier : (k : ℕ) → attempt ≤ k → k < last → Fails (fn k)
    pub bounded : last ≤ max max_retries attempt
    pub final : ¬ Fails (fn last) ⊎ (max_retries ≤ last)
    pub waited : length r.delays + 1 ≡ r.calls

  retry_from-IsRun :
      (rounds attempt : ℕ)
      → max_retries < attempt + rounds
      → IsRun attempt (retry_from fn jitter max_retries rounds attempt)
  unfolding retry_from
  retry_from-IsRun zero attempt h = record {
    last = attempt;
    counted = refl;
    returned = refl;
    earlier = λ k p q. absurd (omega arith);
    bounded = omega arith;
    final = inr (omega arith);
    waited = refl;
  }
  retry_from-IsRun (suc rounds) attempt h = elim (Result-cases (fn attempt)) [
    | inl (a, e) ↦ rw (e, retry_from) (stop (ok a) e (inl (λ f. rw e at f)))
    | inr (x, e) ↦ elim (Bool-cases (is_retriable x)) [
      | inr permanent ↦
          rw (e, retry_from, permanent) (stop (err x) e (inl (λ f. cc (permanent, (rw e at f)))))
      | inl transient ↦ elim (Bool-cases (leb max_retries attempt)) [
        | inl spent ↦ rw (e, retry_from, transient, spent) (stop (err x) e (inr (leb→le _ _ spent)))
        | inr left ↦
            rw (e, retry_from, transient, left)
              (again x e transient (ground arith)
                (retry_from-IsRun rounds (attempt + 1) (omega arith)))
      ]
    ]
  ]
    where
      stop :
          (r : Result Thrown A)
          → fn attempt ≡ r
          → (¬ Fails (fn attempt)) ⊎ (max_retries ≤ attempt)
          → IsRun attempt (record { outcome = r; calls = 1; delays = [] })
      stop r e f = record {
        last = attempt;
        counted = refl;
        returned = sym e;
        earlier = λ k p q. absurd (omega arith);
        bounded = omega arith;
        final = f;
        waited = refl;
      }

      again :
          (x : Thrown) {r : Run A}
          → fn attempt ≡ err x
          → is_retriable x ≡ true
          → attempt < max_retries
          → IsRun (attempt + 1) r
          → IsRun attempt (record {
            outcome = r.outcome;
            calls = r.calls + 1;
            delays = delay_of jitter attempt x ∷ r.delays;
          })
      again x {r} e transient more run = record {
        last = run.last;
        counted = omega (arith, run.counted);
        returned = run.returned;
        earlier = λ k p q. elim (Bool-cases (leb (attempt + 1) k)) [
          | inl after ↦ run.earlier k (leb→le _ _ after) q
          | inr here ↦ let same : k ≡ attempt = ground arith in rw (same, e) transient
        ];
        bounded = omega (arith, run.bounded);
        final = run.final;
        waited = omega (arith, run.waited);
      }

  -- The first attempt is attempt 0; there are at most `max_retries + 1`; each but the last failed
  -- with a transient class; the answer is the last one's, which is a success, a failure of another
  -- class, or the one at which the retries are used up; and there was one wait between two attempts.
  pub with_retry-IsRun : IsRun 0 (with_retry fn jitter max_retries)
  unfolding with_retry
  with_retry-IsRun = retry_from-IsRun (max_retries + 1) 0 (omega arith)
