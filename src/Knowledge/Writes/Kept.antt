-- ===== src/Knowledge/Writes/Kept.antt =====
-- How a save or an update that succeeds is answered.
use persistent_memory_stack.Knowledge.{
  Issue, memory_classification_invalid, memory_contract_upgrade_required,
}
use persistent_memory_stack.Prelude.{
  List, Option, [], ap, is_some, none, refl, some, true, ℕ, ◌==◌, ◌∷◌, ◌≡◌,
}
use persistent_memory_stack.Prelude.Assoc.{lookup}
use persistent_memory_stack.Knowledge.Contract.{is_nil}
use persistent_memory_stack.Prelude.Result.{
  err, ok, ok-injective, on_bind, on_require, require, ◌>>◌,
}
use persistent_memory_stack.Prelude.Text.{Text}
use persistent_memory_stack.Knowledge.Receipts.{Response, Store}
use persistent_memory_stack.Knowledge.Receipts.Answers.{
  Answers, existing_receipt-Answers, has_owner, with_receipt-Answers,
}
use persistent_memory_stack.Knowledge.Writes.{
  ClassifiedUpdate, ClassifiedWrite, RawRequest, Services, assert_content, candidate_of,
  change_memory, create_memory, found, parse_knowledge, save_knowledge, update_issues,
  update_knowledge, write_issues,
}

module _ (env : Services) (now : ℕ) (seen later s t : Store) (r : Response) where
  pub save_knowledge-Answers :
      (raw : RawRequest ClassifiedWrite) (id : Text)
      → save_knowledge env raw id now seen s ≡ ok (t, r)
      → (input : ClassifiedWrite) × (parse_knowledge write_issues raw ≡ ok input)
        × (is_some env.owner ≡ true)
        × Answers env.owner input.idempotency_key
            (env.hash_create input)
            (create_memory env input id now)
            seen
            s
            t
            r
  unfolding save_knowledge
  save_knowledge-Answers raw id h = on_bind (parse_knowledge write_issues raw) _ h (λ input e h. (
    input,
    e,
    has_owner env.owner input.idempotency_key (env.hash_create input)
        (create_memory env input id now) seen _ _ h,
    existing_receipt-Answers env.owner input.idempotency_key (env.hash_create input)
        (create_memory env input id now) seen s t r _ h
        (λ h. on_require (env.is_clean input) _ _ h (λ _ h.
          on_bind (assert_content (env.verdict input.content)) _ h (λ _ _ h.
            with_receipt-Answers env.owner input.idempotency_key (env.hash_create input)
              (create_memory env input id now) seen s t r h))),
  ))

  pub update_knowledge-Answers :
      (id : Text) (raw : RawRequest ClassifiedUpdate)
      → update_knowledge env id raw now seen later s ≡ ok (t, r)
      → (input : ClassifiedUpdate) × (parse_knowledge update_issues raw ≡ ok input)
        × (is_some env.owner ≡ true)
        × Answers env.owner input.idempotency_key
            (env.hash_update id input)
            (change_memory env id input now)
            seen
            s
            t
            r
  unfolding update_knowledge
  update_knowledge-Answers id raw h = on_bind (parse_knowledge update_issues raw) _ h (λ input e h.
      (
        input,
        e,
        has_owner env.owner input.idempotency_key (env.hash_update id input)
            (change_memory env id input now) seen _ _ h,
        existing_receipt-Answers env.owner input.idempotency_key (env.hash_update id input)
            (change_memory env id input now) seen s t r _ h
            (λ h. on_bind (found (lookup id later.memories)) _ h (λ current _ h.
              on_require (current.revision == input.expected_revision) _ _ h (λ _ h.
                on_bind (candidate_of env input.idempotency_key _ _) _ h (λ candidate _ h.
                  on_require (env.is_clean_update input candidate) _ _ h (λ _ h.
                    on_bind (assert_content (env.verdict candidate.content)) _ h (λ _ _ h.
                      with_receipt-Answers env.owner input.idempotency_key
                        (env.hash_update id input) (change_memory env id input now) seen s t r
                        h)))))),
      ))

-- A request that is parsed is what its fields are, and has no issue.
pub parsed_fields :
    {A : Type 0} (issues : A → List Issue) (raw : RawRequest A) (input : A)
    → parse_knowledge issues raw ≡ ok input
    → (raw.fields ≡ some input) × (issues input ≡ [])
unfolding parse_knowledge
parsed_fields {A} issues raw input h =
    on_require _ memory_contract_upgrade_required _ h (λ _ h. by_fields raw.fields h)
  where
    by_fields :
        (o : Option A)
        → (elim o [
          | none ↦ err (memory_classification_invalid [])
          | some a ↦ require (is_nil (issues a)) (memory_classification_invalid (issues a)) >> ok a
        ])
          ≡ ok input
        → (o ≡ some input) × (issues input ≡ [])
    by_fields none h = absurd (cc)
    by_fields (some a) h = on_require (is_nil (issues a)) _ _ h (λ e g.
        let same = ok-injective g in (ap (λ x. some x) same, rw (← same) (none_there (issues a) e)))
      where
        none_there : (xs : List Issue) → is_nil xs ≡ true → xs ≡ []
        none_there [] e = refl
        none_there (x ∷ xs) e = cc
