-- ===== src/Knowledge/Steps/Accepted.antt =====
-- The store after an update that is accepted.
use persistent_memory_stack.Prelude.{
  ==_iff, All, Bool-cases, Elem, List, [], and_split, ap, default_to, find?, inl, inr, is_some,
  none, on_if, refl, some, sym, true, ℕ, ◌+◌, ◌==◌, ◌∙◌, ◌∷◌, ◌≡◌, ◌≢◌,
}
use persistent_memory_stack.Prelude.Assoc.{lookup, lookup-insert}
use persistent_memory_stack.Prelude.Result.{ok}
use persistent_memory_stack.Prelude.Text.{Text, text_eq, text_eq_iff}
use persistent_memory_stack.Knowledge.{Classification}
use persistent_memory_stack.Knowledge.Contract.Consistent.{IsConsistent}
use persistent_memory_stack.Knowledge.Catalog.Resolved.{resolve_classification-IsConsistent}
use persistent_memory_stack.Knowledge.Claims.{Row, classification_data}
use persistent_memory_stack.Knowledge.Receipts.{Response, Revision, Store, knowledge_result}
use persistent_memory_stack.Knowledge.Writes.{
  ClassifiedUpdate, RawRequest, Services, changed_revision, is_revision, keep_prior,
  legacy_revision, update_knowledge,
}
use persistent_memory_stack.Knowledge.Steps.Kept.{update_knowledge-IsChanged}

pub record IsAccepted (env : Services) (id : Text) (input : ClassifiedUpdate) (s t : Store)
    (r : Response) : Type 0 where
  pub prior : Row
  pub row : Row
  pub was_there : lookup id s.memories ≡ some prior
  pub expected : prior.revision ≡ input.expected_revision
  pub stored : lookup id t.memories ≡ some row
  pub next : row.revision ≡ prior.revision + 1
  pub content : row.content ≡ default_to prior.content input.content
  pub consistent : (c : Classification) × (row.columns ≡ classification_data c) × IsConsistent c
  pub others : (j : Text) → id ≢ j → lookup j t.memories ≡ lookup j s.memories
  pub recorded : Elem (changed_revision id input row) t.history
  pub kept : All (λ h. Elem h t.history) s.history
  pub preserved :
      (h : Revision) × Elem h t.history × (h.memory_id ≡ id) × (h.revision ≡ prior.revision)
  pub receipt :
      lookup input.idempotency_key t.receipts
      ≡ some (record { request_hash = env.hash_update id input; response = r })
  pub answer : r ≡ knowledge_result row

All-later :
    (x : Revision) (xs ys : List Revision) → All (λ h. Elem h ys) xs → All (λ h. Elem h (x ∷ ys)) xs
All-later x [] ys h = tt
All-later x (y ∷ xs) ys (p, h) = (inr p, All-later x xs ys h)

All-self : (xs : List Revision) → All (λ h. Elem h xs) xs
All-self [] = tt
All-self (x ∷ xs) = (inl refl, All-later x xs xs (All-self xs))

same_elements :
    (xs : List Revision) {ys zs : List Revision}
    → ys ≡ zs
    → All (λ h. Elem h ys) xs
    → All (λ h. Elem h zs) xs
same_elements xs e h = rw (← e) h

keep_prior-kept :
    (id : Text) (prior : Row) (history : List Revision)
    → All (λ h. Elem h (keep_prior id prior history)) history
unfolding keep_prior
keep_prior-kept id prior history =
    on_if (λ (xs : List Revision). All (λ h. Elem h xs) history)
      (is_some (find? (is_revision id prior.revision) history)) _ _ (λ _. All-self history)
      (λ _. All-later (legacy_revision id prior) history history (All-self history))

-- A revision that is found is one of the list.
found_there :
    (id : Text) (n : ℕ) (history : List Revision)
    → is_some (find? (is_revision id n) history) ≡ true
    → (h : Revision) × Elem h history × (h.memory_id ≡ id) × (h.revision ≡ n)
found_there id n [] e = absurd (cc)
found_there id n (h ∷ hs) e = elim (Bool-cases (is_revision id n h)) [
  | inl t ↦
      let (a, b) = and_split (text_eq h.memory_id id) (h.revision == n) t in
      (h, inl refl, (text_eq_iff _ _).0 a, (==_iff _ _).0 b)
  | inr t ↦ let (k, p, q, q') = found_there id n hs (rw t at e) in (k, inr p, q, q')
]

keep_prior-preserved :
    (id : Text) (prior : Row) (history : List Revision)
    → (h : Revision) × Elem h (keep_prior id prior history)
      × (h.memory_id ≡ id)
      × (h.revision ≡ prior.revision)
unfolding keep_prior
keep_prior-preserved id prior history =
    on_if
      (λ (xs : List Revision).
        (h : Revision) × Elem h xs × (h.memory_id ≡ id) × (h.revision ≡ prior.revision))
      (is_some (find? (is_revision id prior.revision) history)) _ _
      (λ e. found_there id prior.revision history e)
      (λ _. (legacy_revision id prior, inl refl, refl, refl))

-- An update whose key has no receipt, and that succeeds, was of a memory at the revision that it
-- expects. The memory has the next revision, its content is the new one or stays, and its columns
-- are those of a consistent classification; the other memories are as they were. The history has
-- what it had, the prior revision and the new one. The receipt has the request's hash and the
-- response, which is the one of the new row.
pub update_knowledge-IsAccepted :
    (env : Services) (id : Text) (raw : RawRequest ClassifiedUpdate) (input : ClassifiedUpdate)
    (now : ℕ) (seen later s t : Store) (r : Response)
    → raw.fields ≡ some input
    → lookup input.idempotency_key seen.receipts ≡ none
    → lookup input.idempotency_key s.receipts ≡ none
    → update_knowledge env id raw now seen later s ≡ ok (t, r)
    → IsAccepted env id input s t r
update_knowledge-IsAccepted env id raw input now seen later s t r given unseen unstored h =
    let (u, c, e) =
      update_knowledge-IsChanged env id raw input now seen later s t r given unseen unstored h in
    let end : t.history ≡ changed_revision id input c.claimed ∷ keep_prior id c.prior s.history =
      ap Store.history e ∙ c.recorded in
    let memories : t.memories ≡ u.memories = ap Store.memories e in
    let (k, p, q, q') = keep_prior-preserved id c.prior s.history in
    record {
      prior = c.prior;
      row = c.claimed;
      was_there = c.was_there;
      expected = c.expected;
      stored = ap (λ m. lookup id m) memories ∙ c.puts.stored;
      next = c.puts.says.same_revision;
      content = c.puts.says.same_content;
      consistent = (
        c.classification,
        c.puts.says.same_columns,
        resolve_classification-IsConsistent _ _ _ _ _ _ c.resolved,
      );
      others = λ j n. ap (λ m. lookup j m) memories ∙ c.puts.others j n;
      recorded = in_history (changed_revision id input c.claimed) end (inl refl);
      kept =
          same_elements s.history (sym end)
            (All-later _ s.history _ (keep_prior-kept id c.prior s.history));
      preserved = (k, in_history k end (inr p), q, q');
      receipt =
          ap (λ (w : Store). lookup input.idempotency_key w.receipts) e
          ∙ lookup-insert input.idempotency_key
              (record { request_hash = env.hash_update id input; response = r }) u.receipts;
      answer = c.answer;
    }
  where
    in_history : (h : Revision) {xs ys : List Revision} → xs ≡ ys → Elem h ys → Elem h xs
    in_history h same p = rw same p
