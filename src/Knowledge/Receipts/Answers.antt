-- ===== src/Knowledge/Receipts/Answers.antt =====
-- How a request that carries a key can be answered.
use persistent_memory_stack.Prelude.{Option, ap, is_some, none, refl, some, true, ◌∙◌, ◌≡◌}
use persistent_memory_stack.Prelude.Assoc.{lookup}
use persistent_memory_stack.Prelude.Result.{Result, ok, ok-injective, on_bind, on_require, ◌>>=◌}
use persistent_memory_stack.Prelude.Text.{Text, text_eq}
use persistent_memory_stack.Knowledge.{KnowledgeError}
use persistent_memory_stack.Knowledge.Receipts.{
  Receipt, Response, Store, existing_receipt, replayed, with_new_receipt, with_receipt,
}

-- A store has the response of a request under its key.
pub record HasAnswered (s : Store) (key hash : Text) (r : Response) : Type 0 where
  pub receipt : Receipt
  pub stored : lookup key s.receipts ≡ some receipt
  pub same_request : text_eq receipt.request_hash hash ≡ true
  pub same_response : receipt.response ≡ r

module _ (owner : Option Text) (key hash : Text)
    (apply : Store → Result KnowledgeError (Store × Response)) where
  -- The response was stored before, or the request is applied now and leaves its receipt.
  pub data Answers (seen s t : Store) (r : Response) : Type 0 where
    replayed_seen : HasAnswered seen key hash r → t ≡ s → Answers seen s t r
    replayed_now : HasAnswered s key hash r → t ≡ s → Answers seen s t r
    applied :
        lookup key s.receipts ≡ none
        → (u : Store) → apply s ≡ ok (u, r)
        → t ≡ (with_new_receipt key hash (u, r)).0
        → Answers seen s t r

  pub with_receipt-Answers :
      (seen s t : Store) (r : Response)
      → with_receipt owner key hash apply s ≡ ok (t, r)
      → Answers seen s t r
  unfolding with_receipt replayed
  with_receipt-Answers seen s t r h =
      on_require (is_some owner) _ _ h (λ _ h. by_receipt (lookup key s.receipts) refl h)
    where
      by_receipt :
          (o : Option Receipt)
          → lookup key s.receipts ≡ o
          → (elim o [
            | some found ↦ replayed hash found >>= λ response. ok (s, response)
            | none ↦ apply s >>= λ done. ok (with_new_receipt key hash done)
          ])
            ≡ ok (t, r)
          → Answers seen s t r
      by_receipt none e h =
          on_bind (apply s) _ h
            (λ (u, response) f g. applied e u (cc (f, ok-injective g)) (cc (ok-injective g)))
      by_receipt (some found) e h = on_bind (replayed hash found) _ h (λ response f g.
          on_require (text_eq found.request_hash hash) _ _ f (λ same k.
            replayed_now
              (record {
                receipt = found;
                stored = e;
                same_request = same;
                same_response = ok-injective k ∙ cc (ok-injective g);
              })
              (cc (ok-injective g))))

  pub has_owner :
      (seen : Store) (rest : Option Response → Result KnowledgeError (Store × Response))
      (end : Store × Response)
      → (existing_receipt owner key hash seen >>= rest) ≡ ok end
      → is_some owner ≡ true
  unfolding existing_receipt
  has_owner seen rest end h =
      on_bind (existing_receipt owner key hash seen) _ h
        (λ _ f _. on_require (is_some owner) _ _ f (λ owned _. owned))

  -- The receipt that a store has for this request is what it answers with.
  pub existing_receipt_lem :
      (seen : Store) (r : Response)
      → is_some owner ≡ true
      → HasAnswered seen key hash r
      → existing_receipt owner key hash seen ≡ ok (some r)
  unfolding existing_receipt replayed
  existing_receipt_lem seen r owned has =
      rw (owned, has.stored) (rw has.same_request (ap (λ x. ok (some x)) has.same_response))

  -- A request asks for its receipt first, and goes on to `rest` if there is none.
  pub existing_receipt-Answers :
      (seen s t : Store) (r : Response) (rest : Result KnowledgeError (Store × Response))
      → (existing_receipt owner key hash seen >>= λ receipt. elim receipt [
        | some response ↦ ok (s, response)
        | none ↦ rest
      ])
        ≡ ok (t, r)
      → (rest ≡ ok (t, r) → Answers seen s t r)
      → Answers seen s t r
  unfolding existing_receipt replayed
  existing_receipt-Answers seen s t r rest h k =
      on_bind (existing_receipt owner key hash seen) _ h (λ answer f g.
        on_require (is_some owner) _ _ f
          (λ _ f. by_receipt (lookup key seen.receipts) refl answer f g))
    where
      by_receipt :
          (o : Option Receipt)
          → lookup key seen.receipts ≡ o
          → (answer : Option Response)
          → (elim o [
            | some found ↦ replayed hash found >>= λ response. ok (some response)
            | none ↦ ok none
          ])
            ≡ ok answer
          → (elim answer [ some response ↦ ok (s, response) | none ↦ rest ]) ≡ ok (t, r)
          → Answers seen s t r
      by_receipt none e none f g = k g
      by_receipt none e (some response) f g = absurd (cc)
      by_receipt (some found) e answer f g = on_bind (replayed hash found) _ f (λ response f' g'.
          on_require (text_eq found.request_hash hash) _ _ f' (λ same k'.
            let known : answer ≡ some found.response = cc in
            let same_end : (s, found.response) ≡ (t, r) = ok-injective (rw known at g) in
            replayed_seen
              (record {
                receipt = found;
                stored = e;
                same_request = same;
                same_response = cc (same_end);
              })
              (cc (same_end))))
