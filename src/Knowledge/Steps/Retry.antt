-- ===== src/Knowledge/Steps/Retry.antt =====
-- A request that is sent again.
use persistent_memory_stack.Prelude.{refl, some, ℕ, ◌∙◌, ◌≡◌}
use persistent_memory_stack.Prelude.Assoc.{lookup, lookup-insert, lookup-insert_other}
use persistent_memory_stack.Prelude.Result.{Result, ok}
use persistent_memory_stack.Prelude.Text.{Text, text_eq_refl}
use persistent_memory_stack.Knowledge.{KnowledgeError}
use persistent_memory_stack.Knowledge.Receipts.{Receipt, Response, Store}
use persistent_memory_stack.Knowledge.Receipts.Answers.{
  Answers, HasAnswered, applied, existing_receipt_lem, replayed_now, replayed_seen,
}
use persistent_memory_stack.Knowledge.Writes.{
  Services, change_memory, create_memory, save_knowledge, update_knowledge,
}
use persistent_memory_stack.Knowledge.Writes.Kept.{save_knowledge-Answers, update_knowledge-Answers}
use persistent_memory_stack.Knowledge.Writes.Effects.{
  change_memory-IsChanged, create_memory-IsCreated,
}
use persistent_memory_stack.Knowledge.Steps.{
  LeavesReceipts, Reaches, Request, Step, at_start, others, perform, performed, saving, then_step,
  updating,
}

-- How a request was answered, and that it is answered the same by a store that has its receipt.
record IsAnswered (env : Services) (request : Request) (seen s t : Store) (r : Response)
    : Type 0 where
  key : Text
  hash : Text
  apply : Store → Result KnowledgeError (Store × Response)
  answers : Answers env.owner key hash apply seen s t r
  keeps : (u : Store) (q : Response) → apply s ≡ ok (u, q) → u.receipts ≡ s.receipts
  again :
      (id : Text) (now : ℕ) (u later v : Store)
      → HasAnswered u key hash r
      → perform env request id now u later v ≡ ok (v, r)

perform-IsAnswered :
    (env : Services) (request : Request) (id : Text) (now : ℕ) (seen later s t : Store)
    (r : Response)
    → perform env request id now seen later s ≡ ok (t, r)
    → IsAnswered env request seen s t r
unfolding perform save_knowledge update_knowledge
perform-IsAnswered env (saving raw) id now seen later s t r h =
    let (input, e, owned, answers) = save_knowledge-Answers env now seen later s t r raw id h in
    record {
      key = input.idempotency_key;
      hash = env.hash_create input;
      apply = create_memory env input id now;
      answers = answers;
      keeps = λ u q g. (create_memory-IsCreated env input id now s u q g).puts.same_receipts;
      again = λ id now u later v has.
          rw (e, existing_receipt_lem env.owner _ _ (create_memory env input id now) u r owned has)
            refl;
    }
perform-IsAnswered env (updating memory_id raw) id now seen later s t r h =
    let (input, e, owned, answers) =
      update_knowledge-Answers env now seen later s t r memory_id raw h in
    record {
      key = input.idempotency_key;
      hash = env.hash_update memory_id input;
      apply = change_memory env memory_id input now;
      answers = answers;
      keeps = λ u q g. (change_memory-IsChanged env memory_id input now s u q g).puts.same_receipts;
      again = λ id now u later v has.
          rw
            (
              e,
              existing_receipt_lem env.owner _ _ (change_memory env memory_id input now) u r owned
                  has,
            )
            refl;
    }

-- Receipts are never lost or replaced.
abbrev KeepsReceipts : Store → Store → Type 0
KeepsReceipts s t =
    (k : Text) (receipt : Receipt)
    → lookup k s.receipts ≡ some receipt
    → lookup k t.receipts ≡ some receipt

answered-KeepsReceipts :
    (env : Services) (request : Request) (seen s t : Store) (r : Response)
    → IsAnswered env request seen s t r
    → KeepsReceipts s t
answered-KeepsReceipts env request seen s t r a = by_answer a.answers
  where
    by_answer : Answers env.owner a.key a.hash a.apply seen s t r → KeepsReceipts s t
    by_answer (replayed_seen has e) k receipt h = rw e h
    by_answer (replayed_now has e) k receipt h = rw e h
    by_answer (applied fresh u g e) k receipt h = rw e (
        lookup-insert_other a.key k _ u.receipts (λ same. cc (fresh, h, same))
        ∙ (rw (a.keeps u r g) h))

Step-KeepsReceipts :
    (env : Services) {s t : Store} → Step env LeavesReceipts s t → KeepsReceipts s t
Step-KeepsReceipts env {s} {t} (performed request id now seen later r h) k receipt e =
    answered-KeepsReceipts env request seen s t r
      (perform-IsAnswered env request id now seen later s t r h) k receipt e
Step-KeepsReceipts env (others later) k receipt h = rw later h

Reaches-KeepsReceipts :
    (env : Services) {s t : Store} → Reaches env LeavesReceipts s t → KeepsReceipts s t
Reaches-KeepsReceipts env at_start k receipt h = h
Reaches-KeepsReceipts env (then_step path step) k receipt h =
    Step-KeepsReceipts env step k receipt (Reaches-KeepsReceipts env path k receipt h)

HasAnswered-later :
    (env : Services) {s t : Store} (key hash : Text) (r : Response)
    → Reaches env LeavesReceipts s t
    → HasAnswered s key hash r
    → HasAnswered t key hash r
HasAnswered-later env key hash r path has = record {
  receipt = has.receipt;
  stored = Reaches-KeepsReceipts env path key has.receipt has.stored;
  same_request = has.same_request;
  same_response = has.same_response;
}

-- A request that succeeded has its receipt.
answered-HasAnswered :
    (env : Services) (request : Request) (seen s t : Store) (r : Response)
    → Reaches env LeavesReceipts seen s
    → (a : IsAnswered env request seen s t r) → HasAnswered t a.key a.hash r
answered-HasAnswered env request seen s t r path a = by_answer a.answers
  where
    by_answer : Answers env.owner a.key a.hash a.apply seen s t r → HasAnswered t a.key a.hash r
    by_answer (replayed_seen has e) = rw e (HasAnswered-later env a.key a.hash r path has)
    by_answer (replayed_now has e) = rw e has
    by_answer (applied fresh u g e) = record {
      receipt = record { request_hash = a.hash; response = r };
      stored =
          rw e (lookup-insert a.key (record { request_hash = a.hash; response = r }) u.receipts);
      same_request = text_eq_refl a.hash;
      same_response = refl;
    }

-- Once a save or an update has succeeded, the same request sent again, when other requests may have
-- run since and other processes may have written anything but receipts, deletions and imports of
-- memories included, is answered with the same response, and the store in which it is answered stays
-- as it is. The first run read its receipt from a store that led to the one it changed, and the
-- second reads it from a store that comes after.
pub perform_again :
    (env : Services) (request : Request) (id id' : Text) (now now' : ℕ)
    (seen later s t seen' later' s' : Store) (r : Response)
    → Reaches env LeavesReceipts seen s
    → perform env request id now seen later s ≡ ok (t, r)
    → Reaches env LeavesReceipts t seen'
    → perform env request id' now' seen' later' s' ≡ ok (s', r)
perform_again env request id id' now now' seen later s t seen' later' s' r before h after =
    let a = perform-IsAnswered env request id now seen later s t r h in
    a.again id' now' seen' later' s' (
      HasAnswered-later env a.key a.hash r after
        (answered-HasAnswered env request seen s t r before a))
