-- ===== src/Tests/Knowledge.antt =====
-- Runs of the definitions of Knowledge, and its theorems at concrete inputs.
use persistent_memory_stack.Prelude.Assoc.{insert, lookup}
use persistent_memory_stack.Knowledge.Catalog.{resolve_classification}
use persistent_memory_stack.Knowledge.Steps.{at_start, perform, performed, saving, then_step}
use persistent_memory_stack.Knowledge.Steps.Retry.{perform_again}
use persistent_memory_stack.Knowledge.Steps.Kept.{update_knowledge_once}
use persistent_memory_stack.Knowledge.Steps.Accepted.{IsAccepted, update_knowledge-IsAccepted}
use persistent_memory_stack.Knowledge.Steps.Sound.{IsSound, Reaches-IsSound}
use persistent_memory_stack.Knowledge.Writes.Saved.{
  CanCreate, IsSaved, MaySave, save_knowledge-IsSaved,
}
use persistent_memory_stack.Prelude.{[], none, refl, some, true, ℕ, ◌++◌, ◌<◌, ◌↔◌, ◌∷◌, ◌≡◌}
use persistent_memory_stack.Prelude.Result.{Result, err, ok}
use persistent_memory_stack.Prelude.Text.{Text, codes, text_eq}
use persistent_memory_stack.Knowledge.{
  ApplicabilityState, AssertionStatus, Classification, KnowledgeError, KnowledgeSource, Link,
  MemoryType, OriginKind, correction, reason_missing, revision_conflict, topic, unresolved_fact,
  user,
}
use persistent_memory_stack.Knowledge.Contract.{classification_issues}
use persistent_memory_stack.Knowledge.Contract.Consistent.{IsConsistent, classification_issues_iff}
use persistent_memory_stack.Knowledge.Claims.{Hashes, classification_data, persist_claim}
use persistent_memory_stack.Knowledge.Receipts.{
  Response, Store, existing_receipt, knowledge_result, with_receipt,
}
use persistent_memory_stack.Knowledge.Writes.{
  ClassifiedUpdate, ClassifiedWrite, RawRequest, Services, accept, keep_prior, new_row,
  parse_knowledge, save_knowledge, update_knowledge,
}

abbrev note : KnowledgeSource
note = record { kind = user; reference = codes "chat"; evidence = codes "said so" }

abbrev about_search : Classification
about_search = record {
  memory_type = MemoryType.decision;
  assertion_status = AssertionStatus.observation;
  primary_topic = codes "search";
  topic_tags = codes "search" ∷ [];
  origin = record { kind = OriginKind.general; name = none };
  applicability = record {
    state = ApplicabilityState.general;
    projects = none;
    systems = none;
    reason = none;
  };
  sources = note ∷ [];
  entities = none;
  additional_tags = none;
  title = none;
  relationships = none;
}

classification_issues_iff_example :
    (classification_issues about_search ≡ []) ↔ IsConsistent about_search
classification_issues_iff_example = classification_issues_iff about_search

-- A fact that leaves open where it applies, and does not say why.
unclear_fact :
    classification_issues (record about_search {
      assertion_status = AssertionStatus.fact;
      applicability = record about_search.applicability { state = ApplicabilityState.unresolved };
    })
    ≡ reason_missing ∷ unresolved_fact ∷ []
unfolding classification_issues text_eq
unclear_fact = refl

abbrev hashes : Hashes
hashes = record {
  of_source = λ s. KnowledgeSource.reference s;
  of_classification = λ c. Classification.primary_topic c;
  of_link = λ l. Link.target_name l;
}

abbrev services : Services
services = record {
  owner = some (codes "me");
  read = λ c. some c;
  read_content = λ t. some t;
  hashes = hashes;
  hash_create = λ input. ClassifiedWrite.content input;
  hash_update = λ id input. id ++ ClassifiedUpdate.idempotency_key input;
  is_clean = λ _. true;
  is_clean_update = λ _ _. true;
  verdict = λ _. accept;
}

abbrev empty_store : Store
empty_store = record {
  terms = record { kind = topic; name = codes "search"; aliases = []; reason = [] } ∷ [];
  projection = record { sources = []; entities = []; claims = []; relationships = [] };
  memories = [];
  history = [];
  receipts = [];
}

abbrev request_fields : ClassifiedWrite
request_fields = record {
  content = codes "we use vectors";
  classification = about_search;
  idempotency_key = codes "k1";
  resolutions = none;
}

abbrev request : RawRequest ClassifiedWrite
request = record { contract_version = some 2; fields = some request_fields }

abbrev store_of : Result KnowledgeError (Store × Response) → Store
store_of (ok (s, _)) = s
store_of (err _) = empty_store

abbrev answer_of : Result KnowledgeError (Store × Response) → Response → Response
answer_of (ok (_, r)) _ = r
answer_of (err _) r = r

saved : Result KnowledgeError (Store × Response)
saved = perform services (saving request) (codes "m1") 5 empty_store empty_store empty_store

after_save : Store
unfolding saved
after_save = store_of saved

first_answer : Response
unfolding saved
first_answer = answer_of saved (knowledge_result (new_row [] [] about_search 0))

save_succeeds :
    perform services (saving request) (codes "m1") 5 empty_store empty_store empty_store
    ≡ ok (after_save, first_answer)
unfolding perform save_knowledge update_knowledge existing_receipt with_receipt
    resolve_classification persist_claim classification_issues classification_data lookup insert
    text_eq keep_prior parse_knowledge saved after_save first_answer
save_succeeds = refl

perform_again_example :
    perform services (saving request) (codes "m2") 9 after_save after_save after_save
    ≡ ok (after_save, first_answer)
perform_again_example =
    perform_again services (saving request) (codes "m1") (codes "m2") 5 9 empty_store empty_store
      empty_store after_save after_save after_save after_save first_answer at_start save_succeeds
      at_start

abbrev correction_of : ℕ → Text → Text → ClassifiedUpdate
correction_of revision content key = record {
  expected_revision = revision;
  intent = correction;
  content = some content;
  classification = none;
  reason = codes "measured again";
  evidence = note ∷ [];
  idempotency_key = key;
  resolutions = none;
}

abbrev update_of : ClassifiedUpdate → RawRequest ClassifiedUpdate
update_of input = record { contract_version = some 2; fields = some input }

abbrev first_correction : ClassifiedUpdate
first_correction = correction_of 1 (codes "we use an index") (codes "k2")

abbrev second_correction : ClassifiedUpdate
second_correction = correction_of 2 (codes "we use two indexes") (codes "k3")

after_first : Store
unfolding after_save saved
after_first = store_of (
    update_knowledge services (codes "m1") (update_of first_correction) 6 after_save after_save
      after_save)

second_answer : Response
unfolding after_save saved
second_answer =
    answer_of
      (update_knowledge services (codes "m1") (update_of first_correction) 6 after_save after_save
        after_save)
      first_answer

first_succeeds :
    update_knowledge services
      (codes "m1")
      (update_of first_correction)
      6
      after_save
      after_save
      after_save
    ≡ ok (after_first, second_answer)
unfolding perform save_knowledge update_knowledge existing_receipt with_receipt
    resolve_classification persist_claim classification_issues classification_data lookup insert
    text_eq keep_prior parse_knowledge saved after_save first_answer after_first second_answer
first_succeeds = refl

fresh_first : lookup (codes "k2") after_save.receipts ≡ none
unfolding perform save_knowledge update_knowledge existing_receipt with_receipt
    resolve_classification persist_claim classification_issues classification_data lookup insert
    text_eq keep_prior parse_knowledge saved after_save first_answer after_first second_answer
fresh_first = refl

update_knowledge-IsAccepted_example :
    IsAccepted services (codes "m1") first_correction after_save after_first second_answer
update_knowledge-IsAccepted_example =
    update_knowledge-IsAccepted services (codes "m1") (update_of first_correction) first_correction
      6 after_save after_save after_save after_first second_answer refl fresh_first fresh_first
      first_succeeds

after_second : Store
unfolding after_first after_save saved
after_second = store_of (
    update_knowledge services (codes "m1") (update_of second_correction) 7 after_first after_first
      after_first)

third_answer : Response
unfolding after_first after_save saved
third_answer =
    answer_of
      (update_knowledge services (codes "m1") (update_of second_correction) 7 after_first
        after_first after_first)
      first_answer

second_succeeds :
    update_knowledge services
      (codes "m1")
      (update_of second_correction)
      7
      after_first
      after_first
      after_first
    ≡ ok (after_second, third_answer)
unfolding perform save_knowledge update_knowledge existing_receipt with_receipt
    resolve_classification persist_claim classification_issues classification_data lookup insert
    text_eq keep_prior parse_knowledge saved after_save first_answer after_first second_answer
    after_second third_answer
second_succeeds = refl

fresh_second : lookup (codes "k3") after_first.receipts ≡ none
unfolding perform save_knowledge update_knowledge existing_receipt with_receipt
    resolve_classification persist_claim classification_issues classification_data lookup insert
    text_eq keep_prior parse_knowledge saved after_save first_answer after_first second_answer
    after_second third_answer
fresh_second = refl

update_knowledge_once_example : ◌<◌ 1 2
update_knowledge_once_example =
    update_knowledge_once services (codes "m1") (update_of first_correction)
      (update_of second_correction) first_correction second_correction 6 7 after_save after_save
      after_save after_first after_first after_first after_first after_second second_answer
      third_answer refl refl fresh_first fresh_first fresh_second fresh_second first_succeeds
      at_start second_succeeds

-- The second correction, sent again with the revision that is gone.
stale :
    update_knowledge services
      (codes "m1")
      (update_of (correction_of 1 (codes "x") (codes "k4")))
      8
      after_second
      after_first
      after_second
    ≡ err revision_conflict
unfolding perform save_knowledge update_knowledge existing_receipt with_receipt
    resolve_classification persist_claim classification_issues classification_data lookup insert
    text_eq keep_prior parse_knowledge saved after_save first_answer after_first second_answer
    after_second third_answer
stale = refl

empty-IsSound : IsSound empty_store
unfolding lookup
empty-IsSound = record { consistent = λ id row c h k. absurd (cc); recorded = tt }

Reaches-IsSound_example : IsSound after_save
Reaches-IsSound_example = Reaches-IsSound services empty-IsSound (
    then_step at_start (
      performed (saving request) (codes "m1") 5 empty_store empty_store first_answer save_succeeds))

may_save : MaySave services request request_fields empty_store empty_store
unfolding parse_knowledge classification_issues lookup text_eq
may_save = record {
  parsed = refl;
  owned = refl;
  unseen = refl;
  unstored = refl;
  clean = refl;
  accepted = refl;
}

can_create : CanCreate services request_fields (codes "m1") 5 empty_store
unfolding resolve_classification classification_issues lookup insert text_eq
can_create = record {
  terms = empty_store.terms;
  classification = about_search;
  resolved = refl;
  is_new = refl;
  unclaimed = refl;
  unrecorded = refl;
  topical = refl;
  linked = tt;
}

save_knowledge-IsSaved_example :
    (t : Store) × (r : Response) × (save_knowledge services request
        (codes "m1")
        5
        empty_store
        empty_store
      ≡ ok (t, r))
    × IsSaved services request_fields (codes "m1") empty_store t r
save_knowledge-IsSaved_example =
    save_knowledge-IsSaved services request request_fields (codes "m1") 5 empty_store empty_store
      may_save can_create
