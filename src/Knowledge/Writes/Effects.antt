-- ===== src/Knowledge/Writes/Effects.antt =====
-- What the transactions of a save and of an update leave behind.
use persistent_memory_stack.Prelude.{
  ==_iff, Bool, List, Option, [], ap, default_to, false, find?, is_some, map, none, not, or_else,
  refl, some, sym, true, ℕ, ◌&&◌, ◌==◌, ◌∙◌, ◌∷◌, ◌≡◌, ◌≢◌,
}
use persistent_memory_stack.Prelude.Assoc.{insert, lookup, lookup-insert, lookup-insert_other}
use persistent_memory_stack.Prelude.Result.{ok, ok-injective, on_bind, on_require}
use persistent_memory_stack.Prelude.Text.{Text}
use persistent_memory_stack.Knowledge.{
  Classification, TargetKind, duplicate_row, intent_conflict, legacy_classification_required,
  listed, revision_conflict,
}
use persistent_memory_stack.Knowledge.Catalog.{
  KnowledgeTerm, parse_classification, resolve_classification,
}
use persistent_memory_stack.Knowledge.Claims.{
  Dependency, Hashes, Projection, Row, add_entity, delete_links, entity_of, link_sources,
  persist_claim, put_claim, relate, relate_all, stamped, topic_link, upsert_sources,
}
use persistent_memory_stack.Knowledge.Receipts.{Response, Revision, Store, knowledge_result}
use persistent_memory_stack.Knowledge.Writes.{
  ClassifiedUpdate, ClassifiedWrite, Services, accept_row, add_revision, candidate_of,
  change_memory, changed_revision, changed_row, create_memory, created_revision, found, is_revision,
  keep_prior, keeps_content, legacy_classification, new_row, replaces_content,
}

-- The claims of a row do not change what it says.
pub record Says (row claimed : Row) : Type 0 where
  pub same_id : claimed.id ≡ row.id
  pub same_content : claimed.content ≡ row.content
  pub same_revision : claimed.revision ≡ row.revision
  pub same_columns : claimed.columns ≡ row.columns

pub persist_claim-Says :
    (hashes : Hashes) (find : Text → Option Row) (terms : List KnowledgeTerm) (allow : Bool)
    (previous : List Dependency) (row : Row) (c : Classification) (p q : Projection) (claimed : Row)
    → persist_claim hashes find terms allow previous row c p ≡ ok (q, claimed)
    → Says row claimed
unfolding persist_claim
persist_claim-Says hashes find terms allow previous row c p q claimed h =
    let source_ids = map hashes.of_source c.sources in
    on_bind
      (put_claim hashes.of_classification row c source_ids (
        add_entity (entity_of c TargetKind.memory row.id)
          (upsert_sources hashes.of_source c.sources p)))
      _ h
      (λ q1 e h.
        on_bind
          (relate hashes.of_link find terms allow previous row c (topic_link c)
            ([], delete_links row q1))
          _ h
          (λ (ds, r) f h.
            on_bind
              (relate_all hashes.of_link find terms allow previous row c (listed c.relationships)
                (ds, link_sources row source_ids r))
              _ h
              (λ (es, t) g h.
                let same : (t, stamped source_ids es row) ≡ (q, claimed) = ok-injective h in
                record {
                  same_id = cc same;
                  same_content = cc same;
                  same_revision = cc same;
                  same_columns = cc same;
                })))

-- One row is put, and the rest of the table stays.
pub record Puts (s u : Store) (id : Text) (row claimed : Row) : Type 0 where
  pub says : Says row claimed
  pub stored : lookup id u.memories ≡ some claimed
  pub others : (j : Text) → id ≢ j → lookup j u.memories ≡ lookup j s.memories
  pub same_receipts : u.receipts ≡ s.receipts

insert_twice :
    (id : Text) (row claimed : Row) (m : List (Text × Row)) (j : Text)
    → id ≢ j
    → lookup j (insert id claimed (insert id row m)) ≡ lookup j m
insert_twice id row claimed m j n =
    lookup-insert_other id j claimed (insert id row m) n ∙ lookup-insert_other id j row m n

-- A row that is accepted is put, recorded, and the answer.
accept_row-Puts :
    (env : Services) (s u : Store) (terms : List KnowledgeTerm) (previous : List Dependency)
    (id : Text) (row : Row) (c : Classification) (revision : Row → Revision)
    (history : List Revision) (r : Response)
    → accept_row env s terms previous id row c revision history ≡ ok (u, r)
    → (claimed : Row) × Puts s u id row claimed
      × (u.history ≡ revision claimed ∷ history)
      × (r ≡ knowledge_result claimed)
unfolding accept_row add_revision
accept_row-Puts env s u terms previous id row c revision history r h =
    let memories = insert id row s.memories in
    on_bind
      (persist_claim env.hashes (λ k. lookup k memories) terms false previous row c s.projection) _
      h
      (λ (p, claimed) f h. on_bind (add_revision (revision claimed) history) _ h (λ after g h.
        let same = ok-injective h in
        let new = revision claimed in
        on_require (not (is_some (find? (is_revision new.memory_id new.revision) history)))
          duplicate_row _ g
          (λ _ k. (
            claimed,
            record {
              says =
                  persist_claim-Says env.hashes (λ k. lookup k memories) terms false previous row c
                    s.projection p claimed f;
              stored =
                  ap (λ (end : Store × Response). lookup id end.0.memories) (sym same)
                  ∙ lookup-insert id claimed memories;
              others = λ j n.
                  ap (λ (end : Store × Response). lookup j end.0.memories) (sym same)
                  ∙ insert_twice id row claimed s.memories j n;
              same_receipts = ap (λ (end : Store × Response). end.0.receipts) (sym same);
            },
            ap (λ (end : Store × Response). end.0.history) (sym same) ∙ sym (ok-injective k),
            ap (λ (end : Store × Response). end.1) (sym same),
          ))))

pub record IsCreated (env : Services) (input : ClassifiedWrite) (id : Text) (now : ℕ) (s u : Store)
    (r : Response) : Type 0 where
  pub terms : List KnowledgeTerm
  pub classification : Classification
  pub claimed : Row
  pub resolved :
      resolve_classification env.read input.classification input.resolutions s.terms
      ≡ ok (terms, classification)
  pub is_new : lookup id s.memories ≡ none
  pub puts : Puts s u id (new_row id input.content classification now) claimed
  pub recorded : u.history ≡ created_revision claimed classification ∷ s.history
  pub answer : r ≡ knowledge_result claimed

is_absent : {A : Type 0} (o : Option A) → not (is_some o) ≡ true → o ≡ none
is_absent none h = refl
is_absent (some a) h = cc

pub create_memory-IsCreated :
    (env : Services) (input : ClassifiedWrite) (id : Text) (now : ℕ) (s u : Store) (r : Response)
    → create_memory env input id now s ≡ ok (u, r)
    → IsCreated env input id now s u r
unfolding create_memory
create_memory-IsCreated env input id now s u r h =
    on_bind (resolve_classification env.read input.classification input.resolutions s.terms) _ h
      (λ (terms, c) e h.
        on_require (not (is_some (lookup id s.memories))) duplicate_row _ h (λ new h.
          let (claimed, puts, recorded, answer) =
            accept_row-Puts env s u terms [] id (new_row id input.content c now) c
              (λ claimed. created_revision claimed c) s.history r h in
          record {
            terms = terms;
            classification = c;
            claimed = claimed;
            resolved = e;
            is_new = is_absent _ new;
            puts = puts;
            recorded = recorded;
            answer = answer;
          }))

pub record IsChanged (env : Services) (id : Text) (input : ClassifiedUpdate) (now : ℕ) (s u : Store)
    (r : Response) : Type 0 where
  pub prior : Row
  pub terms : List KnowledgeTerm
  pub parsed : Classification
  pub classification : Classification
  pub claimed : Row
  pub was_there : lookup id s.memories ≡ some prior
  pub expected : prior.revision ≡ input.expected_revision
  pub resolved :
      resolve_classification env.read parsed input.resolutions s.terms ≡ ok (terms, classification)
  pub intended :
      (keeps_content input.intent && replaces_content input.content prior.content) ≡ false
  pub puts : Puts s u id (changed_row prior input classification now) claimed
  pub recorded : u.history ≡ changed_revision id input claimed ∷ keep_prior id prior s.history
  pub answer : r ≡ knowledge_result claimed

found_lem : (o : Option Row) (row : Row) → found o ≡ ok row → o ≡ some row
unfolding found
found_lem none row h = cc
found_lem (some k) row h = ap (λ x. some x) (ok-injective h)

opposite_true : (b : Bool) → not b ≡ true → b ≡ false
opposite_true false h = refl
opposite_true true h = cc

pub change_memory-IsChanged :
    (env : Services) (id : Text) (input : ClassifiedUpdate) (now : ℕ) (s u : Store) (r : Response)
    → change_memory env id input now s ≡ ok (u, r)
    → IsChanged env id input now s u r
unfolding change_memory
change_memory-IsChanged env id input now s u r h =
    on_bind (found (lookup id s.memories)) _ h (λ prior there h.
      on_require (prior.revision == input.expected_revision) revision_conflict _ h (λ expected h.
        on_bind (legacy_classification (or_else input.classification prior.columns.knowledge)) _ h
          (λ k _ h.
            on_bind (parse_classification env.read legacy_classification_required k) _ h
              (λ parsed _ h.
                on_bind
                  (candidate_of env input.idempotency_key (default_to prior.content input.content)
                    (some parsed))
                  _ h
                  (λ _ _ h.
                    on_bind (resolve_classification env.read parsed input.resolutions s.terms) _ h
                      (λ (terms, c) resolved h.
                        on_require
                          (not (
                            keeps_content input.intent
                            && replaces_content input.content prior.content))
                          intent_conflict _ h
                          (λ intended h.
                            let (claimed, puts, recorded, answer) =
                              accept_row-Puts env s u terms prior.dependencies id
                                (changed_row prior input c now) c (changed_revision id input)
                                (keep_prior id prior s.history) r h in
                            record {
                              prior = prior;
                              terms = terms;
                              parsed = parsed;
                              classification = c;
                              claimed = claimed;
                              was_there = found_lem _ _ there;
                              expected = (==_iff _ _).0 expected;
                              resolved = resolved;
                              intended = opposite_true _ intended;
                              puts = puts;
                              recorded = recorded;
                              answer = answer;
                            })))))))
