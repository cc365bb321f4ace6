-- ===== src/Knowledge/Claims/Persisted.antt =====
-- When the claims of a row can be persisted.
use persistent_memory_stack.Prelude.{
  All, Bool, List, Option, Option-cases, [], any, ap, find?, inl, inr, is_some, map, none, refl,
  some, true, ◌∙◌, ◌∷◌, ◌≡◌,
}
use persistent_memory_stack.Prelude.Assoc.{lookup}
use persistent_memory_stack.Prelude.Result.{Result, ok, require, ◌>>◌}
use persistent_memory_stack.Prelude.Text.{Text}
use persistent_memory_stack.Knowledge.{
  Classification, KnowledgeError, KnowledgeSource, Link, TargetKind, includes, listed,
  relationship_target_unresolved, topic,
}
use persistent_memory_stack.Knowledge.Catalog.{KnowledgeTerm}
use persistent_memory_stack.Knowledge.Claims.{
  Dependency, Hashes, Projection, Row, add_entity, add_link, delete_links, entity_of, is_claim_of,
  is_term, link_sources, persist_claim, put_claim, relate, relate_all, relate_memory, stamped,
  topic_link, upsert_source, upsert_sources,
}

-- The target of a link is there: a memory, a term of the catalog, or an entity of the record.
abbrev pub IsThere :
    (Text → Option Row) → List KnowledgeTerm → Classification → Text → TargetKind → Type 0
IsThere find terms c name TargetKind.memory = is_some (find name) ≡ true
IsThere find terms c name (TargetKind.of_term kind) = any (is_term kind name) terms ≡ true
IsThere find terms c name TargetKind.entity = includes name (listed c.entities) ≡ true

abbrev pub HasTarget : (Text → Option Row) → List KnowledgeTerm → Classification → Link → Type 0
HasTarget find terms c l = IsThere find terms c l.target_name l.target_kind

module _ (hash_link : Link → Text) (find : Text → Option Row) (terms : List KnowledgeTerm)
    (allow : Bool) (previous : List Dependency) (row : Row) (c : Classification) where
  abbrev Ends : Result KnowledgeError (List Dependency × Projection) → Type 0
  Ends r = (out : List Dependency × Projection) × (r ≡ ok out)

  relate_memory-Ends :
      (l : Link) (target : Option Row) (ds : List Dependency) (p : Projection)
      → is_some target ≡ true
      → Ends (relate_memory hash_link find terms allow previous row c l target (ds, p))
  unfolding relate_memory
  relate_memory-Ends l none ds p h = absurd (cc)
  relate_memory-Ends l (some t) ds p h = (_, refl)

  relate-Ends :
      (l : Link) (ds : List Dependency) (p : Projection)
      → HasTarget find terms c l
      → Ends (relate hash_link find terms allow previous row c l (ds, p))
  unfolding relate
  relate-Ends l ds p h = by_kind l.target_kind h
    where
      by_kind :
          (k : TargetKind)
          → IsThere find terms c l.target_name k
          → (out : List Dependency × Projection) × (◌≡◌
              {A = Result KnowledgeError (List Dependency × Projection)}
              (elim k [
                | TargetKind.memory ↦
                    relate_memory hash_link find terms allow previous row c l
                      (find l.target_name)
                      (ds, p)
                | TargetKind.of_term kind ↦
                    require (any (is_term kind l.target_name) terms) relationship_target_unresolved
                    >> ok (ds, add_link row c l none p)
                | TargetKind.entity ↦
                    require
                      (includes l.target_name (listed c.entities))
                      relationship_target_unresolved
                    >> ok (ds, add_link row c l none p)
              ])
              (ok out))
      by_kind TargetKind.memory h = relate_memory-Ends l (find l.target_name) ds p h
      by_kind (TargetKind.of_term kind) h = ((ds, add_link row c l none p), rw h refl)
      by_kind TargetKind.entity h = ((ds, add_link row c l none p), rw h refl)

  relate_all-Ends :
      (ls : List Link) (ds : List Dependency) (p : Projection)
      → All (HasTarget find terms c) ls
      → Ends (relate_all hash_link find terms allow previous row c ls (ds, p))
  unfolding relate_all
  relate_all-Ends [] ds p h = (_, refl)
  relate_all-Ends (l ∷ ls) ds p (h, hs) =
      let ((es, q), e) = relate-Ends l ds p h in
      let (out, f) = relate_all-Ends ls es q hs in (out, rw e f)

upsert_sources-claims :
    (hash : KnowledgeSource → Text) (ss : List KnowledgeSource) (p : Projection)
    → (upsert_sources hash ss p).claims ≡ p.claims
unfolding upsert_sources
upsert_sources-claims hash [] p = refl
upsert_sources-claims hash (s ∷ ss) p = upsert_sources-claims hash ss _ ∙ kept
  where
    kept : (upsert_source (hash s) s p).claims ≡ p.claims
    kept = elim (Option-cases (lookup (hash s) p.sources)) [
      | inl e ↦ rw (e, upsert_source) refl
      | inr (found, e) ↦ rw (e, upsert_source) refl
    ]

put_claim_lem :
    (hash : Classification → Text) (row : Row) (c : Classification) (source_ids : List Text)
    (p : Projection)
    → find? (is_claim_of row) p.claims ≡ none
    → (q : Projection) × (put_claim hash row c source_ids p ≡ ok q)
unfolding put_claim
put_claim_lem hash row c source_ids p unclaimed = (
  record p {
    claims =
        record {
          memory_id = row.id;
          memory_revision = row.revision;
          statement = row.content;
          source_ids = source_ids;
          classification = c;
        }
        ∷ p.claims;
  },
  rw (unclaimed, put_claim) refl,
)

-- Claims can be persisted for a revision that has none yet, if the targets of its links are there.
pub persist_claim_lem :
    (hashes : Hashes) (find : Text → Option Row) (terms : List KnowledgeTerm) (allow : Bool)
    (previous : List Dependency) (row : Row) (c : Classification) (p : Projection)
    → find? (is_claim_of row) p.claims ≡ none
    → any (is_term topic c.primary_topic) terms ≡ true
    → All (HasTarget find terms c) (listed c.relationships)
    → (q : Projection) × (claimed : Row) × (persist_claim hashes find terms allow previous row c p
        ≡ ok (q, claimed))
unfolding persist_claim
persist_claim_lem hashes find terms allow previous row c p fresh topical linked =
    let source_ids = map hashes.of_source c.sources in
    let first =
      add_entity (entity_of c TargetKind.memory row.id)
        (upsert_sources hashes.of_source c.sources p) in
    let unclaimed : find? (is_claim_of row) first.claims ≡ none =
      ap (find? (is_claim_of row)) (upsert_sources-claims hashes.of_source c.sources p) ∙ fresh in
    let (q, e) = put_claim_lem hashes.of_classification row c source_ids first unclaimed in
    let ((ds, r), f) =
      relate-Ends hashes.of_link find terms allow previous row c (topic_link c) []
        (delete_links row q) topical in
    let ((es, t), g) =
      relate_all-Ends hashes.of_link find terms allow previous row c (listed c.relationships) ds
        (link_sources row source_ids r) linked in
    (t, stamped source_ids es row, rw (e) (rw f (rw g refl)))
