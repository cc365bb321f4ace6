-- ===== src/Knowledge/Claims.antt =====
-- `classificationData` and `persistClaim`: the columns of a memory that a classification gives, and
-- its projection to sources, entities, claims and relationships. The hashes are parameters. A
-- source or an entity is named by the unique key that its table has within an owner.
pub mod Persisted
use persistent_memory_stack.Prelude.{
  Bool, List, Option, [], any, default_to, false, find?, head?, if◌then◌else◌, is_some, map, none,
  not, or_else, select, some, true, ℕ, ◌&&◌, ◌++◌, ◌==◌, ◌||◌, ◌∷◌,
}
use persistent_memory_stack.Prelude.Assoc.{insert, lookup}
use persistent_memory_stack.Prelude.Result.{Result, ok, require, ◌>>=◌, ◌>>◌}
use persistent_memory_stack.Prelude.Text.{Text, codes, text_eq}
use persistent_memory_stack.Knowledge.{
  AssertionStatus, Classification, KnowledgeError, KnowledgeSource, Link, LinkStatus, MemoryType,
  Origin, OriginKind, RelationType, TargetKind, TermKind, about, classified, event, includes,
  inference, kind_text, listed, procedure, projection_conflict, relationship_target_unreadable,
  relationship_target_unresolved, same_kind, source_reported, supported_by, topic,
}
use persistent_memory_stack.Knowledge.Catalog.{KnowledgeTerm}

pub data MemoryTier : Type 0 where
  episodic procedural semantic : MemoryTier

-- The columns that `classificationData` sets; the confidence is in tenths.
pub record ClassificationData : Type 0 where
  pub knowledge : Option Classification
  pub memory_type : Option MemoryType
  pub assertion_status : Option AssertionStatus
  pub topic_tags : List Text
  pub project_associations : List Text
  pub system_associations : List Text
  pub project : Text
  pub entities : List Text
  pub memory_tier : MemoryTier
  pub confidence : ℕ

abbrev tier_of : MemoryType → MemoryTier
tier_of event = episodic
tier_of procedure = procedural
tier_of _ = semantic

abbrev confidence_of : AssertionStatus → ℕ
confidence_of inference = 4
confidence_of AssertionStatus.proposal = 5
confidence_of _ = 6

abbrev origin_project : Origin → Text
origin_project o = elim o.kind [
  | OriginKind.of_term TermKind.project ↦ default_to [] o.name
  | _ ↦ codes "general"
]

-- `topic.replaceAll('-', '_')`
abbrev underscored : Text → Text
underscored = map (λ c. if c == b'-' then b'_' else c)

-- `[...new Set(values)]`
abbrev unique_from : List Text → List Text → List Text
unique_from seen [] = []
unique_from seen (t ∷ ts) =
    let without = unique_from seen ts in
    let further = unique_from (t ∷ seen) ts in if includes t seen then without else t ∷ further

unfoldable pub classification_data : Classification → ClassificationData
classification_data c = record {
  knowledge = some c;
  memory_type = some c.memory_type;
  assertion_status = some c.assertion_status;
  topic_tags = c.topic_tags;
  project_associations = listed c.applicability.projects;
  system_associations = listed c.applicability.systems;
  project = origin_project c.origin;
  entities =
      unique_from [] (listed c.entities ++ map (λ t. codes "topic_" ++ underscored t) c.topic_tags);
  memory_tier = tier_of c.memory_type;
  confidence = confidence_of c.assertion_status;
}

pub record Dependency : Type 0 where
  pub link_hash : Text
  pub target_memory_id : Text
  pub target_revision : ℕ

pub data ProcessStatus : Type 0 where
  pending done failed : ProcessStatus

-- A row of the table of memories, as far as the write path goes.
pub record Row : Type 0 where
  pub id : Text
  pub content : Text
  pub created_at : ℕ
  pub revision : ℕ
  pub columns : ClassificationData
  pub embedding_status : ProcessStatus
  pub graph_status : ProcessStatus
  pub graph_version : ℕ
  pub record_updated_at : ℕ
  pub source_id : Option Text
  pub dependencies : List Dependency

pub record Claim : Type 0 where
  pub memory_id : Text
  pub memory_revision : ℕ
  pub statement : Text
  pub source_ids : List Text
  pub classification : Classification

-- The key of an entity: its kind and its name, with the origin for one of kind 'entity'.
pub record EntityKey : Type 0 where
  pub kind : Text
  pub within : Option Origin
  pub name : Text

pub record Relationship : Type 0 where
  pub memory_id : Text
  pub memory_revision : ℕ
  pub predicate : RelationType
  pub object : EntityKey
  pub status : LinkStatus
  pub source_references : List Text
  pub dependency : Option Dependency

pub record Projection : Type 0 where
  pub sources : List (Text × KnowledgeSource)
  pub entities : List EntityKey
  pub claims : List Claim
  pub relationships : List Relationship

pub record Hashes : Type 0 where
  pub of_source : KnowledgeSource → Text
  pub of_classification : Classification → Text
  pub of_link : Link → Text

-- `upsert` with `update: {}`: a row that is there stays.
abbrev upsert_source : Text → KnowledgeSource → Projection → Projection
upsert_source key s p = elim (lookup key p.sources) [
  | none ↦ record p { sources = insert key s p.sources }
  | some _ ↦ p
]

pub upsert_sources : (KnowledgeSource → Text) → List KnowledgeSource → Projection → Projection
upsert_sources hash [] p = p
upsert_sources hash (s ∷ ss) p = upsert_sources hash ss (upsert_source (hash s) s p)

abbrev pub entity_of : Classification → TargetKind → Text → EntityKey
entity_of c TargetKind.memory name = record { kind = codes "memory"; within = none; name = name }
entity_of c TargetKind.entity name = record {
  kind = codes "entity";
  within = some c.origin;
  name = name;
}
entity_of c (TargetKind.of_term kind) name = record {
  kind = kind_text kind;
  within = none;
  name = name;
}

-- The table of entities is a set of keys.
abbrev pub add_entity : EntityKey → Projection → Projection
add_entity e p = record p { entities = e ∷ p.entities }

abbrev pub is_claim_of : Row → Claim → Bool
is_claim_of row c = text_eq c.memory_id row.id && c.memory_revision == row.revision

-- The claim of this revision, which must agree with one that is there.
pub put_claim :
    (Classification → Text)
    → Row
    → Classification
    → List Text
    → Projection
    → Result KnowledgeError Projection
put_claim hash row c source_ids p = elim (find? (is_claim_of row) p.claims) [
  | none ↦ ok (record p {
    claims =
        record {
          memory_id = row.id;
          memory_revision = row.revision;
          statement = row.content;
          source_ids = source_ids;
          classification = c;
        }
        ∷ p.claims;
  })
  | some old ↦ do
    require (text_eq old.statement row.content && text_eq (hash old.classification) (hash c))
        projection_conflict
    ok p
]

abbrev is_link_of : Row → Relationship → Bool
is_link_of row r = text_eq r.memory_id row.id && r.memory_revision == row.revision

pub delete_links : Row → Projection → Projection
delete_links row p = record p {
  relationships = select (λ r. not (is_link_of row r)) p.relationships;
}

abbrev relationship_of : Row → Classification → Link → Option Dependency → Relationship
relationship_of row c l dependency = record {
  memory_id = row.id;
  memory_revision = row.revision;
  predicate = l.relation;
  object = entity_of c l.target_kind l.target_name;
  status = l.status;
  source_references = l.source_references;
  dependency = dependency;
}

-- The end of `relate`: the entity of the target and the relationship to it.
abbrev add_link : Row → Classification → Link → Option Dependency → Projection → Projection
add_link row c l dependency p =
    let q = add_entity (entity_of c l.target_kind l.target_name) p in
    record q { relationships = relationship_of row c l dependency ∷ q.relationships }

-- What a link to a memory depends on: what it did before, or the target as it is.
abbrev dependency_of : Text → Option Row → List Dependency → Option Dependency
dependency_of hash target previous =
    elim (find? (λ d. text_eq (Dependency.link_hash d) hash) previous) [
      | some prior ↦ some prior
      | none ↦ elim target [
        | none ↦ none
        | some t ↦
            some
              (record { link_hash = hash; target_memory_id = t.id; target_revision = t.revision })
      ]
    ]

-- `!target || (dependency && target.revision !== dependency.targetRevision)`
abbrev is_outdated : Option Row → Option Dependency → Bool
is_outdated none d = true
is_outdated (some t) none = false
is_outdated (some t) (some d) = not (t.revision == d.target_revision)

abbrev plus : Option Dependency → List Dependency → List Dependency
plus none ds = ds
plus (some d) ds = ds ++ d ∷ []

abbrev pub is_term : TermKind → Text → KnowledgeTerm → Bool
is_term kind name t = same_kind t.kind kind && text_eq t.name name

module _ (hash_link : Link → Text) (find : Text → Option Row) (terms : List KnowledgeTerm)
    (allow : Bool) (previous : List Dependency) (row : Row) (c : Classification) where
  pub relate_memory :
      Link
      → Option Row
      → List Dependency × Projection
      → Result KnowledgeError (List Dependency × Projection)
  relate_memory l target (ds, p) =
      let dependency = dependency_of (hash_link l) target previous in
      do
        require (is_some target || is_some dependency || allow) relationship_target_unreadable
        ok (
          plus dependency ds,
          if is_outdated target dependency then p else add_link row c l dependency p,
        )

  pub relate :
      Link → List Dependency × Projection → Result KnowledgeError (List Dependency × Projection)
  unfolding relate_memory
  relate l (ds, p) = elim l.target_kind [
    | TargetKind.memory ↦ relate_memory l (find l.target_name) (ds, p)
    | TargetKind.of_term kind ↦ do
      require (any (is_term kind l.target_name) terms) relationship_target_unresolved
      ok (ds, add_link row c l none p)
    | TargetKind.entity ↦ do
      require (includes l.target_name (listed c.entities)) relationship_target_unresolved
      ok (ds, add_link row c l none p)
  ]

  pub relate_all :
      List Link
      → List Dependency × Projection
      → Result KnowledgeError (List Dependency × Projection)
  unfolding relate
  relate_all [] acc = ok acc
  relate_all (l ∷ ls) acc = relate l acc >>= λ next. relate_all ls next

-- The link to the primary topic.
abbrev pub topic_link : Classification → Link
topic_link c = record {
  relation = about;
  target_kind = TargetKind.of_term topic;
  target_name = c.primary_topic;
  status = classified;
  source_references = map KnowledgeSource.reference c.sources;
}

-- The link from a memory to one of its sources.
abbrev source_link : Row → Text → Relationship
source_link row source_id = record {
  memory_id = row.id;
  memory_revision = row.revision;
  predicate = supported_by;
  object = record { kind = codes "source"; within = none; name = source_id };
  status = source_reported;
  source_references = source_id ∷ [];
  dependency = none;
}

pub link_sources : Row → List Text → Projection → Projection
link_sources row [] p = p
link_sources row (s ∷ ss) p =
    let q = add_entity (Relationship.object (source_link row s)) p in
    link_sources row ss (record q { relationships = source_link row s ∷ q.relationships })

-- The update of the row at the end.
abbrev pub stamped : List Text → List Dependency → Row → Row
stamped source_ids dependencies row = record row {
  source_id = or_else (head? source_ids) row.source_id;
  dependencies = dependencies;
}

-- The new projection, and the row with what it depends on and its first source.
unfoldable pub persist_claim :
    Hashes
    → (Text → Option Row)
    → List KnowledgeTerm
    → Bool
    → List Dependency
    → Row
    → Classification
    → Projection
    → Result KnowledgeError (Projection × Row)
unfolding upsert_sources put_claim delete_links relate relate_all link_sources
persist_claim hashes find terms allow previous row c p =
    let source_ids = map hashes.of_source c.sources in
    let subject = entity_of c TargetKind.memory row.id in
    do
      q ←
          put_claim hashes.of_classification row c source_ids
            (add_entity subject (upsert_sources hashes.of_source c.sources p))
      (ds, r) ←
          relate hashes.of_link find terms allow previous row c (topic_link c)
            ([], delete_links row q)
      (es, t) ←
          relate_all hashes.of_link find terms allow previous row c (listed c.relationships)
            (ds, link_sources row source_ids r)
      ok (t, stamped source_ids es row)
