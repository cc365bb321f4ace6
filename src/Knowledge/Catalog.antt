-- ===== src/Knowledge/Catalog.antt =====
-- `resolveClassification`: the names of a classification looked up in the owner's catalog of terms.
-- `read` is what zod's field rules make of a classification, which is nothing where they find an
-- issue.
pub mod Resolved
use mathlib.Core.Option
use persistent_memory_stack.Prelude.{
  Bool, List, Option, [], all, any, default_to, find?, map, none, select, some, ◌&&◌, ◌++◌, ◌||◌,
  ◌∷◌,
}
use persistent_memory_stack.Prelude.Assoc.{insert, lookup}
use persistent_memory_stack.Prelude.Result.{Result, err, ok, require, ◌>>=◌, ◌>>◌}
use persistent_memory_stack.Prelude.Text.{Text, text_eq}
use persistent_memory_stack.Knowledge.{
  Classification, Issue, KnowledgeError, Link, Origin, OriginKind, TargetKind, TermKind,
  classification_ambiguous, classification_resolution_required, includes, invalid_result, kind_text,
  listed, project, same_kind, system, topic, unused_resolution,
}
use persistent_memory_stack.Knowledge.Contract.{classification_issues, is_nil}

pub record KnowledgeTerm : Type 0 where
  pub kind : TermKind
  pub name : Text
  pub aliases : List Text
  pub reason : Text

pub record KnowledgeResolution : Type 0 where
  pub kind : TermKind
  pub name : Text
  pub reason : Text

abbrev of_kind : TermKind → List Text → List (TermKind × Text)
of_kind kind [] = []
of_kind kind (t ∷ ts) = (kind, t) ∷ of_kind kind ts

-- After the check of the contract a general origin has no name.
abbrev origin_term : OriginKind → Option Text → List (TermKind × Text)
origin_term (OriginKind.of_term kind) (some (c ∷ cs)) = (kind, c ∷ cs) ∷ []
origin_term _ _ = []

abbrev link_terms : List Link → List (TermKind × Text)
link_terms [] = []
link_terms (l ∷ ls) = elim l.target_kind [
  | TargetKind.of_term kind ↦ (kind, l.target_name) ∷ link_terms ls
  | _ ↦ link_terms ls
]

pub required_terms : Classification → List (TermKind × Text)
required_terms c =
    of_kind topic c.topic_tags
    ++ (of_kind project (listed c.applicability.projects)
        ++ (of_kind system (listed c.applicability.systems)
            ++ (origin_term c.origin.kind c.origin.name ++ link_terms (listed c.relationships))))

abbrev pub is_for : TermKind → Text → KnowledgeResolution → Bool
is_for kind name r = same_kind r.kind kind && text_eq r.name name

abbrev pub is_required : List (TermKind × Text) → KnowledgeResolution → Bool
is_required required r = any (λ (kind, name). is_for kind name r) required

-- A term of the catalog that has the name, or has it as an alias.
abbrev pub is_match : TermKind → Text → KnowledgeTerm → Bool
is_match kind name t = same_kind t.kind kind && (text_eq t.name name || includes name t.aliases)

-- `${kind}:${name}`
abbrev term_key : TermKind → Text → Text
term_key kind name = kind_text kind ++ b':' ∷ name

-- No two terms of a kind share a name, and a term is made only where none has it.
abbrev new_term : TermKind → Text → KnowledgeResolution → KnowledgeTerm
new_term kind name r = record { kind = kind; name = name; aliases = []; reason = r.reason }

abbrev Mapped : Type 0
Mapped = List (Text × Text)

pub resolve_terms :
    List KnowledgeResolution
    → List (TermKind × Text)
    → List KnowledgeTerm
    → Mapped
    → Result KnowledgeError (List KnowledgeTerm × Mapped)
resolve_terms rs [] terms mapped = ok (terms, mapped)
resolve_terms rs ((kind, name) ∷ required) terms mapped = elim (select (is_match kind name) terms) [
  | [] ↦ elim (find? (is_for kind name) rs) [
    | none ↦ err (classification_resolution_required kind name)
    | some r ↦
        resolve_terms rs required (terms ++ new_term kind name r ∷ [])
          (insert (term_key kind name) name mapped)
  ]
  | t ∷ [] ↦ resolve_terms rs required terms (insert (term_key kind name) t.name mapped)
  | _ ∷ (_ ∷ _) ↦ err (classification_ambiguous kind name)
]

abbrev mapped_name : Mapped → TermKind → Text → Text
mapped_name mapped kind name = default_to name (lookup (term_key kind name) mapped)

abbrev mapped_names : Mapped → TermKind → List Text → List Text
mapped_names mapped kind = map (mapped_name mapped kind)

abbrev mapped_origin : Mapped → Origin → Origin
mapped_origin mapped o = elim o.kind [
  | OriginKind.general ↦ o
  | OriginKind.of_term kind ↦ record o { name = Option.map (mapped_name mapped kind) o.name }
]

pub mapped_classification : Mapped → Classification → Classification
mapped_classification mapped c = record c {
  primary_topic = mapped_name mapped topic c.primary_topic;
  topic_tags = mapped_names mapped topic c.topic_tags;
  origin = mapped_origin mapped c.origin;
  applicability = record c.applicability {
    projects = Option.map (mapped_names mapped project) c.applicability.projects;
    systems = Option.map (mapped_names mapped system) c.applicability.systems;
  };
}

-- `KnowledgeClassification.parse`, and `safeParse` with what is thrown on an issue.
pub parse_classification :
    (Classification → Option Classification)
    → (List Issue → KnowledgeError)
    → Classification
    → Result KnowledgeError Classification
parse_classification read wrap c = elim (read c) [
  | none ↦ err (wrap [])
  | some d ↦ do require (is_nil (classification_issues d)) (wrap (classification_issues d)); ok d
]

unfoldable pub resolve_classification :
    (Classification → Option Classification)
    → Classification
    → Option (List KnowledgeResolution)
    → List KnowledgeTerm
    → Result KnowledgeError (List KnowledgeTerm × Classification)
unfolding required_terms resolve_terms mapped_classification parse_classification
resolve_classification read c resolutions terms = do
  require (all (is_required (required_terms c)) (listed resolutions)) unused_resolution
  (after, mapped) ← resolve_terms (listed resolutions) (required_terms c) terms []
  d ← parse_classification read invalid_result (mapped_classification mapped c)
  ok (after, d)
