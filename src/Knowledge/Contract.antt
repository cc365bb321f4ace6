-- ===== src/Knowledge/Contract.antt =====
-- The `superRefine` of KnowledgeClassification: the issues of a classification, in their order.
pub mod Consistent
use persistent_memory_stack.Prelude.{
  Bool, List, Option, [], false, none, not, some, true, ℕ, ◌&&◌, ◌++◌, ◌+◌, ◌||◌, ◌∷◌,
}
use persistent_memory_stack.Prelude.Text.{Text, text_eq}
use persistent_memory_stack.Knowledge.{
  Applicability, ApplicabilityState, AssertionStatus, Classification, Issue, KnowledgeSource, Link,
  LinkStatus, OriginKind, association_claimed, association_missing, duplicate_topics, general_named,
  includes, listed, origin_unnamed, primary_topic_missing, reason_missing, source_supported,
  unproposed_link, unresolved_fact, unsourced_link,
}

-- `new Set(values).size !== values.length`
abbrev pub repeats : List Text → Bool
repeats [] = false
repeats (t ∷ ts) = includes t ts || repeats ts

abbrev pub issue_if : Bool → Issue → List Issue
issue_if true issue = issue ∷ []
issue_if false issue = []

-- A text that is there and not ''.
abbrev pub is_given : Option Text → Bool
is_given none = false
is_given (some []) = false
is_given (some (_ ∷ _)) = true

abbrev pub is_general : OriginKind → Bool
is_general OriginKind.general = true
is_general (OriginKind.of_term _) = false

abbrev pub is_associated : ApplicabilityState → Bool
is_associated ApplicabilityState.associated = true
is_associated _ = false

abbrev pub is_unresolved : ApplicabilityState → Bool
is_unresolved ApplicabilityState.unresolved = true
is_unresolved _ = false

abbrev pub is_fact : AssertionStatus → Bool
is_fact AssertionStatus.fact = true
is_fact _ = false

abbrev pub is_proposal : AssertionStatus → Bool
is_proposal AssertionStatus.proposal = true
is_proposal _ = false

abbrev pub is_supported : LinkStatus → Bool
is_supported source_supported = true
is_supported _ = false

abbrev pub is_nil {ℓ} : {A : Type ℓ} → List A → Bool
is_nil [] = true
is_nil (_ ∷ _) = false

abbrev pub associations : Applicability → List Text
associations a = listed a.projects ++ listed a.systems

-- `references.every(reference => sources.some(source => source.reference === reference))`
abbrev pub has_source : List KnowledgeSource → Text → Bool
has_source [] t = false
has_source (s ∷ ss) t = text_eq s.reference t || has_source ss t

abbrev pub all_sourced : List KnowledgeSource → List Text → Bool
all_sourced sources [] = true
all_sourced sources (t ∷ ts) = has_source sources t && all_sourced sources ts

pub link_issues : AssertionStatus → List KnowledgeSource → ℕ → List Link → List Issue
link_issues status sources n [] = []
link_issues status sources n (l ∷ ls) =
    issue_if (not (all_sourced sources l.source_references)) (unsourced_link n)
    ++ (issue_if (is_proposal status && is_supported l.status) (unproposed_link n)
        ++ link_issues status sources (n + 1) ls)

unfoldable pub classification_issues : Classification → List Issue
unfolding link_issues
classification_issues c =
    let o = c.origin in
    let a = c.applicability in
    issue_if (not (includes c.primary_topic c.topic_tags)) primary_topic_missing
    ++ (issue_if (repeats c.topic_tags) duplicate_topics
        ++ (issue_if (is_general o.kind && is_given o.name) general_named
            ++ (issue_if (not (is_general o.kind) && not (is_given o.name)) origin_unnamed
                ++ (issue_if (is_associated a.state && is_nil (associations a)) association_missing
                    ++ (issue_if (not (is_associated a.state) && not (is_nil (associations a)))
                          association_claimed
                        ++ (issue_if (is_unresolved a.state && not (is_given a.reason))
                              reason_missing
                            ++ (issue_if (is_unresolved a.state && is_fact c.assertion_status)
                                  unresolved_fact
                                ++ link_issues c.assertion_status c.sources 0
                                    (listed c.relationships))))))))
