-- ===== src/Knowledge/Contract/Consistent.antt =====
-- What it means that a classification has no issue.
use persistent_memory_stack.Prelude.{
  All, Bool, Bool-cases, Elem, List, [], ap, arith, false, inl, inr, map, not, refl, true, ℕ, ◌&&◌,
  ◌++◌, ◌+◌, ◌↔◌, ◌∷◌, ◌≡◌, ◌≢◌,
}
use persistent_memory_stack.Prelude.Text.{Text, text_eq_iff}
use persistent_memory_stack.Knowledge.{
  ApplicabilityState, AssertionStatus, Classification, Issue, KnowledgeSource, Link, LinkStatus,
  OriginKind, includes, listed, source_supported,
}
use persistent_memory_stack.Knowledge.Contract.{
  all_sourced, associations, classification_issues, has_source, is_associated, is_fact, is_general,
  is_given, is_nil, is_proposal, is_supported, is_unresolved, issue_if, link_issues, repeats,
}

abbrev pub IsRepetitionFree : List Text → Type 0
IsRepetitionFree [] = Unit
IsRepetitionFree (t ∷ ts) = (¬ Elem t ts) × IsRepetitionFree ts

-- Each reference of a link is that of a source, and a proposal claims no support.
pub record IsBacked (c : Classification) (l : Link) : Type 0 where
  pub sourced : All (λ t. Elem t (map KnowledgeSource.reference c.sources)) l.source_references
  pub modest : c.assertion_status ≡ AssertionStatus.proposal → l.status ≢ source_supported

pub record IsConsistent (c : Classification) : Type 0 where
  pub tagged : Elem c.primary_topic c.topic_tags
  pub distinct : IsRepetitionFree c.topic_tags
  pub named : (c.origin.kind ≡ OriginKind.general) ↔ (is_given c.origin.name ≡ false)
  pub claimed :
      (c.applicability.state ≡ ApplicabilityState.associated) ↔ (associations c.applicability ≢ [])
  pub explained :
      c.applicability.state ≡ ApplicabilityState.unresolved → is_given c.applicability.reason ≡ true
  pub unsettled :
      c.applicability.state ≡ ApplicabilityState.unresolved
      → c.assertion_status ≢ AssertionStatus.fact
  pub backed : All (IsBacked c) (listed c.relationships)

pub includes_iff : (t : Text) (ts : List Text) → (includes t ts ≡ true) ↔ Elem t ts
includes_iff t [] = ground arith
includes_iff t (u ∷ us) = ground (arith, text_eq_iff u t, includes_iff t us)

repeats_iff : (ts : List Text) → (repeats ts ≡ false) ↔ IsRepetitionFree ts
repeats_iff [] = ground arith
repeats_iff (t ∷ ts) = elim (Bool-cases (includes t ts)) [
  | inl e ↦ rw e ((λ h. absurd (cc)), λ (n, h). absurd (n ((includes_iff t ts).0 e)))
  | inr e ↦ rw e (
    (λ h. ((λ q. cc (e, (includes_iff t ts).1 q)), (repeats_iff ts).0 h)),
    λ (_, h). (repeats_iff ts).1 h,
  )
]

has_source_iff :
    (ss : List KnowledgeSource) (t : Text)
    → (has_source ss t ≡ true) ↔ Elem t (map KnowledgeSource.reference ss)
has_source_iff [] t = ground arith
has_source_iff (s ∷ ss) t = ground (arith, text_eq_iff s.reference t, has_source_iff ss t)

all_sourced_iff :
    (ss : List KnowledgeSource) (ts : List Text)
    → (all_sourced ss ts ≡ true) ↔ All (λ t. Elem t (map KnowledgeSource.reference ss)) ts
all_sourced_iff ss [] = ground arith
all_sourced_iff ss (t ∷ ts) = ground (arith, has_source_iff ss t, all_sourced_iff ss ts)

none_iff :
    (b : Bool) (issue : Issue) (rest : List Issue)
    → ((issue_if b issue ++ rest) ≡ []) ↔ ((b ≡ false) × (rest ≡ []))
none_iff true issue rest = ((λ h. absurd (cc)), λ (e, _). absurd (cc))
none_iff false issue rest = ((λ h. (refl, h)), λ (_, h). h)

modest_iff :
    (a : AssertionStatus) (l : LinkStatus)
    → ((is_proposal a && is_supported l) ≡ false)
      ↔ (a ≡ AssertionStatus.proposal → l ≢ source_supported)
modest_iff a l = ground arith

named_iff :
    (k : OriginKind) (given : Bool)
    → (((is_general k && given) ≡ false) × ((not (is_general k) && not given) ≡ false))
      ↔ ((k ≡ OriginKind.general) ↔ (given ≡ false))
named_iff k given = ground arith

claimed_iff :
    (a : ApplicabilityState) (xs : List Text)
    → (((is_associated a && is_nil xs) ≡ false)
        × ((not (is_associated a) && not (is_nil xs)) ≡ false))
      ↔ ((a ≡ ApplicabilityState.associated) ↔ (xs ≢ []))
claimed_iff a xs = ground arith

explained_iff :
    (a : ApplicabilityState) (given : Bool)
    → ((is_unresolved a && not given) ≡ false) ↔ (a ≡ ApplicabilityState.unresolved → given ≡ true)
explained_iff a given = ground arith

unsettled_iff :
    (a : ApplicabilityState) (s : AssertionStatus)
    → ((is_unresolved a && is_fact s) ≡ false)
      ↔ (a ≡ ApplicabilityState.unresolved → s ≢ AssertionStatus.fact)
unsettled_iff a s = ground arith

opposite_false : (b : Bool) → not b ≡ false → b ≡ true
opposite_false true e = refl
opposite_false false e = cc

link_issues_iff :
    (c : Classification) (n : ℕ) (ls : List Link)
    → (link_issues c.assertion_status c.sources n ls ≡ []) ↔ All (IsBacked c) ls
unfolding link_issues
link_issues_iff c n [] = ((λ _. tt), λ _. refl)
link_issues_iff c n (l ∷ ls) =
    let sourced = all_sourced_iff c.sources l.source_references in
    let modest = modest_iff c.assertion_status l.status in
    let rest = link_issues_iff c (n + 1) ls in
    (
      λ h.
          let (a, h) = (none_iff _ _ _).0 h in
          let (b, h) = (none_iff _ _ _).0 h in
          (record { sourced = sourced.0 (opposite_false _ a); modest = modest.0 b }, rest.0 h),
      λ (k, h).
          (none_iff _ _ _).1
            (ap not (sourced.1 k.sourced), (none_iff _ _ _).1 (modest.1 k.modest, rest.1 h)),
    )

-- A classification has no issue exactly when its primary topic is among its tags, no tag occurs
-- twice, the origin has a name unless it is general, it is associated exactly when a project or a
-- system is named, what is unresolved gives a reason and is no fact, each reference of a link is
-- that of a source of the record, and a proposal has no link that is called supported.
pub classification_issues_iff :
    (c : Classification) → (classification_issues c ≡ []) ↔ IsConsistent c
unfolding classification_issues
classification_issues_iff c =
    let a = c.applicability in
    let tagged = includes_iff c.primary_topic c.topic_tags in
    let distinct = repeats_iff c.topic_tags in
    let named = named_iff c.origin.kind (is_given c.origin.name) in
    let claimed = claimed_iff a.state (associations a) in
    let explained = explained_iff a.state (is_given a.reason) in
    let unsettled = unsettled_iff a.state c.assertion_status in
    let links = link_issues_iff c 0 (listed c.relationships) in
    (
      λ h.
          let (e0, h) = (none_iff _ _ _).0 h in
          let (e1, h) = (none_iff _ _ _).0 h in
          let (e2, h) = (none_iff _ _ _).0 h in
          let (e3, h) = (none_iff _ _ _).0 h in
          let (e4, h) = (none_iff _ _ _).0 h in
          let (e5, h) = (none_iff _ _ _).0 h in
          let (e6, h) = (none_iff _ _ _).0 h in
          let (e7, h) = (none_iff _ _ _).0 h in
          record {
            tagged = tagged.0 (opposite_false _ e0);
            distinct = distinct.0 e1;
            named = named.0 (e2, e3);
            claimed = claimed.0 (e4, e5);
            explained = explained.0 e6;
            unsettled = unsettled.0 e7;
            backed = links.0 h;
          },
      λ k.
          let (e2, e3) = named.1 k.named in
          let (e4, e5) = claimed.1 k.claimed in
          (none_iff _ _ _).1 (
            ap not (tagged.1 k.tagged),
            (none_iff _ _ _).1 (
              distinct.1 k.distinct,
              (none_iff _ _ _).1 (
                e2,
                (none_iff _ _ _).1 (
                  e3,
                  (none_iff _ _ _).1 (
                    e4,
                    (none_iff _ _ _).1 (
                      e5,
                      (none_iff _ _ _).1 (
                        explained.1 k.explained,
                        (none_iff _ _ _).1 (unsettled.1 k.unsettled, links.1 k.backed),
                      ),
                    ),
                  ),
                ),
              ),
            ),
          ),
    )
