-- ===== src/Knowledge/Catalog/Resolved.antt =====
-- What a resolution of a classification gives.
use persistent_memory_stack.Prelude.{
  List, Option, [], all, ap, none, refl, some, sym, true, ◌∙◌, ◌∷◌, ◌≡◌,
}
use persistent_memory_stack.Prelude.Result.{
  err, ok, ok-injective, on_bind, on_require, require, ◌>>◌,
}
use persistent_memory_stack.Knowledge.{
  Classification, Issue, KnowledgeError, invalid_result, listed, unused_resolution,
}
use persistent_memory_stack.Knowledge.Contract.{classification_issues, is_nil}
use persistent_memory_stack.Knowledge.Contract.Consistent.{IsConsistent, classification_issues_iff}
use persistent_memory_stack.Knowledge.Catalog.{
  KnowledgeResolution, KnowledgeTerm, is_required, mapped_classification, parse_classification,
  required_terms, resolve_classification, resolve_terms,
}

none_there : (xs : List Issue) → is_nil xs ≡ true → xs ≡ []
none_there [] e = refl
none_there (x ∷ xs) e = cc

parse_classification-IsConsistent :
    (read : Classification → Option Classification) (wrap : List Issue → KnowledgeError)
    (c d : Classification)
    → parse_classification read wrap c ≡ ok d
    → IsConsistent d
unfolding parse_classification
parse_classification-IsConsistent read wrap c d h = by_read (read c) h
  where
    by_read :
        (o : Option Classification)
        → (elim o [
          | none ↦ err (wrap [])
          | some d ↦
              require (is_nil (classification_issues d)) (wrap (classification_issues d)) >> ok d
        ])
          ≡ ok d
        → IsConsistent d
    by_read none h = absurd (cc)
    by_read (some k) h = on_require (is_nil (classification_issues k)) _ _ h (λ e g.
        let same = ok-injective g in
        (classification_issues_iff d).0 (ap classification_issues (sym same) ∙ none_there _ e))

pub resolve_classification-IsConsistent :
    (read : Classification → Option Classification) (c d : Classification)
    (resolutions : Option (List KnowledgeResolution)) (terms after : List KnowledgeTerm)
    → resolve_classification read c resolutions terms ≡ ok (after, d)
    → IsConsistent d
unfolding resolve_classification
resolve_classification-IsConsistent read c d resolutions terms after h =
    on_require (all (is_required (required_terms c)) (listed resolutions)) unused_resolution _ h
      (λ _ h.
        on_bind (resolve_terms (listed resolutions) (required_terms c) terms []) _ h
          (λ (made, mapped) _ h.
            on_bind (parse_classification read invalid_result (mapped_classification mapped c)) _ h
              (λ k e h.
                let same : (made, k) ≡ (after, d) = ok-injective h in
                let same_end : k ≡ d = cc in
                parse_classification-IsConsistent read invalid_result
                  (mapped_classification mapped c) d
                  (e ∙ ap (λ (x : Classification). ok x) same_end))))
