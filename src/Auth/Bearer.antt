-- ===== src/Auth/Bearer.antt =====
-- What an Authorization header carries: the text after the scheme, and the two parts of a token.
use persistent_memory_stack.Prelude.{
  ==_iff, Bool, Bool-cases, Option, Option-cases, [], any, ap, arith, false, inl, inr, none,
  or_false, refl, some, ℕ, ◌++◌, ◌==◌, ◌↔◌, ◌∙◌, ◌∷◌, ◌≡◌, ◌≢◌,
}
use persistent_memory_stack.Prelude.Text.{Text, codes, is_blank, is_space}
use persistent_memory_stack.Auth.{
  after_word, at_dot, both_parts, captured, extract_bearer, is_line_end, lower, parse_token,
  skip_spaces, trim_end,
}

-- A random part of a token, as base64url prints one: not empty, without dots and white space.
pub record IsPart (s : Text) : Type 0 where
  pub nonempty : s ≢ []
  pub dotless : any (λ c. c == 46) s ≡ false
  pub spaceless : any is_space s ≡ false

at_dot-joined :
    (front back : Text)
    → any (λ c. c == 46) front ≡ false
    → at_dot (front ++ 46 ∷ back) ≡ some (front, back)
unfolding at_dot
at_dot-joined [] back h = refl
at_dot-joined (c ∷ front) back h =
    let (first, rest) = or_false (c == 46) (any (λ d. d == 46) front) h in
    rw (first, at_dot-joined front back rest) refl

at_dot-parts : (t front back : Text) → at_dot t ≡ some (front, back) → t ≡ front ++ 46 ∷ back
unfolding at_dot
at_dot-parts [] front back h = absurd (cc h)
at_dot-parts (c ∷ s) front back h = elim (Bool-cases (c == 46)) [
  | inl e ↦
      let parts : some ([], s) ≡ some (front, back) = (rw e at h) in
      let empty : [] ≡ front = cc parts in
      let same : s ≡ back = cc parts in rw (← empty, ← same, (==_iff c 46).0 e) refl
  | inr e ↦ elim (Option-cases (at_dot s)) [
    | inl f ↦ absurd (cc (rw (e, f) at h))
    | inr ((before, after), f) ↦
        let parts : some (c ∷ before, after) ≡ some (front, back) = (rw (e, f) at h) in
        let longer : c ∷ before ≡ front = cc parts in
        let same : after ≡ back = cc parts in
        rw (← longer, ← same) (ap (λ r. c ∷ r) (at_dot-parts s before after f))
  ]
]

pub parse_token_iff :
    (o : Option Text) (token_id secret : Text)
    → IsPart token_id
    → IsPart secret
    → (parse_token o ≡ some (token_id, secret)) ↔ (o ≡ some (token_id ++ 46 ∷ secret))
unfolding parse_token
parse_token_iff none token_id secret p q = ((λ h. absurd (cc h)), λ h. absurd (cc h))
parse_token_iff (some raw) token_id secret p q = (
  (λ h. ap some (elim (Option-cases (at_dot raw)) [
    | inl e ↦ absurd (cc (rw (e, parse_token) at h))
    | inr ((front, back), e) ↦
        let (a, b) = whole front back (rw (e, parse_token) at h) in
        at_dot-parts raw token_id secret (e ∙ cc (a, b))
  ])),
  λ h.
      let same : raw ≡ token_id ++ 46 ∷ secret = cc h in
      rw same (
        rw (at_dot-joined token_id secret p.dotless, parse_token)
          (full token_id secret p.nonempty q.nonempty)),
)
  where
    whole :
        (front back : Text)
        → both_parts (front, back) ≡ some (token_id, secret)
        → (front ≡ token_id) × (back ≡ secret)
    whole [] back h = absurd (cc h)
    whole (c ∷ front) [] h = absurd (cc h)
    whole (c ∷ front) (d ∷ back) h = (cc h, cc h)

    full : (a b : Text) → a ≢ [] → b ≢ [] → both_parts (a, b) ≡ some (a, b)
    full [] b m n = absurd (m refl)
    full (c ∷ a) [] m n = absurd (n refl)
    full (c ∷ a) (d ∷ b) m n = refl

any-append :
    (test : ℕ → Bool) (s t : Text)
    → any test s ≡ false
    → any test t ≡ false
    → any test (s ++ t) ≡ false
any-append test [] t h k = k
any-append test (c ∷ s) t h k =
    let (first, rest) = or_false (test c) (any test s) h in
    rw (first, any-append test s t rest k) refl

line_end_blank : (c : ℕ) → is_space c ≡ false → is_line_end c ≡ false
line_end_blank c h = ground arith

no_line_end : (s : Text) → any is_space s ≡ false → any is_line_end s ≡ false
no_line_end [] h = refl
no_line_end (c ∷ s) h =
    let (first, rest) = or_false (is_space c) (any is_space s) h in
    rw (line_end_blank c first, no_line_end s rest) refl

trim_end-same : (s : Text) → any is_space s ≡ false → trim_end s ≡ s
unfolding trim_end is_blank
trim_end-same [] h = refl
trim_end-same (c ∷ s) h =
    let (first, rest) = or_false (is_space c) (any is_space s) h in
    rw (first, trim_end-same s rest) refl

captured_word :
    (c : ℕ) (s : Text) → any is_space (c ∷ s) ≡ false → captured (32 ∷ []) (c ∷ s) ≡ some (c ∷ s)
unfolding captured
captured_word c s h = rw (no_line_end (c ∷ s) h, trim_end-same (c ∷ s) h) refl

-- The header that a client sends with a word.
pub extract_bearer_word :
    (s : Text)
    → s ≢ []
    → any is_space s ≡ false
    → extract_bearer (some (codes "Bearer " ++ s)) ≡ some s
unfolding extract_bearer after_word lower skip_spaces
extract_bearer_word [] n h = absurd (n refl)
extract_bearer_word (c ∷ s) n h =
    let (first, rest) = or_false (is_space c) (any is_space s) h in rw first (captured_word c s h)

pub IsPart-spaceless :
    (token_id secret : Text)
    → IsPart token_id
    → IsPart secret
    → any is_space (token_id ++ 46 ∷ secret) ≡ false
IsPart-spaceless token_id secret p q =
    any-append is_space token_id (46 ∷ secret) p.spaceless q.spaceless
