-- ===== src/Auth/Tokens.antt =====
-- Which tokens the API accepts for a user.
use text.Mathlib.TextEquality.{eq_iff}
use Prim.Native.String.{String}
use persistent_memory_stack.Prelude.Text.{Text, codes, text_eq_iff}
use mathlib.Core.List.{append_cancel_right}
use persistent_memory_stack.Prelude.{
  Bool-cases, List, Option, Option-cases, [], any, ap, arith, false, find?, inl, inr, leb, map,
  none, on_if, or_false, refl, some, sym, true, ℕ, ◌++◌, ◌<◌, ◌||◌, ◌↔◌, ◌∙◌, ◌∷◌, ◌≡◌, ◌≢◌,
}
use persistent_memory_stack.Auth.Stamped.{IsStamped, change, find?-All, found, map-IsStamped}
use persistent_memory_stack.Auth.Bearer.{
  IsPart, IsPart-spaceless, extract_bearer_word, parse_token_iff,
}
use persistent_memory_stack.Auth.{
  AppUser, Crypto, check_hash, extract_bearer, find_token, is_empty, is_past, is_taken, is_true,
  is_user, issue_token, parse_token, same_handle, update_user, verify_token,
}

-- What argon2id documents: a hash is not empty, and verifies exactly what it was made of.
pub record IsHash (c : Crypto) : Type 0 where
  pub nonempty : (salt s : Text) → is_empty (c.hash salt s) ≡ false
  pub verifies : (salt s t : Text) → (is_true (c.verify (c.hash salt s) t) ≡ true) ↔ (s ≡ t)

append_pepper : (s t pepper : Text) → s ++ pepper ≡ t ++ pepper → s ≡ t
append_pepper s t pepper h = append_cancel_right s t pepper h

module _ (c : Crypto) (hashes : IsHash c) (now : ℕ) where
  -- What a check of a token has seen.
  check_hash-ok :
      (w u : AppUser) (s : Text) (stored : Option Text)
      → check_hash c now w s stored ≡ some u
      → (w ≡ u)
        × (is_past now w.token_expires ≡ false)
        × ((h : Text) → stored ≡ some h → is_true (c.verify h (s ++ c.pepper)) ≡ true)
  unfolding check_hash
  check_hash-ok w u s none h = absurd (cc)
  check_hash-ok w u s (some stored) h =
      on_if shown (is_empty stored || is_past now w.token_expires) _ _ (λ _ k. absurd (cc k))
        (λ e.
          on_if shown (is_true (c.verify stored (s ++ c.pepper))) _ _
            (λ v k. (
              cc k,
              (or_false (is_empty stored) _ e).1,
              λ g q. let same : stored ≡ g = cc q in rw (← same) v,
            ))
            (λ _ k. absurd (cc k)))
        h
    where
      shown : Option AppUser → Type 0
      shown result =
          result ≡ some u
          → (w ≡ u)
            × (is_past now w.token_expires ≡ false)
            × ((g : Text) → some stored ≡ some g → is_true (c.verify g (s ++ c.pepper)) ≡ true)

  module _ (user_id : String) (token_id secret salt : Text) (expires : Option ℕ)
      (users updated : List AppUser) (wire : Text) where
    stored : Text
    stored = c.hash salt (secret ++ c.pepper)

    issue_token-parts :
        issue_token c user_id token_id secret salt expires users ≡ some (updated, wire)
        → (any (is_taken user_id token_id) users ≡ false)
          × (any (is_user user_id) users ≡ true)
          × (map (change user_id token_id stored expires) users ≡ updated)
    unfolding issue_token update_user stored
    issue_token-parts h = elim (Bool-cases (any (is_taken user_id token_id) users)) [
      | inl e ↦ absurd (cc (rw (e, issue_token) at h))
      | inr e ↦ elim (Bool-cases (any (is_user user_id) users)) [
        | inl k ↦ (e, k, cc (rw (e, k) at h))
        | inr k ↦ absurd (cc (rw (e, k) at h))
      ]
    ]

    accepts :
        (u : AppUser) (o : Option Text)
        → o ≡ some stored
        → is_past now u.token_expires ≡ false
        → check_hash c now u secret o ≡ some u
    unfolding check_hash stored
    accepts u o h alive = rw h (
        rw (hashes.nonempty salt (secret ++ c.pepper), alive)
          (rw ((hashes.verifies salt (secret ++ c.pepper) (secret ++ c.pepper)).1 refl) refl))

    module _ (parts_ok : any (is_taken user_id token_id) users ≡ false)
        (there : any (is_user user_id) users ≡ true) where
      now_users : List AppUser
      now_users = map (change user_id token_id stored expires) users

      found-verifies :
          (tid s : Text) (w u : AppUser)
          → find? (λ v. same_handle tid (AppUser.token_id v)) now_users ≡ some w
          → check_hash c now w s w.token_hash ≡ some u
          → u.id ≡ user_id
          → (tid ≡ token_id) × (s ≡ secret) × (is_past now expires ≡ false)
      unfolding now_users stored
      found-verifies tid s w u f k same =
          let (marks, handle) =
            find?-All (IsStamped user_id token_id stored expires)
              (λ v. same_handle tid (AppUser.token_id v)) now_users w
              (map-IsStamped user_id token_id stored expires users parts_ok) f in
          let (is_same, alive, verified) = check_hash-ok w u s w.token_hash k in
          let (t, h, e) = marks.given ((eq_iff w.id user_id).1 (rw is_same same)) in
          let tids : tid ≡ token_id = sym ((text_eq_iff token_id tid).0 (rw t at handle)) in
          let secrets : s ≡ secret = sym (
            append_pepper secret s c.pepper (
              (hashes.verifies salt (secret ++ c.pepper) (s ++ c.pepper)).0 (verified stored h))) in
          (tids, secrets, rw e at alive)

      find_token-verifies :
          (parts : Option (Text × Text)) (u : AppUser)
          → find_token c now now_users parts ≡ some u
          → u.id ≡ user_id
          → (parts ≡ some (token_id, secret)) × (is_past now expires ≡ false)
      unfolding find_token
      find_token-verifies none u h same = absurd (cc)
      find_token-verifies (some (tid, s)) u h same =
          elim (Option-cases (find? (λ v. same_handle tid (AppUser.token_id v)) now_users)) [
            | inl e ↦ absurd (cc (rw (e, find_token) at h))
            | inr (w, e) ↦
                let (p, q, alive) = found-verifies tid s w u e (rw (e, find_token) at h) same in
                (rw (p, q) refl, alive)
          ]

      find_token-accepts :
          is_past now expires ≡ false
          → (u : AppUser) × (find_token c now now_users (some (token_id, secret)) ≡ some u)
            × (u.id ≡ user_id)
      unfolding find_token now_users
      find_token-accepts alive =
          let (u, f) = found user_id token_id stored expires users there in
          let (marks, handle) =
            find?-All (IsStamped user_id token_id stored expires)
              (λ v. same_handle token_id (AppUser.token_id v)) now_users u
              (map-IsStamped user_id token_id stored expires users parts_ok) f in
          let own = marks.alone handle in
          let (_, h, e) = marks.given own in
          (
            u,
            rw (f, find_token) (accepts u u.token_hash h (rw e alive)),
            (eq_iff u.id user_id).0 own,
          )

  -- By the two parts that are read of the header.
  issue_token-read :
      (user_id : String) (token_id secret salt : Text) (expires : Option ℕ)
      (users updated : List AppUser) (wire : Text) (header : Option Text)
      → issue_token c user_id token_id secret salt expires users ≡ some (updated, wire)
      → ((u : AppUser) × (verify_token c now updated header ≡ some u) × (u.id ≡ user_id)) ↔ (
          (parse_token (extract_bearer header) ≡ some (token_id, secret))
          × (is_past now expires ≡ false))
  unfolding verify_token now_users
  issue_token-read user_id token_id secret salt expires users updated wire header h =
      let (free, there, same) =
        issue_token-parts user_id token_id secret salt expires users updated wire h in
      let parts = parse_token (extract_bearer header) in
      rw (← same) (
        (λ (u, v, i).
            find_token-verifies user_id token_id secret salt expires users updated wire free there
              parts u v i),
        λ (p, alive). rw p (
            find_token-accepts user_id token_id secret salt expires users updated wire free there
              alive),
      )

  is_past_iff :
      (expires : Option ℕ) → (is_past now expires ≡ false) ↔ ((t : ℕ) → expires ≡ some t → now < t)
  is_past_iff none = ((λ h t e. absurd (cc e)), λ h. refl)
  is_past_iff (some at_ms) = (
    (λ h t e. let same : at_ms ≡ t = cc e in rw (← same) (later h)),
    λ h. let lt = h at_ms refl in ground arith,
  )
    where
      later : leb at_ms now ≡ false → now < at_ms
      later h = ground arith

  issue_token-wire :
      (user_id : String) (token_id secret salt : Text) (expires : Option ℕ)
      (users updated : List AppUser) (wire : Text)
      → issue_token c user_id token_id secret salt expires users ≡ some (updated, wire)
      → wire ≡ token_id ++ 46 ∷ secret
  unfolding issue_token
  issue_token-wire user_id token_id secret salt expires users updated wire h =
      elim (Bool-cases (any (is_taken user_id token_id) users)) [
        | inl e ↦ absurd (cc (rw (e, issue_token) at h))
        | inr e ↦ by_update _ (rw (e, issue_token) at h)
      ]
    where
      by_update :
          (o : Option (List AppUser))
          → ◌≡◌ {A = Option (List AppUser × Text)}
              (elim o [ none ↦ none | some us ↦ some (us, token_id ++ 46 ∷ secret) ])
              (some (updated, wire))
          → wire ≡ token_id ++ 46 ∷ secret
      by_update none k = absurd (cc k)
      by_update (some us) k = cc k

  -- The header is accepted as one of the user.
  abbrev pub Accepts : List AppUser → String → Option Text → Type 0
  Accepts users user_id header =
      (u : AppUser) × (verify_token c now users header ≡ some u) × (u.id ≡ user_id)

  -- A token of two random parts, which base64url prints without dots and white space, was issued to a
  -- user, and the hash is one that verifies what it was made of and nothing else. Then what was sent
  -- is the two parts with a dot between, the header `Bearer ` with it is accepted as the user's
  -- exactly until the token expires, and any header is accepted as the user's by a token exactly
  -- when the text after its scheme is what was sent and the token has not expired: the token before
  -- it is void.
  pub issue_token_iff :
      (user_id : String) (token_id secret salt : Text) (expires : Option ℕ)
      (users updated : List AppUser) (wire : Text)
      → IsPart token_id
      → IsPart secret
      → issue_token c user_id token_id secret salt expires users ≡ some (updated, wire)
      → let alive = (t : ℕ) → expires ≡ some t → now < t in
        (wire ≡ token_id ++ 46 ∷ secret)
        × (Accepts updated user_id (some (codes "Bearer " ++ wire)) ↔ alive)
        × ((header : Option Text)
            → Accepts updated user_id header ↔ ((extract_bearer header ≡ some wire) × alive))
  issue_token_iff user_id token_id secret salt expires users updated wire p q h =
      (same, (λ a. (by_header _ a).1, λ live. (any_header _).1 (bearer, live)), any_header)
    where
      same : wire ≡ token_id ++ 46 ∷ secret
      same = issue_token-wire user_id token_id secret salt expires users updated wire h

      any_header :
          (header : Option Text)
          → Accepts updated user_id header
            ↔ ((extract_bearer header ≡ some wire) × ((t : ℕ) → expires ≡ some t → now < t))
      any_header header =
          let read =
            issue_token-read user_id token_id secret salt expires users updated wire header h in
          let parsed = parse_token_iff (extract_bearer header) token_id secret p q in
          (
            (λ a.
                let (parts, live) = read.0 a in
                (parsed.0 parts ∙ ap some (sym same), (is_past_iff expires).0 live)),
            λ (text, live). read.1 (parsed.1 (text ∙ ap some same), (is_past_iff expires).1 live),
          )

      by_header :
          (header : Option Text)
          → Accepts updated user_id header
          → (extract_bearer header ≡ some wire) × ((t : ℕ) → expires ≡ some t → now < t)
      by_header header = (any_header header).0

      bearer : extract_bearer (some (codes "Bearer " ++ wire)) ≡ some wire
      bearer =
          extract_bearer_word wire (λ e. joined token_id p.nonempty (sym same ∙ e))
            (rw same (IsPart-spaceless token_id secret p q))
        where
          joined : (front : Text) → front ≢ [] → front ++ 46 ∷ secret ≡ [] → ⊥
          joined [] n e = n refl
          joined (x ∷ front) n e = cc e
