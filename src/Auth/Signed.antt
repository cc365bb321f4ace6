-- ===== src/Auth/Signed.antt =====
-- Which sessions the API accepts.
use Prim.Native.String.{String}
use persistent_memory_stack.Prelude.Text.{Text, codes, text_eq, text_eq_refl}
use persistent_memory_stack.Prelude.{
  Bool, Bool-cases, List, Option, [], arith, false, find?, if◌then◌else◌, inl, inr, leb, ltb, none,
  refl, some, true, ℕ, ◌++◌, ◌+◌, ◌/◌, ◌<◌, ◌↔◌, ◌∙◌, ◌∷◌, ◌≡◌, ◌≤◌,
}
use persistent_memory_stack.Upgrade.Version.{split_dots}
use persistent_memory_stack.Upgrade.Version.Printing.{HasNoDot, split_dots_dot, split_dots_end}
use persistent_memory_stack.Auth.{
  AppUser, Crypto, Payload, is_dashboard_session_token, is_empty, is_outdated, is_user,
  issue_dashboard_session, session_parts, session_user, starts_with, verify_dashboard_session,
}

-- What base64url and HMAC document: neither is empty or has a dot, and a payload is read back.
pub record IsCodec (c : Crypto) (p : Payload) : Type 0 where
  pub reads : c.decode (c.encode p) ≡ some p
  pub encode_full : is_empty (c.encode p) ≡ false
  pub encode_plain : HasNoDot (c.encode p)
  pub sign_full : is_empty (c.sign (c.encode p)) ≡ false
  pub sign_plain : HasNoDot (c.sign (c.encode p))

abbrev pub payload_of : String → ℕ → ℕ → Payload
payload_of user_id now ttl = record { sub = user_id; iat = now / 1000; exp = now / 1000 + ttl }

module _ (c : Crypto) (now later : ℕ) (user_id : String) (ttl : ℕ)
    (codec : IsCodec c (payload_of user_id now ttl)) where
  abbrev encoded : Text
  encoded = c.encode (payload_of user_id now ttl)

  session_splits :
      split_dots (codes "pm_session." ++ (encoded ++ 46 ∷ c.sign encoded))
      ≡ (codes "pm_session", encoded ∷ c.sign encoded ∷ [])
  session_splits =
      split_dots_dot (codes "pm_session") (encoded ++ 46 ∷ c.sign encoded) (ground arith)
      ∙ rw
          (
            split_dots_dot encoded (c.sign encoded) codec.encode_plain,
            split_dots_end (c.sign encoded) codec.sign_plain,
          )
          refl

  session_read :
      session_parts c later (codes "pm_session", encoded ∷ c.sign encoded ∷ [])
      ≡ some (payload_of user_id now ttl)
  unfolding session_parts text_eq
  session_read = rw (codec.encode_full, codec.sign_full, text_eq_refl (c.sign encoded)) codec.reads

  verify-issue :
      (users : List AppUser)
      → verify_dashboard_session c later users (issue_dashboard_session c now user_id ttl)
        ≡ session_user c later users (some (payload_of user_id now ttl))
  unfolding verify_dashboard_session issue_dashboard_session is_dashboard_session_token starts_with
  verify-issue users = rw session_splits (rw session_read refl)

  -- The user of a session, if it is in time.
  abbrev judged : Bool → Option AppUser → Option AppUser
  judged late found = if late then none else elim found [
    | none ↦ none
    | some w ↦ if is_outdated c later (now / 1000) w.password_changed_at then none else some w
  ]

  judged_iff :
      (late : Bool) (found : Option AppUser) (u : AppUser)
      → (judged late found ≡ some u) ↔ (
          (late ≡ false)
          × (found ≡ some u)
          × (is_outdated c later (now / 1000) u.password_changed_at ≡ false))
  judged_iff true found u = ((λ h. absurd (cc h)), λ (e, _, _). absurd (cc e))
  judged_iff false none u = ((λ h. absurd (cc h)), λ (_, e, _). absurd (cc e))
  judged_iff false (some w) u =
      elim (Bool-cases (is_outdated c later (now / 1000) w.password_changed_at)) [
        | inl o ↦ (
          (λ h. absurd (cc (rw o at h))),
          λ (_, e, k). let same : w ≡ u = cc e in absurd (cc (o, rw (← same) at k)),
        )
        | inr o ↦ (
          (λ h.
              let same : some w ≡ some u = rw o at h in
              let is_same : w ≡ u = cc same in (refl, same, rw is_same at o)),
          λ (_, e, k). rw o e,
        )
      ]

  not_late : (a b : ℕ) → (leb a b ≡ false) ↔ (b < a)
  not_late a b = ground arith

  is_outdated_iff :
      (iat : ℕ) (changed : Option ℕ)
      → (is_outdated c later iat changed ≡ false) ↔ ((t : ℕ) → changed ≡ some t → t / 1000 ≤ iat)
  unfolding is_outdated
  is_outdated_iff iat none = ((λ h t e. absurd (cc e)), λ h. refl)
  is_outdated_iff iat (some at_ms) = (
    (λ h t e. let same : at_ms ≡ t = cc e in rw (← same) ((not_before iat (at_ms / 1000)).0 h)),
    λ h. (not_before iat (at_ms / 1000)).1 (h at_ms refl),
  )
    where
      not_before : (a b : ℕ) → (ltb a b ≡ false) ↔ (b ≤ a)
      not_before a b = ground arith

  -- A session that was issued to a user is accepted, as this user's, exactly until its time to live
  -- is over, while the user is there and has not changed the password since the second in which it began. Base64url and
  -- HMAC print no dot and nothing empty, and a payload is read back.
  pub verify_dashboard_session_iff :
      (users : List AppUser) (u : AppUser)
      → (verify_dashboard_session c later users (issue_dashboard_session c now user_id ttl)
          ≡ some u)
        ↔ ((later / 1000 < now / 1000 + ttl)
            × (find? (is_user user_id) users ≡ some u)
            × ((t : ℕ) → u.password_changed_at ≡ some t → t / 1000 ≤ now / 1000))
  unfolding session_user
  verify_dashboard_session_iff users u =
      let both =
        judged_iff (leb (now / 1000 + ttl) (later / 1000)) (find? (is_user user_id) users) u in
      let time = not_late (now / 1000 + ttl) (later / 1000) in
      let kept = is_outdated_iff (now / 1000) u.password_changed_at in
      rw (verify-issue users) (
        (λ h. let (e, f, k) = both.0 h in (time.0 e, f, kept.0 k)),
        λ (e, f, k). both.1 (time.1 e, f, kept.1 k),
      )
