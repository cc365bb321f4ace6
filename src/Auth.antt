-- ===== src/Auth.antt =====
-- The credentials of apps/api/src/auth/token-service.ts, dashboard-session.ts and authenticate.ts:
-- a personal token, of which the table of users keeps a hash, and a signed session. The hash
-- (argon2id), the signature (HMAC) and the encoding of a session's payload are parameters, and so
-- are the random parts of a token; times are in milliseconds, but in seconds inside a session.
pub mod Tokens
pub mod Bearer
pub mod Stamped
pub mod Owner
pub mod Signed
use text.Mathlib.Text.{◌==◌ as str_eq}
use Prim.Native.String.{String}
use persistent_memory_stack.Prelude.Result.{Result, err, ok}
use persistent_memory_stack.Prelude.Text.{Text, codes, is_blank, is_space, text_eq}
use persistent_memory_stack.Prelude.{
  Bool, List, Option, [], any, false, find?, if◌then◌else◌, is_some, leb, ltb, map, none, not, some,
  true, ℕ, ◌&&◌, ◌++◌, ◌+◌, ◌/◌, ◌==◌, ◌||◌, ◌∷◌,
}
use persistent_memory_stack.Upgrade.Version.{split_dots}
use persistent_memory_stack.Access.Guards.{AdminLevel, admin, same_text, superuser}
use persistent_memory_stack.Access.Tenant.{TenantCtx}

-- What a row of app_user holds that matters here.
pub record AppUser : Type 0 where
  pub id : String
  pub team_id : Option String
  pub admin_level : AdminLevel
  pub token_id : Option Text
  pub token_hash : Option Text
  pub token_expires : Option ℕ
  pub password_changed_at : Option ℕ

pub record Payload : Type 0 where
  pub sub : String
  pub iat : ℕ
  pub exp : ℕ

-- `hash` takes the salt first; `verify` is `none` where the library throws. `encode` prints a payload
-- as JSON in base64url and `decode` reads one, where it has the form of one.
pub record Crypto : Type 0 where
  pub pepper : Text
  pub hash : Text → Text → Text
  pub verify : Text → Text → Option Bool
  pub sign : Text → Text
  pub encode : Payload → Text
  pub decode : Text → Option Payload

abbrev pub same_handle : Text → Option Text → Bool
same_handle handle none = false
same_handle handle (some t) = text_eq t handle

abbrev pub is_user : String → AppUser → Bool
is_user user_id u = str_eq u.id user_id

abbrev pub stamp : Text → Text → Option ℕ → AppUser → AppUser
stamp token_id token_hash expires u = record u {
  token_id = some token_id;
  token_hash = some token_hash;
  token_expires = expires;
}

abbrev pub clear : AppUser → AppUser
clear u = record u { token_id = none; token_hash = none; token_expires = none }

-- `appUser.update({ where: { id } })`, which throws where there is no such user.
unfoldable pub update_user : String → (AppUser → AppUser) → List AppUser → Option (List AppUser)
update_user user_id change users =
    if any (is_user user_id) users
    then some (map (λ u. if is_user user_id u then change u else u) users)
    else none

-- Another user has the handle, which the column does not allow twice.
abbrev pub is_taken : String → Text → AppUser → Bool
is_taken user_id token_id u = not (is_user user_id u) && same_handle token_id u.token_id

-- `issueToken` with its random parts; the token that is sent is the handle, a dot and the secret.
unfoldable pub issue_token :
    Crypto → String → Text → Text → Text → Option ℕ → List AppUser → Option (List AppUser × Text)
unfolding update_user
issue_token c user_id token_id secret salt expires users =
    if any (is_taken user_id token_id) users
    then none
    else elim (update_user user_id (stamp token_id (c.hash salt (secret ++ c.pepper)) expires)
        users) [ none ↦ none | some updated ↦ some (updated, token_id ++ 46 ∷ secret) ]

unfoldable pub revoke_token : String → List AppUser → Option (List AppUser)
unfolding update_user
revoke_token user_id users = update_user user_id clear users

-- The text before and after the first dot.
unfoldable pub at_dot : Text → Option (Text × Text)
at_dot [] = none
at_dot (c ∷ s) =
    let rest = at_dot s in
    if c == 46
    then some ([], s)
    else elim rest [ none ↦ none | some (front, back) ↦ some (c ∷ front, back) ]

abbrev both_parts : Text × Text → Option (Text × Text)
both_parts ([], secret) = none
both_parts (c ∷ token_id, []) = none
both_parts (c ∷ token_id, d ∷ secret) = some (c ∷ token_id, d ∷ secret)

unfoldable pub parse_token : Option Text → Option (Text × Text)
unfolding at_dot
parse_token none = none
parse_token (some raw) = elim (at_dot raw) [ none ↦ none | some parts ↦ both_parts parts ]

-- `/^Bearer\s+(.+)$/i`, trimmed. White space at the end may be taken for what `.+` matches.
abbrev is_line_end : ℕ → Bool
is_line_end c = c == 10 || c == 13 || c == 0x2028 || c == 0x2029

lower : ℕ → ℕ
lower c = if leb 65 c && leb c 90 then c + 32 else c

after_word : Text → Text → Option Text
unfolding lower
after_word [] s = some s
after_word (c ∷ p) [] = none
after_word (c ∷ p) (d ∷ s) = let rest = after_word p s in if c == lower d then rest else none

skip_spaces : Text → Text × Text
skip_spaces [] = ([], [])
skip_spaces (c ∷ s) =
    let (spaces, rest) = skip_spaces s in if is_space c then (c ∷ spaces, rest) else ([], c ∷ s)

trim_end : Text → Text
unfolding is_blank
trim_end [] = []
trim_end (c ∷ s) = let rest = trim_end s in if is_blank (c ∷ s) then [] else c ∷ rest

ends_line : Text → Bool
ends_line [] = false
ends_line (c ∷ []) = is_line_end c
ends_line (c ∷ d ∷ s) = ends_line (d ∷ s)

captured : Text → Text → Option Text
unfolding trim_end ends_line
captured [] rest = none
captured (c ∷ []) [] = none
captured (c ∷ d ∷ spaces) [] = if ends_line (d ∷ spaces) then none else some []
captured (c ∷ spaces) (d ∷ rest) =
    if any is_line_end (d ∷ rest) then none else some (trim_end (d ∷ rest))

unfoldable pub extract_bearer : Option Text → Option Text
unfolding after_word skip_spaces captured
extract_bearer none = none
extract_bearer (some header) = elim (after_word (codes "bearer") header) [
  | none ↦ none
  | some after ↦ let (spaces, rest) = skip_spaces after in captured spaces rest
]

-- `date && date.getTime() <= now`
abbrev pub is_past : ℕ → Option ℕ → Bool
is_past now none = false
is_past now (some at_ms) = leb at_ms now

abbrev pub is_true : Option Bool → Bool
is_true (some true) = true
is_true _ = false

abbrev pub is_empty : Text → Bool
is_empty [] = true
is_empty (_ ∷ _) = false

module _ (c : Crypto) (now : ℕ) where
  unfoldable pub check_hash : AppUser → Text → Option Text → Option AppUser
  check_hash u secret none = none
  check_hash u secret (some stored) =
      if is_empty stored || is_past now u.token_expires
      then none
      else if is_true (c.verify stored (secret ++ c.pepper))
      then some u
      else none

  find_token : List AppUser → Option (Text × Text) → Option AppUser
  unfolding check_hash
  find_token users none = none
  find_token users (some (token_id, secret)) =
      elim (find? (λ u. same_handle token_id (AppUser.token_id u)) users) [
        | none ↦ none
        | some u ↦ check_hash u secret u.token_hash
      ]

  unfoldable pub verify_token : List AppUser → Option Text → Option AppUser
  unfolding find_token parse_token extract_bearer
  verify_token users header = find_token users (parse_token (extract_bearer header))

  -- The prefix of a session, with its dot.
  abbrev session_prefix : Text
  session_prefix = codes "pm_session"

  starts_with : Text → Text → Bool
  starts_with [] s = true
  starts_with (x ∷ p) [] = false
  starts_with (x ∷ p) (y ∷ s) = x == y && starts_with p s

  unfoldable pub is_dashboard_session_token : Text → Bool
  unfolding starts_with
  is_dashboard_session_token raw = starts_with (codes "pm_session.") raw

  -- `issueDashboardSession`
  unfoldable pub issue_dashboard_session : String → ℕ → Text
  issue_dashboard_session user_id ttl =
      let iat = now / 1000 in
      let payload = c.encode (record { sub = user_id; iat = iat; exp = iat + ttl }) in
      codes "pm_session." ++ (payload ++ 46 ∷ c.sign payload)

  session_parts : Text × List Text → Option Payload
  session_parts (prefix, payload ∷ signature ∷ []) =
      if text_eq prefix session_prefix
        && not (is_empty payload)
        && not (is_empty signature)
        && text_eq (c.sign payload) signature
      then c.decode payload
      else none
  session_parts (prefix, _) = none

  -- A password that was changed after the session began ends it.
  unfoldable pub is_outdated : ℕ → Option ℕ → Bool
  is_outdated iat none = false
  is_outdated iat (some changed) = ltb iat (changed / 1000)

  session_user : List AppUser → Option Payload → Option AppUser
  unfolding is_outdated
  session_user users none = none
  session_user users (some payload) =
      if leb payload.exp (now / 1000) then none else elim (find? (is_user payload.sub) users) [
        | none ↦ none
        | some u ↦ if is_outdated payload.iat u.password_changed_at then none else some u
      ]

  unfoldable pub verify_dashboard_session : List AppUser → Text → Option AppUser
  unfolding is_dashboard_session_token split_dots session_parts session_user
  verify_dashboard_session users raw =
      if not (is_dashboard_session_token raw)
      then none
      else session_user users (session_parts (split_dots raw))

  identity_of : AppUser → TenantCtx
  identity_of u = record {
    user_id = u.id;
    team_id = u.team_id;
    admin_level = u.admin_level;
    is_team_member = is_some u.team_id;
    is_team_admin = is_admin u.admin_level;
    is_global_superuser = is_superuser u.admin_level;
    mounted_team_ids = [];
    inside_tenant_tx = false;
  }
    where
      is_admin : AdminLevel → Bool
      is_admin admin = true
      is_admin _ = false

      is_superuser : AdminLevel → Bool
      is_superuser superuser = true
      is_superuser _ = false

  -- A session, or else a token, gives the caller; historical grants mount no teams.
  unfoldable pub derive_identity : List AppUser → Option Text → Option TenantCtx
  unfolding extract_bearer is_dashboard_session_token verify_dashboard_session verify_token
      identity_of
  derive_identity users header =
      let by_token = verify_token users header in
      let user : Option AppUser = elim (extract_bearer header) [
        | none ↦ by_token
        | some raw ↦
            if not (is_empty raw) && is_dashboard_session_token raw
            then verify_dashboard_session users raw
            else by_token
      ] in
      elim user [ none ↦ none | some u ↦ some (identity_of u) ]

pub record LocalOwner : Type 0 where
  pub user_id : String
  pub team_id : String

pub data AuthError : Type 0 where
  invalid_token personal_owner_required : AuthError

is_owner : Option LocalOwner → TenantCtx → Bool
is_owner none identity = false
is_owner (some owner) identity =
    str_eq owner.user_id identity.user_id && same_text (some owner.team_id) identity.team_id

-- The hook `authenticate`: only the personal owner gets past it.
unfoldable pub authenticate :
    Crypto → ℕ → List AppUser → Option LocalOwner → Option Text → Result AuthError TenantCtx
unfolding derive_identity is_owner
authenticate c now users owner header = elim (derive_identity c now users header) [
  | none ↦ err invalid_token
  | some identity ↦
      if is_owner owner identity
      then ok (record identity { mounted_team_ids = [] })
      else err personal_owner_required
]
