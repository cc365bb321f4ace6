-- ===== src/Tests/Auth.antt =====
-- Runs of the definitions of Auth, and its theorems at concrete inputs.
use persistent_memory_stack.Prelude.Text.{Text, codes, is_blank, text_eq, text_eq_iff, text_eq_refl}
use persistent_memory_stack.Prelude.Result.{ok}
use persistent_memory_stack.Prelude.{
  Bool, List, Option, [], arith, false, find?, none, refl, some, true, ℕ, ◌++◌, ◌+◌, ◌/◌, ◌<◌, ◌↔◌,
  ◌∷◌, ◌≡◌, ◌≤◌,
}
use persistent_memory_stack.Access.Guards.{admin}
use persistent_memory_stack.Access.Tenant.{TenantCtx}
use persistent_memory_stack.Auth.{
  AppUser, Crypto, LocalOwner, Payload, at_dot, authenticate, check_hash, derive_identity,
  extract_bearer, is_dashboard_session_token, is_true, is_user, issue_dashboard_session,
  issue_token, parse_token, stamp, update_user, verify_dashboard_session, verify_token,
}
use persistent_memory_stack.Auth.Tokens.{Accepts, IsHash, issue_token_iff}
use persistent_memory_stack.Auth.Owner.{IsOwners, authenticate-IsOwners}
use persistent_memory_stack.Auth.Signed.{IsCodec, payload_of, verify_dashboard_session_iff}

-- A session of eight hours that began after ten seconds.
abbrev session : Payload
session = record { sub = "u1"; iat = 10; exp = 28810 }

-- A hash that marks its text, in place of argon2id, and fixed texts in place of HMAC and base64url.
abbrev plain_crypto : Crypto
plain_crypto = record {
  pepper = codes "pepper";
  hash = λ salt s. 36 ∷ s;
  verify = λ h t. some (text_eq h (36 ∷ t));
  sign = λ s. codes "sig";
  encode = λ p. codes "pay";
  decode = λ t. some session;
}

marked_iff : (s t : Text) → (is_true (some (text_eq (36 ∷ s) (36 ∷ t))) ≡ true) ↔ (s ≡ t)
unfolding text_eq
marked_iff s t =
    ((λ h. (text_eq_iff s t).0 (settled (text_eq s t) h)), λ e. rw (e, text_eq_refl t) refl)
  where
    settled : (b : Bool) → is_true (some b) ≡ true → b ≡ true
    settled true h = refl
    settled false h = absurd (cc)

plain_crypto-IsHash : IsHash plain_crypto
plain_crypto-IsHash = record { nonempty = λ salt s. refl; verifies = λ salt s t. marked_iff s t }

abbrev owner_user : AppUser
owner_user = record {
  id = "u1";
  team_id = some "t1";
  admin_level = admin;
  token_id = some (codes "old");
  token_hash = some (codes "stale");
  token_expires = none;
  password_changed_at = some 9000;
}

abbrev other_user : AppUser
other_user = record owner_user { id = "u2"; token_id = none; token_hash = none }

abbrev both_users : List AppUser
both_users = other_user ∷ owner_user ∷ []

abbrev issued_users : List AppUser
issued_users = other_user ∷ stamp (codes "new") (codes "$secretpepper") (some 5000) owner_user ∷ []

token_issued :
    issue_token plain_crypto "u1"
      (codes "new")
      (codes "secret")
      (codes "salt")
      (some 5000)
      both_users
    ≡ some (issued_users, codes "new.secret")
unfolding issue_token update_user text_eq
token_issued = refl

abbrev request : Option Text
request = some (codes "bearer  new.secret ")

issue_token_iff_example :
    let alive = (t : ℕ) → some 5000 ≡ some t → 4999 < t in
    (codes "new.secret" ≡ codes "new" ++ 46 ∷ codes "secret")
    × (Accepts plain_crypto plain_crypto-IsHash 4999 issued_users "u1"
          (some (codes "Bearer " ++ codes "new.secret"))
        ↔ alive)
    × ((header : Option Text)
        → Accepts plain_crypto plain_crypto-IsHash 4999 issued_users "u1" header
          ↔ ((extract_bearer header ≡ some (codes "new.secret")) × alive))
issue_token_iff_example =
    issue_token_iff plain_crypto plain_crypto-IsHash 4999 "u1" (codes "new") (codes "secret")
      (codes "salt") (some 5000) both_users issued_users (codes "new.secret")
      (record { nonempty = λ e. cc e; dotless = refl; spaceless = refl })
      (record { nonempty = λ e. cc e; dotless = refl; spaceless = refl }) token_issued

request_is_read : parse_token (extract_bearer request) ≡ some (codes "new", codes "secret")
unfolding parse_token extract_bearer at_dot is_blank
request_is_read = refl

no_token : parse_token (extract_bearer (some (codes "Bearer  "))) ≡ none
unfolding parse_token extract_bearer at_dot is_blank
no_token = refl

session-IsCodec : IsCodec plain_crypto (payload_of "u1" 10000 28800)
session-IsCodec = record {
  reads = refl;
  encode_full = refl;
  encode_plain = ground arith;
  sign_full = refl;
  sign_plain = ground arith;
}

verify_dashboard_session_iff_example :
    (verify_dashboard_session plain_crypto 20000 both_users
        (issue_dashboard_session plain_crypto 10000 "u1" 28800)
      ≡ some owner_user)
    ↔ ((20000 / 1000 < 10000 / 1000 + 28800)
        × (find? (is_user "u1") both_users ≡ some owner_user)
        × ((t : ℕ) → some 9000 ≡ some t → t / 1000 ≤ 10000 / 1000))
verify_dashboard_session_iff_example =
    verify_dashboard_session_iff plain_crypto 10000 20000 "u1" 28800 session-IsCodec both_users
      owner_user

abbrev owners_identity : TenantCtx
owners_identity = record {
  user_id = "u1";
  team_id = some "t1";
  admin_level = admin;
  is_team_member = true;
  is_team_admin = true;
  is_global_superuser = false;
  mounted_team_ids = [];
  inside_tenant_tx = false;
}

abbrev local_owner : Option LocalOwner
local_owner = some (record { user_id = "u1"; team_id = "t1" })

owner_passes : authenticate plain_crypto 4999 issued_users local_owner request ≡ ok owners_identity
unfolding authenticate derive_identity verify_token extract_bearer parse_token at_dot is_blank
    text_eq check_hash is_dashboard_session_token
owner_passes = refl

authenticate-IsOwners_example : IsOwners local_owner owners_identity
authenticate-IsOwners_example =
    authenticate-IsOwners plain_crypto 4999 issued_users local_owner request owners_identity
      owner_passes
