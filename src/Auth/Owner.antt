-- ===== src/Auth/Owner.antt =====
-- Who gets past `authenticate`.
use text.Mathlib.TextEquality.{eq_iff}
use Prim.Native.String.{String}
use persistent_memory_stack.Prelude.Text.{Text}
use persistent_memory_stack.Prelude.Result.{Result, err, ok, ok-injective}
use persistent_memory_stack.Prelude.{
  Bool, List, Option, Option-cases, [], and_split, ap, false, if◌then◌else◌, inl, inr, none, refl,
  some, sym, true, ℕ, ◌≡◌,
}
use persistent_memory_stack.Access.Guards.{same_text}
use persistent_memory_stack.Access.Tenant.{TenantCtx}
use persistent_memory_stack.Auth.{
  AppUser, AuthError, Crypto, LocalOwner, authenticate, derive_identity, is_owner,
  personal_owner_required,
}

-- The identity of a request is the owner's, in the owner's team, with no mounted teams.
pub record IsOwners (owner : Option LocalOwner) (i : TenantCtx) : Type 0 where
  pub holder : LocalOwner
  pub present : owner ≡ some holder
  pub same_user : i.user_id ≡ holder.user_id
  pub same_team : i.team_id ≡ some holder.team_id
  pub nothing_mounted : i.mounted_team_ids ≡ []

team_is : (team : String) (o : Option String) → same_text (some team) o ≡ true → o ≡ some team
team_is team none h = absurd (cc)
team_is team (some t) h = ap (λ x. some x) (sym ((eq_iff team t).0 h))

owner_is :
    (owner : Option LocalOwner) (i : TenantCtx)
    → is_owner owner i ≡ true
    → IsOwners owner (record i { mounted_team_ids = [] })
unfolding is_owner
owner_is none i h = absurd (cc)
owner_is (some o) i h =
    let (u, t) = and_split _ _ h in
    record {
      holder = o;
      present = refl;
      same_user = sym ((eq_iff o.user_id i.user_id).0 u);
      same_team = team_is o.team_id i.team_id t;
      nothing_mounted = refl;
    }

-- Whoever gets past `authenticate`, by a token or a session, is the personal owner, in the owner's
-- team and with no mounted teams; where no owner is recorded, nobody gets past.
pub authenticate-IsOwners :
    (c : Crypto) (now : ℕ) (users : List AppUser) (owner : Option LocalOwner) (header : Option Text)
    (i : TenantCtx)
    → authenticate c now users owner header ≡ ok i
    → IsOwners owner i
unfolding authenticate
authenticate-IsOwners c now users owner header i h =
    elim (Option-cases (derive_identity c now users header)) [
      | inl e ↦ absurd (cc (rw (e, authenticate) at h))
      | inr (j, e) ↦ judged j (is_owner owner j) refl (rw (e, authenticate) at h)
    ]
  where
    judged :
        (j : TenantCtx) (b : Bool)
        → is_owner owner j ≡ b
        → ◌≡◌ {A = Result AuthError TenantCtx}
            (if b then ok (record j { mounted_team_ids = [] }) else err personal_owner_required)
            (ok i)
        → IsOwners owner i
    judged j true e k = rw (← ok-injective k) (owner_is owner j e)
    judged j false e k = absurd (cc)
