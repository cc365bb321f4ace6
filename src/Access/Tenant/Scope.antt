-- ===== src/Access/Tenant/Scope.antt =====
-- What scope a transaction can have.
use Prim.Native.String.{String}
use text.Mathlib.Text.{◌==◌ as str_eq}
use text.Mathlib.TextEquality.{eq_iff}
use persistent_memory_stack.Prelude.{
  Elem, List, Option, [], any, arith, default_to, false, inl, inr, none, refl, some, true, ◌↔◌, ◌∷◌,
  ◌≡◌, ◌≢◌, ◌⊎◌,
}
use persistent_memory_stack.Prelude.Result.{Result, Result-cases, err, ok}
use persistent_memory_stack.Access.Tenant.{
  Settings, TenantCtx, TenantError, TenantRunOpts, data_models, foreign_partition, guard_permits,
  no_team_context, run_in_tenant, tenant_settings,
}

-- Whatever the options ask for, a transaction runs as the caller, in the caller's team or none, with
-- no cross-team reading, and with the global path only for a superuser who asked for it.
pub record IsConfined (ctx : TenantCtx) (opts : TenantRunOpts) (s : Settings) : Type 0 where
  pub same_user : s.user_id ≡ ctx.user_id
  pub same_team : s.team_id ≡ default_to "" ctx.team_id
  pub no_read_all : s.can_read_all ≡ false
  pub no_mounts : s.mounted_team_ids ≡ ""
  pub no_memory_span : s.read_all_memory ≡ false
  pub global_is_superuser :
      (s.is_global_admin ≡ true) ↔ ((ctx.is_global_superuser ≡ true) × (opts.global_admin ≡ true))
  pub floor_is_admin :
      (s.bypass_owner_floor ≡ true)
      ↔ ((ctx.is_team_admin ≡ true) ⊎ (ctx.is_global_superuser ≡ true))

-- A team other than the caller's, where both are named and not ''.
abbrev pub IsForeign : TenantCtx → TenantRunOpts → Type 0
IsForeign ctx opts =
    (wanted : String) × (team : String) × (opts.team_id_override ≡ some wanted)
    × (ctx.team_id ≡ some team)
    × (wanted ≢ "")
    × (team ≢ "")
    × (wanted ≢ team)

-- A caller with no team who would write, and not on a superuser's global path.
abbrev pub IsTeamless : TenantCtx → TenantRunOpts → Type 0
IsTeamless ctx opts =
    (ctx.team_id ≡ none)
    × (opts.read_only ≡ false)
    × (¬ ((ctx.is_global_superuser ≡ true) × (opts.global_admin ≡ true)))

any-Elem :
    (models : List String) (model : String)
    → Elem model models
    → any (λ m. str_eq m model) models ≡ true
any-Elem [] model h = absurd h
any-Elem (m ∷ ms) model h = ground (arith, (eq_iff m model).1, any-Elem ms model)

-- An override that names another team than the caller's never runs.
tenant_settings_foreign :
    (ctx : TenantCtx) (opts : TenantRunOpts)
    → IsForeign ctx opts
    → tenant_settings (some ctx) opts ≡ err foreign_partition
unfolding tenant_settings
tenant_settings_foreign ctx opts (wanted, team, e, f, n, m, d) =
    ground (arith, eq_iff wanted "", eq_iff team "", eq_iff wanted team)

tenant_settings_teamless :
    (ctx : TenantCtx) (opts : TenantRunOpts)
    → IsTeamless ctx opts
    → tenant_settings (some ctx) opts ≡ err no_team_context
unfolding tenant_settings
tenant_settings_teamless ctx opts (e, f, n) = ground arith

confined :
    (ctx : TenantCtx) (opts : TenantRunOpts) (s : Settings)
    → tenant_settings (some ctx) opts ≡ ok s
    → IsConfined ctx opts s
unfolding tenant_settings
confined ctx opts s h = ground arith

-- Settings are given only in a context; never where the options name a team other than the
-- caller's, and never to a caller with no team who would write, off the superuser's global path.
-- The settings confine the transaction to the caller and the caller's team, without cross-team
-- reading; they take the global path exactly for a superuser who asked for it, and lift the owner
-- floor exactly for an admin of the team or a superuser.
pub tenant_settings-IsConfined :
    (caller : Option TenantCtx) (opts : TenantRunOpts) (s : Settings)
    → tenant_settings caller opts ≡ ok s
    → (ctx : TenantCtx) × (caller ≡ some ctx)
      × IsConfined ctx opts s
      × (¬ IsForeign ctx opts)
      × (¬ IsTeamless ctx opts)
tenant_settings-IsConfined none opts s h = absurd (unfold tenant_settings in cc h)
tenant_settings-IsConfined (some ctx) opts s h = (
  ctx,
  refl,
  confined ctx opts s h,
  (λ away. cc (h, tenant_settings_foreign ctx opts away)),
  λ teamless. cc (h, tenant_settings_teamless ctx opts teamless),
)

-- After a run, whether it returned or threw, a query of any data model with the caller's context is
-- refused, if the caller was not inside a transaction before.
pub run_in_tenant-guard :
    {A : Type 0} (fn : TenantCtx → Settings → Result TenantError A) (ctx : TenantCtx)
    (opts : TenantRunOpts) (model : String)
    → ctx.inside_tenant_tx ≡ false
    → Elem model data_models
    → guard_permits (some (run_in_tenant fn ctx opts).1) (some model) ≡ false
unfolding run_in_tenant guard_permits
run_in_tenant-guard fn ctx opts model outside listed =
    elim (Result-cases (tenant_settings (some ctx) opts)) [
      | inl (s, e) ↦ rw (e, run_in_tenant) (rw (any-Elem data_models model listed) refl)
      | inr (x, e) ↦ rw (e, run_in_tenant, outside) (rw (any-Elem data_models model listed) refl)
    ]
