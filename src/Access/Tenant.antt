-- ===== src/Access/Tenant.antt =====
-- packages/db/src/tenant-context.ts, `runInTenant`: the settings that the row-level security of the
-- database reads, for one transaction; and the audit guard of packages/db/src/prisma.ts. The
-- transaction and the settings are PostgreSQL's; here they are the record that it is given.
pub mod Scope
use Prim.Native.String.{String}
use text.Mathlib.Text.{◌==◌ as str_eq}
use persistent_memory_stack.Prelude.{
  Bool, List, Option, [], any, default_to, false, if◌then◌else◌, none, not, some, true, ◌&&◌, ◌||◌,
  ◌∷◌,
}
use persistent_memory_stack.Prelude.Result.{Result, err, ok}
use persistent_memory_stack.Access.Guards.{AdminLevel, is_null}

pub record TenantCtx : Type 0 where
  pub user_id : String
  pub team_id : Option String
  pub admin_level : AdminLevel
  pub is_team_member : Bool
  pub is_team_admin : Bool
  pub is_global_superuser : Bool
  pub mounted_team_ids : List String
  pub inside_tenant_tx : Bool

-- The isolation level concerns the transaction alone.
pub record TenantRunOpts : Type 0 where
  pub global_admin : Bool
  pub team_id_override : Option String
  pub read_only : Bool
  pub read_all_memory : Bool

-- The seven calls of `set_config`, in their order.
pub record Settings : Type 0 where
  pub user_id : String
  pub team_id : String
  pub can_read_all : Bool
  pub mounted_team_ids : String
  pub read_all_memory : Bool
  pub is_global_admin : Bool
  pub bypass_owner_floor : Bool

pub data TenantError : Type 0 where
  no_context foreign_partition no_team_context : TenantError

-- `opts.teamIdOverride && ctx.teamId && opts.teamIdOverride !== ctx.teamId`; '' is falsy.
targets_foreign : Option String → Option String → Bool
targets_foreign (some wanted) (some team) =
    not (str_eq wanted "") && not (str_eq team "") && not (str_eq wanted team)
targets_foreign _ _ = false

-- The checks before the transaction, and what its first statements set.
unfoldable pub tenant_settings : Option TenantCtx → TenantRunOpts → Result TenantError Settings
unfolding targets_foreign
tenant_settings none opts = err no_context
tenant_settings (some ctx) opts =
    let global_admin = opts.global_admin && ctx.is_global_superuser in
    if targets_foreign opts.team_id_override ctx.team_id
    then err foreign_partition
    else if not opts.read_only && not global_admin && is_null ctx.team_id
    then err no_team_context
    else ok (record {
      user_id = ctx.user_id;
      team_id = default_to "" ctx.team_id;
      can_read_all = false;
      mounted_team_ids = "";
      read_all_memory = false;
      is_global_admin = global_admin;
      bypass_owner_floor = ctx.is_team_admin || ctx.is_global_superuser || global_admin;
    })

-- `fn` runs with the flag set, and the flag is reset whether it returns or throws.
unfoldable pub run_in_tenant :
    {A : Type 0}
    → (TenantCtx → Settings → Result TenantError A)
    → TenantCtx
    → TenantRunOpts
    → Result TenantError A × TenantCtx
run_in_tenant fn ctx opts = elim (tenant_settings (some ctx) opts) [
  | err e ↦ (err e, ctx)
  | ok settings ↦ (
    fn (record ctx { inside_tenant_tx = true }) settings,
    record ctx { inside_tenant_tx = false },
  )
]

unfoldable pub data_models : List String
data_models =
    "Source" ∷ "Document" ∷ "Chunk" ∷ "Entity" ∷ "Claim" ∷ "Relationship" ∷ "Investigation"
    ∷ "InvestigationLink" ∷ "IngestJob" ∷ "Memory" ∷ []

-- `$allOperations`: false when the guard throws. An absent context is not inside a transaction.
unfoldable pub guard_permits : Option TenantCtx → Option String → Bool
unfolding data_models
guard_permits ctx model = not (
    any (λ m. str_eq m (default_to "" model)) data_models
    && not (elim ctx [ none ↦ false | some c ↦ c.inside_tenant_tx ]))
