-- ===== src/Tests/Access.antt =====
-- Runs of the definitions of Access, and its theorems at concrete inputs.
use persistent_memory_stack.Prelude.{
  Bool, [], false, inl, inr, none, refl, some, true, ◌↔◌, ◌≡◌, ◌≢◌,
}
use persistent_memory_stack.Prelude.Result.{Result, ok}
use persistent_memory_stack.Access.Guards.{
  DecisionIdentity, MemoryTarget, admin, allow, decide_data_plane, delete,
}
use persistent_memory_stack.Access.Guards.Matrix.{DataPlane, decide_data_plane_iff}
use persistent_memory_stack.Access.Tenant.{
  Settings, TenantCtx, TenantError, TenantRunOpts, data_models, guard_permits, run_in_tenant,
  tenant_settings,
}
use persistent_memory_stack.Access.Tenant.Scope.{
  IsConfined, IsForeign, IsTeamless, run_in_tenant-guard, tenant_settings-IsConfined,
}

abbrev lead : DecisionIdentity
lead = record {
  user_id = "u1";
  team_id = some "t1";
  admin_level = admin;
  is_team_member = true;
  is_team_admin = true;
  is_global_superuser = false;
}

-- Another member's memory in the same team.
abbrev note : MemoryTarget
note = record { team_id = "t1"; created_by_id = some "u2" }

lead_may_delete : decide_data_plane lead delete (some note) ≡ allow
unfolding decide_data_plane
lead_may_delete = refl

decide_data_plane_iff_example :
    (decide_data_plane lead delete (some note) ≡ allow)
    ↔ ((lead.is_team_member ≡ true) × (lead.team_id ≢ none) × DataPlane lead delete (some note))
decide_data_plane_iff_example = decide_data_plane_iff lead delete (some note)

abbrev caller : TenantCtx
caller = record {
  user_id = "u1";
  team_id = some "t1";
  admin_level = admin;
  is_team_member = true;
  is_team_admin = true;
  is_global_superuser = false;
  mounted_team_ids = [];
  inside_tenant_tx = false;
}

abbrev plain_opts : TenantRunOpts
plain_opts = record {
  global_admin = true;
  team_id_override = none;
  read_only = false;
  read_all_memory = true;
}

abbrev scope : Settings
scope = record {
  user_id = "u1";
  team_id = "t1";
  can_read_all = false;
  mounted_team_ids = "";
  read_all_memory = false;
  is_global_admin = false;
  bypass_owner_floor = true;
}

caller-scope : tenant_settings (some caller) plain_opts ≡ ok scope
unfolding tenant_settings
caller-scope = refl

tenant_settings-IsConfined_example :
    (ctx : TenantCtx) × (some caller ≡ some ctx)
    × IsConfined ctx plain_opts scope
    × (¬ IsForeign ctx plain_opts)
    × (¬ IsTeamless ctx plain_opts)
tenant_settings-IsConfined_example =
    tenant_settings-IsConfined (some caller) plain_opts scope caller-scope

abbrev abroad : TenantRunOpts
abroad = record plain_opts { team_id_override = some "t2" }

abbrev query : TenantCtx → Settings → Result TenantError Bool
query ctx s = ok ctx.inside_tenant_tx

run_in_tenant-guard_example :
    guard_permits (some (run_in_tenant query caller plain_opts).1) (some "Chunk") ≡ false
run_in_tenant-guard_example =
    run_in_tenant-guard query caller plain_opts "Chunk" refl
      (unfold data_models in inr (inr (inl refl)))
