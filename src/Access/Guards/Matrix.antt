-- ===== src/Access/Guards/Matrix.antt =====
-- The access matrix that guards.ts describes in its header, against the decisions.
use Prim.Native.String.{String}
use text.Mathlib.TextEquality.{eq_iff}
use persistent_memory_stack.Prelude.{
  Bool-cases, Option, arith, if◌then◌else◌, inl, inr, none, refl, some, true, ◌↔◌, ◌≡◌, ◌≢◌, ◌⊎◌,
}
use persistent_memory_stack.Access.Guards.{
  AdminLevel, DataAction, DecisionIdentity, MemoryTarget, admin, allow, create, dashboard_change,
  data_action, data_write, decide_dashboard, decide_data_plane, delete, deny, is_author, is_null,
  no_team, nobody, own_team_create, own_team_write, same_text, search, superuser, team_admin_action,
  update,
}

-- A write in the caller's team, by its author or by an administrator.
abbrev MayEdit : DecisionIdentity → MemoryTarget → Type 0
MayEdit i target =
    (i.team_id ≡ some target.team_id)
    × ((i.is_team_admin ≡ true)
        ⊎ (i.is_global_superuser ≡ true)
        ⊎ (target.created_by_id ≡ some i.user_id))

-- What the data plane allows: members of a team read and create; updates and deletions are for the
-- current team, and another's memory only for administrators.
abbrev pub DataPlane : DecisionIdentity → DataAction → Option MemoryTarget → Type 0
DataPlane i search target = Unit
DataPlane i create target = Unit
DataPlane i _ none = ⊥
DataPlane i _ (some target) = MayEdit i target

same_text_iff : (a b : Option String) → (same_text a b ≡ true) ↔ (a ≡ b)
same_text_iff none none = ground arith
same_text_iff none (some b) = ground arith
same_text_iff (some a) none = ground arith
same_text_iff (some a) (some b) = ground (arith, eq_iff a b)

is_author_iff : (a : Option String) (u : String) → (is_author a u ≡ true) ↔ (a ≡ some u)
is_author_iff none u = ground arith
is_author_iff (some a) u = ground (arith, eq_iff a u)

data_write_iff :
    (i : DecisionIdentity) (t : MemoryTarget) → (data_write i (some t) ≡ allow) ↔ MayEdit i t
unfolding data_write
data_write_iff i t =
    ground
      (arith, same_text_iff (some t.team_id) i.team_id, is_author_iff t.created_by_id i.user_id)

data_action_iff :
    (i : DecisionIdentity) (action : DataAction) (target : Option MemoryTarget)
    → (data_action i action target ≡ allow) ↔ DataPlane i action target
unfolding data_action
data_action_iff i search target = ground arith
data_action_iff i create target = ground arith
data_action_iff i update none = unfold data_write in ground arith
data_action_iff i update (some t) = data_write_iff i t
data_action_iff i delete none = unfold data_write in ground arith
data_action_iff i delete (some t) = data_write_iff i t

-- The data plane allows exactly this: the caller belongs to a team, and for an update or a deletion
-- the target is given, lies in that team, and is the caller's own unless the caller administers.
pub decide_data_plane_iff :
    (i : DecisionIdentity) (action : DataAction) (target : Option MemoryTarget)
    → (decide_data_plane i action target ≡ allow)
      ↔ ((i.is_team_member ≡ true) × (i.team_id ≢ none) × DataPlane i action target)
unfolding decide_data_plane
decide_data_plane_iff i action target = elim (Bool-cases i.is_team_member) [
  | inr outside ↦ rw outside ((λ h. cc), λ (m, _, _). cc)
  | inl member ↦ rw member (by_team i.team_id refl)
]
  where
    by_team :
        (team : Option String)
        → i.team_id ≡ team
        → ((if is_null team then deny no_team else data_action i action target) ≡ allow)
          ↔ ((true ≡ true) × (team ≢ none) × DataPlane i action target)
    by_team none e = ((λ h. cc), λ (_, n, _). absurd (n refl))
    by_team (some team) e = (
      λ h. (refl, (λ q. cc), (data_action_iff i action target).0 h),
      λ (_, _, h). (data_action_iff i action target).1 h,
    )

-- A team administrator's create names no team or the own one; other changes name a target there.
abbrev OwnTeam : DecisionIdentity → DataAction → Option MemoryTarget → Type 0
OwnTeam i create none = Unit
OwnTeam i _ none = ⊥
OwnTeam i _ (some t) = i.team_id ≡ some t.team_id

abbrev pub Dashboard : DecisionIdentity → DataAction → Option MemoryTarget → Type 0
Dashboard i search target = i.admin_level ≢ nobody
Dashboard i action target =
    (i.is_global_superuser ≡ true)
    ⊎ ((i.is_team_admin ≡ true) × (i.team_id ≢ none) × OwnTeam i action target)

team_admin_action_iff :
    (i : DecisionIdentity) (action : DataAction) (target : Option MemoryTarget)
    → action ≢ search
    → (team_admin_action i action target ≡ allow) ↔ OwnTeam i action target
unfolding team_admin_action own_team_create own_team_write
team_admin_action_iff i create none n = ground arith
team_admin_action_iff i create (some t) n = ground (arith, same_text_iff (some t.team_id) i.team_id)
team_admin_action_iff i update none n = ground arith
team_admin_action_iff i update (some t) n = ground (arith, same_text_iff (some t.team_id) i.team_id)
team_admin_action_iff i delete none n = ground arith
team_admin_action_iff i delete (some t) n = ground (arith, same_text_iff (some t.team_id) i.team_id)
team_admin_action_iff i search target n = absurd (n refl)

dashboard_change_iff :
    (i : DecisionIdentity) (action : DataAction) (target : Option MemoryTarget)
    → action ≢ search
    → (dashboard_change i action target ≡ allow) ↔ (
        (i.is_global_superuser ≡ true)
        ⊎ ((i.is_team_admin ≡ true) × (i.team_id ≢ none) × OwnTeam i action target))
unfolding dashboard_change
dashboard_change_iff i action target n =
    let (to, from) = team_admin_action_iff i action target n in ground (arith, to, from)

-- The dashboard allows exactly this: search for any administrator, every change for a superuser,
-- and for a team administrator the changes of the own team.
decide_dashboard_iff :
    (i : DecisionIdentity) (action : DataAction) (target : Option MemoryTarget)
    → (decide_dashboard i action target ≡ allow) ↔ Dashboard i action target
unfolding decide_dashboard
decide_dashboard_iff i search target = ground arith
decide_dashboard_iff i create target = dashboard_change_iff i create target (λ e. cc)
decide_dashboard_iff i update target = dashboard_change_iff i update target (λ e. cc)
decide_dashboard_iff i delete target = dashboard_change_iff i delete target (λ e. cc)

-- How the server derives the flags of an identity from the team and the level.
pub record IsDerived (i : DecisionIdentity) : Type 0 where
  pub member : (i.is_team_member ≡ true) ↔ (i.team_id ≢ none)
  pub team_admin : (i.is_team_admin ≡ true) ↔ (i.admin_level ≡ admin)
  pub global : (i.is_global_superuser ≡ true) ↔ (i.admin_level ≡ superuser)

-- The dashboard never narrows what an administrator may do through the data plane.
decide_dashboard-of-data_plane :
    (i : DecisionIdentity) (action : DataAction) (target : Option MemoryTarget)
    → IsDerived i
    → i.admin_level ≢ nobody
    → (action ≡ create → target ≡ none)
    → decide_data_plane i action target ≡ allow
    → decide_dashboard i action target ≡ allow
decide_dashboard-of-data_plane i action target derived level own h =
    let (m, t, d) = (decide_data_plane_iff i action target).0 h in
    (decide_dashboard_iff i action target).1 (reach i.admin_level refl action target t own d)
  where
    reach :
        (l : AdminLevel)
        → i.admin_level ≡ l
        → (action : DataAction) (target : Option MemoryTarget) → i.team_id ≢ none
        → (action ≡ create → target ≡ none)
        → DataPlane i action target
        → Dashboard i action target
    reach nobody e action target t own d = absurd (level e)
    reach l e search target t own d = level
    reach superuser e create target t own d = inl (derived.global.1 e)
    reach superuser e update target t own d = inl (derived.global.1 e)
    reach superuser e delete target t own d = inl (derived.global.1 e)
    reach admin e create target t own d = inr (derived.team_admin.1 e, t, rw (own refl) tt)
    reach admin e update (some target) t own d = inr (derived.team_admin.1 e, t, d.0)
    reach admin e delete (some target) t own d = inr (derived.team_admin.1 e, t, d.0)
    reach admin e update none t own d = absurd d
    reach admin e delete none t own d = absurd d
