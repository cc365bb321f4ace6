-- ===== src/Access/Guards.antt =====
-- apps/api/src/authz/guards.ts: the decisions, which are pure, and the hooks that apply them. A
-- denial carries its code; the message that goes with each code is left out.
pub mod Matrix
use Prim.Native.String.{String}
use text.Mathlib.Text.{◌==◌ as str_eq}
use persistent_memory_stack.Prelude.{
  Bool, Option, false, if◌then◌else◌, none, not, some, true, ◌||◌,
}

-- AdminLevel of the schema.
pub data AdminLevel : Type 0 where
  nobody admin superuser : AdminLevel

pub data DataAction : Type 0 where
  create update delete search : DataAction

pub record DecisionIdentity : Type 0 where
  pub user_id : String
  pub team_id : Option String
  pub admin_level : AdminLevel
  pub is_team_member : Bool
  pub is_team_admin : Bool
  pub is_global_superuser : Bool

pub record MemoryTarget : Type 0 where
  pub team_id : String
  pub created_by_id : Option String

pub data DenyCode : Type 0 where
  no_team target_required cross_team_denied not_owner admin_required : DenyCode
  cross_team_read_only superuser_required unauthorized : DenyCode

pub data GuardDecision : Type 0 where
  allow : GuardDecision
  deny : DenyCode → GuardDecision

-- `a === b` where either may be null.
abbrev pub same_text : Option String → Option String → Bool
same_text none none = true
same_text (some a) (some b) = str_eq a b
same_text _ _ = false

-- `target.createdById !== null && target.createdById === i.userId`
abbrev pub is_author : Option String → String → Bool
is_author none user = false
is_author (some author) user = str_eq author user

abbrev pub is_null : Option String → Bool
is_null none = true
is_null (some _) = false

abbrev is_nobody : AdminLevel → Bool
is_nobody nobody = true
is_nobody _ = false

data_write : DecisionIdentity → Option MemoryTarget → GuardDecision
data_write i none = deny target_required
data_write i (some target) =
    if not (same_text (some target.team_id) i.team_id)
    then deny cross_team_denied
    else if i.is_team_admin || i.is_global_superuser
    then allow
    else if is_author target.created_by_id i.user_id
    then allow
    else deny not_owner

data_action : DecisionIdentity → DataAction → Option MemoryTarget → GuardDecision
data_action i search target = allow
data_action i create target = allow
data_action i _ target = data_write i target

unfoldable pub decide_data_plane :
    DecisionIdentity → DataAction → Option MemoryTarget → GuardDecision
unfolding data_write data_action
decide_data_plane i action target =
    if not i.is_team_member || is_null i.team_id then deny no_team else data_action i action target

unfoldable allow_universal_read : AdminLevel → Option Bool → Bool
allow_universal_read level (some true) = not (is_nobody level)
allow_universal_read level _ = false

own_team_create : DecisionIdentity → Option MemoryTarget → GuardDecision
own_team_create i none = allow
own_team_create i (some target) =
    if same_text (some target.team_id) i.team_id then allow else deny cross_team_read_only

own_team_write : DecisionIdentity → Option MemoryTarget → GuardDecision
own_team_write i none = deny target_required
own_team_write i (some target) =
    if same_text (some target.team_id) i.team_id then allow else deny cross_team_read_only

team_admin_action : DecisionIdentity → DataAction → Option MemoryTarget → GuardDecision
team_admin_action i create target = own_team_create i target
team_admin_action i _ target = own_team_write i target

dashboard_change : DecisionIdentity → DataAction → Option MemoryTarget → GuardDecision
dashboard_change i action target =
    if i.is_global_superuser
    then allow
    else if i.is_team_admin
    then (if is_null i.team_id then deny no_team else team_admin_action i action target)
    else deny admin_required

unfoldable pub decide_dashboard :
    DecisionIdentity → DataAction → Option MemoryTarget → GuardDecision
unfolding own_team_create own_team_write team_admin_action dashboard_change
decide_dashboard i search target = if is_nobody i.admin_level then deny admin_required else allow
decide_dashboard i create target = dashboard_change i create target
decide_dashboard i update target = dashboard_change i update target
decide_dashboard i delete target = dashboard_change i delete target

unfoldable decide_admin : AdminLevel → GuardDecision
decide_admin admin = allow
decide_admin superuser = allow
decide_admin nobody = deny admin_required

unfoldable decide_superuser : AdminLevel → GuardDecision
decide_superuser superuser = allow
decide_superuser _ = deny superuser_required

unfoldable decide_team_member : DecisionIdentity → GuardDecision
decide_team_member i = if not i.is_team_member || is_null i.team_id then deny no_team else allow

-- `applyDecision`: what it throws, if anything; no identity is refused before any decision.
unfoldable apply_decision :
    Option DecisionIdentity → (DecisionIdentity → GuardDecision) → Option DenyCode
apply_decision none decide = some unauthorized
apply_decision (some i) decide = elim (decide i) [ allow ↦ none | deny code ↦ some code ]

unfoldable require_team_member : Option DecisionIdentity → Option DenyCode
unfolding apply_decision
require_team_member i = apply_decision i decide_team_member

unfoldable require_admin : Option DecisionIdentity → Option DenyCode
unfolding apply_decision
require_admin i = apply_decision i (λ id. decide_admin id.admin_level)

unfoldable require_superuser : Option DecisionIdentity → Option DenyCode
unfolding apply_decision
require_superuser i = apply_decision i (λ id. decide_superuser id.admin_level)
