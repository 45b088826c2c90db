-- ===== src/Roles.antt =====
-- packages/utils/src/roles.ts: the platform and organization role hierarchies and the minimum role
-- of each permission. A role arrives as a string that may be null or undefined, both `none` here.
pub mod Laws
mod Tests
use planisfy.Common.{
  ℕ, String, Bool, true, false, Option, none, some, List, [], ◌∷◌, if◌then◌else◌, leb, is_some,
}
use planisfy.Common.Json.{own_property}

pub data PlatformRole : Type 0 where
  user admin super owner : PlatformRole

pub data OrgRole : Type 0 where
  viewer member admin owner : OrgRole

pub data PlatformPermission : Type 0 where
  platform_access platform_users_manage platform_organizations_manage : PlatformPermission
  platform_configuration_manage platform_ownership_manage : PlatformPermission

pub data OrgPermission : Type 0 where
  resource_read resource_write resource_publish resource_delete : OrgPermission
  api_key_manage billing_manage integration_manage : OrgPermission
  operations_jobs_manage operations_schedules_manage operations_notifications_manage : OrgPermission
  operations_backups_manage operations_workers_manage operations_routing_manage : OrgPermission
  operations_delivery_manage operations_templates_manage : OrgPermission
  platform_readiness_view platform_environment_view : OrgPermission
  members_manage org_manage selfhost_operate selfhost_upgrade : OrgPermission

-- The spellings of `platformRoles` and `orgRoles`.
abbrev pub platform_role_name : PlatformRole → String
platform_role_name PlatformRole.user = "USER"
platform_role_name PlatformRole.admin = "ADMIN"
platform_role_name PlatformRole.super = "SUPER"
platform_role_name PlatformRole.owner = "OWNER"

abbrev pub org_role_name : OrgRole → String
org_role_name OrgRole.viewer = "viewer"
org_role_name OrgRole.member = "member"
org_role_name OrgRole.admin = "admin"
org_role_name OrgRole.owner = "owner"

-- The own properties of the rank objects.
abbrev platform_role_rank : List (String × ℕ)
platform_role_rank = ("USER", 0) ∷ ("ADMIN", 1) ∷ ("SUPER", 2) ∷ ("OWNER", 3) ∷ []

abbrev org_role_rank : List (String × ℕ)
org_role_rank = ("viewer", 0) ∷ ("member", 1) ∷ ("admin", 2) ∷ ("owner", 3) ∷ []

unfoldable pub is_platform_role : String → Bool
is_platform_role value = is_some (own_property value platform_role_rank)

unfoldable pub is_org_role : String → Bool
is_org_role value = is_some (own_property value org_role_rank)

platform_permission_min_role : PlatformPermission → PlatformRole
platform_permission_min_role platform_access = PlatformRole.admin
platform_permission_min_role platform_users_manage = PlatformRole.admin
platform_permission_min_role platform_organizations_manage = PlatformRole.admin
platform_permission_min_role platform_configuration_manage = PlatformRole.super
platform_permission_min_role platform_ownership_manage = PlatformRole.owner

org_permission_min_role : OrgPermission → OrgRole
org_permission_min_role resource_read = OrgRole.viewer
org_permission_min_role resource_write = OrgRole.member
org_permission_min_role resource_publish = OrgRole.member
org_permission_min_role resource_delete = OrgRole.member
org_permission_min_role api_key_manage = OrgRole.admin
org_permission_min_role billing_manage = OrgRole.admin
org_permission_min_role integration_manage = OrgRole.admin
org_permission_min_role operations_jobs_manage = OrgRole.admin
org_permission_min_role operations_schedules_manage = OrgRole.admin
org_permission_min_role operations_notifications_manage = OrgRole.admin
org_permission_min_role operations_backups_manage = OrgRole.admin
org_permission_min_role operations_workers_manage = OrgRole.admin
org_permission_min_role operations_routing_manage = OrgRole.admin
org_permission_min_role operations_delivery_manage = OrgRole.admin
org_permission_min_role operations_templates_manage = OrgRole.admin
org_permission_min_role platform_readiness_view = OrgRole.admin
org_permission_min_role platform_environment_view = OrgRole.admin
org_permission_min_role members_manage = OrgRole.admin
org_permission_min_role org_manage = OrgRole.owner
org_permission_min_role selfhost_operate = OrgRole.admin
org_permission_min_role selfhost_upgrade = OrgRole.owner

-- `RANK[role] >= RANK[minRole]` behind the test that `role` is a key; each rank is looked up.
at_least : Option ℕ → Option ℕ → Bool
at_least (some have) (some need) = leb need have
at_least _ _ = false

unfoldable pub has_min_platform_role : Option String → PlatformRole → Bool
unfolding at_least is_platform_role
has_min_platform_role none min_role = false
has_min_platform_role (some role) min_role =
    if is_platform_role role
    then at_least (own_property role platform_role_rank)
        (own_property (platform_role_name min_role) platform_role_rank)
    else false

unfoldable pub has_min_org_role : Option String → OrgRole → Bool
unfolding at_least is_org_role
has_min_org_role none min_role = false
has_min_org_role (some role) min_role =
    if is_org_role role
    then at_least (own_property role org_role_rank)
        (own_property (org_role_name min_role) org_role_rank)
    else false

unfoldable pub can_platform : Option String → PlatformPermission → Bool
unfolding has_min_platform_role platform_permission_min_role
can_platform role permission = has_min_platform_role role (platform_permission_min_role permission)

unfoldable pub can_org : Option String → OrgPermission → Bool
unfolding has_min_org_role org_permission_min_role
can_org role permission = has_min_org_role role (org_permission_min_role permission)

unfoldable pub min_platform_role_for : PlatformPermission → PlatformRole
unfolding platform_permission_min_role
min_platform_role_for permission = platform_permission_min_role permission

unfoldable pub min_org_role_for : OrgPermission → OrgRole
unfolding org_permission_min_role
min_org_role_for permission = org_permission_min_role permission
