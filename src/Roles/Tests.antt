-- ===== src/Roles/Tests.antt =====
-- Roles on concrete strings.
use planisfy.Common.{◌≡◌, refl, ◌↔◌, true, false, none, some}
use planisfy.Roles.{
  OrgRole, resource_write, org_manage, platform_configuration_manage, org_role_name, can_org,
  can_platform,
}
use planisfy.Roles.Laws.{org_grants, can_org_iff}

role_tests :
    (can_org (some "member") resource_write ≡ true)
    × (can_org (some "viewer") resource_write ≡ false)
    × (can_org (some "admin") org_manage ≡ false)
    × (can_org (some "toString") resource_write ≡ false)
    × (can_org none resource_write ≡ false)
    × (can_platform (some "SUPER") platform_configuration_manage ≡ true)
    × (can_platform (some "super") platform_configuration_manage ≡ false)
unfolding can_org can_platform
role_tests = (refl, refl, refl, refl, refl, refl, refl)

can_org_iff_example : (can_org (some "member") resource_write ≡ true) ↔ (
    (r : OrgRole) × (some "member" ≡ some (org_role_name r)) × (org_grants r resource_write ≡ true))
can_org_iff_example = can_org_iff (some "member") resource_write
