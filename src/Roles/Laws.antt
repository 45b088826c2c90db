-- ===== src/Roles/Laws.antt =====
-- packages/utils/src/roles.ts: who holds which permission.
use planisfy.Common.{
  String, ◌≡◌, refl, sym, ap, ◌∙◌, ◌↔◌, ◌⊎◌, inl, inr, Bool, true, false, Option, none, some,
  Bool-cases,
}
use text.Mathlib.Text.{◌==◌ as str_eq}
use text.Mathlib.TextEquality.{eq_iff}
use planisfy.Common.Json.{own_property}
use planisfy.Roles.{
  PlatformRole, OrgRole, PlatformPermission, OrgPermission, platform_access,
  platform_configuration_manage, platform_ownership_manage, resource_read, resource_write,
  resource_publish, resource_delete, org_manage, selfhost_upgrade, platform_role_name,
  org_role_name, platform_role_rank, org_role_rank, is_platform_role, is_org_role,
  has_min_platform_role, has_min_org_role, can_platform, can_org,
}

-- The permissions of each role, listed role by role and not by a minimum.
abbrev pub org_grants : OrgRole → OrgPermission → Bool
org_grants OrgRole.viewer resource_read = true
org_grants OrgRole.viewer _ = false
org_grants OrgRole.member resource_read = true
org_grants OrgRole.member resource_write = true
org_grants OrgRole.member resource_publish = true
org_grants OrgRole.member resource_delete = true
org_grants OrgRole.member _ = false
org_grants OrgRole.admin org_manage = false
org_grants OrgRole.admin selfhost_upgrade = false
org_grants OrgRole.admin _ = true
org_grants OrgRole.owner _ = true

abbrev pub platform_grants : PlatformRole → PlatformPermission → Bool
platform_grants PlatformRole.user _ = false
platform_grants PlatformRole.admin platform_configuration_manage = false
platform_grants PlatformRole.admin platform_ownership_manage = false
platform_grants PlatformRole.admin _ = true
platform_grants PlatformRole.super platform_ownership_manage = false
platform_grants PlatformRole.super _ = true
platform_grants PlatformRole.owner _ = true

-- A string is the spelling of a role, or no key of the rank object.
org_role-cases :
    (s : String) → ((r : OrgRole) × (s ≡ org_role_name r)) ⊎ (own_property s org_role_rank ≡ none)
org_role-cases s = elim (Bool-cases (str_eq s "viewer")) [
  | inl e ↦ inl (OrgRole.viewer, (eq_iff s "viewer").0 e)
  | inr a ↦ elim (Bool-cases (str_eq s "member")) [
    | inl e ↦ inl (OrgRole.member, (eq_iff s "member").0 e)
    | inr b ↦ elim (Bool-cases (str_eq s "admin")) [
      | inl e ↦ inl (OrgRole.admin, (eq_iff s "admin").0 e)
      | inr c ↦ elim (Bool-cases (str_eq s "owner")) [
        | inl e ↦ inl (OrgRole.owner, (eq_iff s "owner").0 e)
        | inr d ↦ inr (rw (a, b, c, d))
      ]
    ]
  ]
]

platform_role-cases :
    (s : String)
    → ((r : PlatformRole) × (s ≡ platform_role_name r)) ⊎ (own_property s platform_role_rank ≡ none)
platform_role-cases s = elim (Bool-cases (str_eq s "USER")) [
  | inl e ↦ inl (PlatformRole.user, (eq_iff s "USER").0 e)
  | inr a ↦ elim (Bool-cases (str_eq s "ADMIN")) [
    | inl e ↦ inl (PlatformRole.admin, (eq_iff s "ADMIN").0 e)
    | inr b ↦ elim (Bool-cases (str_eq s "SUPER")) [
      | inl e ↦ inl (PlatformRole.super, (eq_iff s "SUPER").0 e)
      | inr c ↦ elim (Bool-cases (str_eq s "OWNER")) [
        | inl e ↦ inl (PlatformRole.owner, (eq_iff s "OWNER").0 e)
        | inr d ↦ inr (rw (a, b, c, d))
      ]
    ]
  ]
]

can_org-eq-grants :
    (r : OrgRole) (p : OrgPermission) → can_org (some (org_role_name r)) p ≡ org_grants r p
unfolding can_org
can_org-eq-grants OrgRole.viewer resource_read = refl
can_org-eq-grants OrgRole.member resource_read = refl
can_org-eq-grants OrgRole.admin resource_read = refl
can_org-eq-grants OrgRole.owner resource_read = refl
can_org-eq-grants _ _ = refl

can_platform-eq-grants :
    (r : PlatformRole) (p : PlatformPermission)
    → can_platform (some (platform_role_name r)) p ≡ platform_grants r p
unfolding can_platform
can_platform-eq-grants PlatformRole.user platform_access = refl
can_platform-eq-grants PlatformRole.admin platform_access = refl
can_platform-eq-grants PlatformRole.super platform_access = refl
can_platform-eq-grants PlatformRole.owner platform_access = refl
can_platform-eq-grants _ _ = refl

can_org-none : (p : OrgPermission) → can_org none p ≡ false
unfolding can_org
can_org-none p = refl

can_org_other :
    (s : String) (p : OrgPermission)
    → own_property s org_role_rank ≡ none
    → can_org (some s) p ≡ false
unfolding can_org has_min_org_role is_org_role
can_org_other s p h = rw h

can_platform-none : (p : PlatformPermission) → can_platform none p ≡ false
unfolding can_platform
can_platform-none p = refl

can_platform_other :
    (s : String) (p : PlatformPermission)
    → own_property s platform_role_rank ≡ none
    → can_platform (some s) p ≡ false
unfolding can_platform has_min_platform_role is_platform_role
can_platform_other s p h = rw h

-- `canOrg` accepts exactly the roles that the role-by-role table lists for the permission: the
-- string must spell one of the four roles, null and unknown strings hold nothing, only the owner
-- manages the organization and upgrades, and a viewer can only read.
pub can_org_iff :
    (role : Option String) (p : OrgPermission)
    → (can_org role p ≡ true)
      ↔ ((r : OrgRole) × (role ≡ some (org_role_name r)) × (org_grants r p ≡ true))
can_org_iff none p = (λ h. cc (can_org-none p), λ (r, e, g). cc)
can_org_iff (some s) p = (
  λ h. elim (org_role-cases s) [
    | inl (r, e) ↦ (r, ap some e, sym (can_org-eq-grants r p) ∙ rw e at h)
    | inr unknown ↦ cc (can_org_other s p unknown)
  ],
  λ (r, e, g). rw e (can_org-eq-grants r p ∙ g),
)

-- `canPlatform` accepts exactly the roles that the role-by-role table lists for the permission:
-- unknown strings and plain users hold nothing, only SUPER and OWNER configure the platform, and
-- only OWNER manages its ownership.
pub can_platform_iff :
    (role : Option String) (p : PlatformPermission)
    → (can_platform role p ≡ true)
      ↔ ((r : PlatformRole) × (role ≡ some (platform_role_name r)) × (platform_grants r p ≡ true))
can_platform_iff none p = (λ h. cc (can_platform-none p), λ (r, e, g). cc)
can_platform_iff (some s) p = (
  λ h. elim (platform_role-cases s) [
    | inl (r, e) ↦ (r, ap some e, sym (can_platform-eq-grants r p) ∙ rw e at h)
    | inr unknown ↦ cc (can_platform_other s p unknown)
  ],
  λ (r, e, g). rw e (can_platform-eq-grants r p ∙ g),
)
