-- ===== src/Auth/Rbac/Checks.antt =====
-- What the permission checks decide.
use networkops_ai_agent.Auth.Models.{
  Role, Permission, User, execute_repair, engineer, approve_repair, admin, role_eq, permission_eq,
}
use networkops_ai_agent.Auth.Rbac.{
  permissions_of, role_permissions, has_permission, first_granting, UserContext, authorizing_role,
}
use networkops_ai_agent.Base.{
  List, contains, ◌∷◌, ◌≡◌, ◌||◌, contains-append, [], arith, is_none, not, refl, some, true,
  eq_refl, Option, none, false, ◌==◌, ◌∙◌, ap₂, nat_eq, string_eq,
}

-- A user has what some role grants.
permissions_of-cons :
    (role : Role) (roles : List Role) (p : Permission)
    → contains (permissions_of (role ∷ roles)) p
      ≡ (contains (role_permissions role) p || contains (permissions_of roles) p)
unfolding permissions_of
permissions_of-cons role roles p = contains-append (role_permissions role) (permissions_of roles) p

-- One role alone: `role ++ []`.
has_permission-single :
    (user : User) (role : Role) (p : Permission)
    → has_permission (record user { roles = role ∷ [] }) p ≡ contains (role_permissions role) p
unfolding has_permission
has_permission-single user role p = ground (arith, permissions_of-cons role [] p)

first_granting-none :
    (user : User) (roles : List Role) (p : Permission)
    → is_none (first_granting user roles p) ≡ not (contains (permissions_of roles) p)
unfolding first_granting
first_granting-none user [] p = unfold permissions_of contains in refl
first_granting-none user (role ∷ roles) p = ground (
  arith,
  first_granting-none user roles p,
  permissions_of-cons role roles p,
  has_permission-single user role p,
)

first_granting-some :
    (user : User) (roles : List Role) (p : Permission) (role : Role)
    → first_granting user roles p ≡ some role
    → (contains roles role ≡ true) × (contains (role_permissions role) p ≡ true)
unfolding first_granting contains
first_granting-some user [] p role h = cc
first_granting-some user (r ∷ roles) p role h =
    ground
      (arith, first_granting-some user roles p role, has_permission-single user r p, eq_refl role)

-- What an answer of `authorizing_role` says of the user: with no role, that the permission is
-- lacking; with a role, that the user has the role and the permission, and the role grants it.
abbrev pub Authorizes : User → Permission → Option Role → Type 0
Authorizes user p none = has_permission user p ≡ false
Authorizes user p (some role) =
    (has_permission user p ≡ true)
    × (contains user.roles role ≡ true)
    × (contains (role_permissions role) p ≡ true)

Authorizes-of :
    (user : User) (p : Permission) (found : Option Role)
    → first_granting user user.roles p ≡ found
    → Authorizes user p found
unfolding has_permission
Authorizes-of user p none h = ground (arith, first_granting-none user user.roles p)
Authorizes-of user p (some role) h = (
  ground (arith, first_granting-none user user.roles p),
  (first_granting-some user user.roles p role h).0,
  (first_granting-some user user.roles p role h).1,
)

-- The role that is named as authorizing exists exactly when the user has the permission, and it
-- is then a role of the user that grants it.
authorizing_role-Authorizes :
    (c : UserContext) (p : Permission) → Authorizes c.user p (authorizing_role c p)
unfolding authorizing_role
authorizing_role-Authorizes c p = Authorizes-of c.user p (first_granting c.user c.user.roles p) refl

-- What one role adds, for a permission that `only` alone grants.
module _ (p : Permission) (only : Role)
    (grants : (role : Role) → contains (role_permissions role) p ≡ (role == only)) where
  contains-permissions_of :
      (roles : List Role) → contains (permissions_of roles) p ≡ contains roles only
  unfolding contains
  contains-permissions_of [] = unfold permissions_of in refl
  contains-permissions_of (role ∷ roles) =
      permissions_of-cons role roles p
      ∙ ap₂ (λ a b. a || b) (grants role) (contains-permissions_of roles)

execute_repair_grants :
    (role : Role) → contains (role_permissions role) execute_repair ≡ (role == engineer)
unfolding role_permissions contains
execute_repair_grants role = ground arith

approve_repair_grants :
    (role : Role) → contains (role_permissions role) approve_repair ≡ (role == admin)
unfolding role_permissions contains
approve_repair_grants role = ground arith

-- Executing a repair takes the engineer's role and approving one takes the administrator's, for
-- every user.
pub separation_of_duties :
    (user : User)
    → (has_permission user execute_repair ≡ contains user.roles engineer)
      × (has_permission user approve_repair ≡ contains user.roles admin)
unfolding has_permission
separation_of_duties user = (
  contains-permissions_of execute_repair engineer execute_repair_grants user.roles,
  contains-permissions_of approve_repair admin approve_repair_grants user.roles,
)
