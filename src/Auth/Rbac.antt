-- ===== src/Auth/Rbac.antt =====
-- src/network_agent_rag/auth/rbac.py and context.py: the permissions of roles and the checks.
pub mod Checks
use networkops_ai_agent.Base.{
  Bool, true, false, Option, none, some, List, [], ◌∷◌, ◌++◌, Result, ok, err, contains, String,
  if◌then◌else◌,
}
use networkops_ai_agent.Auth.Models.{
  Role, operator, engineer, embedded_engineer, admin, Permission, view_incident, view_trace,
  create_repair_plan, execute_repair, approve_repair, manage_system, embedded_read,
  embedded_generate, embedded_simulate, permission_eq, User,
}

-- `_ROLE_PERMISSIONS`
unfoldable pub role_permissions : Role → List Permission
role_permissions operator = view_incident ∷ view_trace ∷ []
role_permissions engineer = view_incident ∷ view_trace ∷ create_repair_plan ∷ execute_repair ∷ []
role_permissions embedded_engineer =
    view_incident ∷ view_trace ∷ embedded_read ∷ embedded_generate ∷ embedded_simulate ∷ []
role_permissions admin = view_incident ∷ view_trace ∷ approve_repair ∷ manage_system ∷ []

unfoldable pub permissions_of : List Role → List Permission
unfolding role_permissions
permissions_of [] = []
permissions_of (role ∷ roles) = role_permissions role ++ permissions_of roles

unfoldable pub permissions_for : User → List Permission
unfolding permissions_of
permissions_for user = permissions_of user.roles

unfoldable pub has_permission : User → Permission → Bool
unfolding permissions_for contains
has_permission user permission = contains (permissions_for user) permission

pub record UserContext : Type 0 where
  pub user : User

-- `AuthorizationError(user_id, required_permission)`
pub data AuthorizationError : Type 0 where
  lacks : String → Permission → AuthorizationError

unfoldable pub require_permission : UserContext → Permission → Result AuthorizationError (Unit {0})
unfolding has_permission
require_permission user_context permission =
    if has_permission user_context.user permission
    then ok tt
    else err (lacks user_context.user.user_id permission)

-- The loop over `user_context.user.roles`, each role on a copy of the user.
unfoldable pub first_granting : User → List Role → Permission → Option Role
unfolding has_permission
first_granting user [] permission = none
first_granting user (role ∷ roles) permission =
    let rest = first_granting user roles permission in
    if has_permission (record user { roles = role ∷ [] }) permission then some role else rest

unfoldable pub authorizing_role : UserContext → Permission → Option Role
unfolding first_granting
authorizing_role user_context permission =
    first_granting user_context.user user_context.user.roles permission
