-- ===== src/Enterprise/Workflow/Authorized.antt =====
-- What an authorization that passes says of the user of a phase.
use networkops_ai_agent.Base.Dict
use networkops_ai_agent.Auth.Models.{Permission, role_eq, permission_eq}
use networkops_ai_agent.Auth.Rbac.{has_permission, UserContext, require_permission}
use networkops_ai_agent.Base.{
  String, Bool, none, not, some, false, if◌then◌else◌, ok, ◌≡◌, true, refl, Option, arith, nat_eq,
  string_eq,
}
use networkops_ai_agent.Base.Dict.{Dict}
use networkops_ai_agent.Enterprise.Workflow.{
  Contexts, AuditLog, incident_uses_rbac, authorize_context, authorize,
}

-- The user of a phase has a permission, where the run or its incident uses permissions.
abbrev pub may_act : String → Permission → Contexts → AuditLog → Bool
may_act stage permission none log = not (incident_uses_rbac log)
may_act stage permission (some contexts) log = elim (Dict.get contexts stage) [
  | none ↦ false
  | some context ↦ has_permission context.user permission
]

no_rbac :
    (permission : Permission) (uses : Bool) (action : String) (log : AuditLog)
    → (if not uses then (ok tt, log) else authorize_context none permission action log).0 ≡ ok tt
    → not uses ≡ true
unfolding authorize_context
no_rbac permission true action log h = cc
no_rbac permission false action log h = refl

authorize_context-ok :
    (permission : Permission) (context : Option UserContext) (action : String) (log : AuditLog)
    → (authorize_context context permission action log).0 ≡ ok tt
    → elim context [ none ↦ false | some c ↦ has_permission c.user permission ] ≡ true
unfolding authorize_context require_permission
authorize_context-ok permission none action log h = cc
authorize_context-ok permission (some context) action log h = ground arith

pub authorize-ok :
    (stage : String) (permission : Permission) (contexts : Contexts) (action : String)
    (log : AuditLog)
    → (authorize contexts stage permission action log).0 ≡ ok tt
    → may_act stage permission contexts log ≡ true
unfolding authorize
authorize-ok stage permission (some contexts) action none h = cc
authorize-ok stage permission (some contexts) action (some events) h =
    authorize_context-ok permission (Dict.get contexts stage) action (some events) h
authorize-ok stage permission none action log h =
    no_rbac permission (incident_uses_rbac log) action log h
