-- ===== src/Enterprise/Workflow.antt =====
-- .../enterprise/workflow.py: the node that executes a plan, with its checks of the user's
-- permission and of the policy before the gate of execution.py. The audit log holds the events of
-- authorization; the other events are not read by these checks, and Enterprise/Nodes/Executed has
-- them, with the update of the state.
pub mod Authorized
pub mod Permitted
use networkops_ai_agent.Base.Dict
use networkops_ai_agent.Audit.Store.{actor_id, actor_role, event_type_eq}
use networkops_ai_agent.Auth.Models.{Role, Permission, execute_repair, role_eq, permission_eq}
use networkops_ai_agent.Auth.Rbac.{
  AuthorizationError, UserContext, require_permission, authorizing_role, lacks,
}
use networkops_ai_agent.Base.{
  String, Option, List, none, some, ◌++◌, ◌∷◌, [], Bool, any, contains, false, Result, err, ok,
  if◌then◌else◌, not, or_raise, ℕ, code, ◌>>=◌, ◌>>◌, nat_eq, string_eq,
}
use networkops_ai_agent.Base.Dict.{Dict}
use networkops_ai_agent.Enterprise.Approval.{Error, python_str, as_dict, as_list}
use networkops_ai_agent.Enterprise.Execution.{
  ExecutionResult, held, blocked, Trace, Handlers, execute_actions, decided_as,
}
use networkops_ai_agent.Policy.Engine.{DecisionHash}
use networkops_ai_agent.Policy.Evaluator.{ActionView, evaluate_actions, aggregate_effect}
use networkops_ai_agent.Policy.Models.{
  PolicyError, PolicyEffect, deny, require_approval, allow, effect_eq, operation_eq, risk_eq,
}
use networkops_ai_agent.Policy.Registry.{PolicyRegistry}
use networkops_ai_agent.Values.{Fields, get_field, str, Value, has_field, Items, nil, cons, dict}

-- The exceptions of the checks, by the code that raises them.
pub data WorkflowError : Type 0 where
  not_authorized : AuthorizationError → WorkflowError
  audit_log_required risk_required bad_action_list : WorkflowError
  policy_error : PolicyError → WorkflowError
  execution_error : String → WorkflowError
  judgement_error : Error → WorkflowError
  bad_action : String → WorkflowError
  answer_not_dict : WorkflowError

-- What `_audit_authorization` records.
pub record AuthorizationEvent : Type 0 where
  pub action : String
  pub outcome : String
  pub actor_id : String
  pub actor_role : Option Role
  pub permission : Permission

-- `_rbac_contexts`: by the phase, or none where the configuration has no such key.
abbrev pub Contexts : Type 0
Contexts = Option (Dict String UserContext)

abbrev pub AuditLog : Type 0
AuditLog = Option (List AuthorizationEvent)

abbrev pub record_event : AuditLog → AuthorizationEvent → AuditLog
record_event none event = none
record_event (some events) event = some (events ++ event ∷ [])

abbrev pub authorization_actions : List String
authorization_actions = "authorize_repair_plan" ∷ "authorize_approval" ∷ "authorize_execution" ∷ []

-- `_incident_uses_rbac`
unfoldable pub incident_uses_rbac : AuditLog → Bool
unfolding any contains
incident_uses_rbac none = false
incident_uses_rbac (some events) =
    any (λ (event : AuthorizationEvent). contains authorization_actions event.action) events

abbrev pub context_for : Contexts → String → Option UserContext
context_for none stage = none
context_for (some contexts) stage = Dict.get contexts stage

abbrev first_role : List Role → Option Role
first_role [] = none
first_role (role ∷ roles) = some role

abbrev event_of : String → String → String → Option Role → Permission → AuthorizationEvent
event_of action outcome actor_id actor_role permission = record {
  action = action;
  outcome = outcome;
  actor_id = actor_id;
  actor_role = actor_role;
  permission = permission;
}

-- The end of `_authorize`, by the context of the phase.
unfoldable pub authorize_context :
    Option UserContext → Permission → String → AuditLog → Result WorkflowError (Unit {0}) × AuditLog
unfolding require_permission authorizing_role
authorize_context none permission action log = (
  err (not_authorized (lacks "anonymous" permission)),
  record_event log (event_of action "denied" "anonymous" none permission),
)
authorize_context (some context) permission action log =
    elim (require_permission context permission) [
      | err e ↦ (
        err (not_authorized e),
        record_event log (
            event_of action "denied" context.user.user_id (first_role context.user.roles)
              permission),
      )
      | ok _ ↦ (
        ok tt,
        record_event log (
            event_of action "allowed" context.user.user_id (authorizing_role context permission)
              permission),
      )
    ]

-- `_authorize`
unfoldable pub authorize :
    Contexts → String → Permission → String → AuditLog → Result WorkflowError (Unit {0}) × AuditLog
unfolding authorize_context incident_uses_rbac Dict.get
authorize (some contexts) stage permission action none = (err audit_log_required, none)
authorize (some contexts) stage permission action (some events) =
    authorize_context (Dict.get contexts stage) permission action (some events)
authorize none stage permission action log =
    if not (incident_uses_rbac log)
    then (ok tt, log)
    else authorize_context none permission action log

abbrev lift_authorization {ℓ} : {A : Type ℓ} → Result AuthorizationError A → Result WorkflowError A
lift_authorization (ok a) = ok a
lift_authorization (err e) = err (not_authorized e)

abbrev pub lift_policy {ℓ} : {A : Type ℓ} → Result PolicyError A → Result WorkflowError A
lift_policy (ok a) = ok a
lift_policy (err e) = err (policy_error e)

-- `_policy_execution_context`
unfoldable pub policy_execution_context : Contexts → Result WorkflowError UserContext
unfolding require_permission Dict.get
policy_execution_context contexts = do
  context ←
      or_raise (context_for contexts "execution")
        (not_authorized (lacks "anonymous" execute_repair))
  lift_authorization (require_permission context execute_repair)
  ok context

abbrev str_field : Fields → String → Option String
str_field action key = elim (get_field action key) [ str s ↦ some s | _ ↦ none ]

-- What the policy reads of an action that is a dictionary.
unfoldable pub view_of : (Value → String) → Fields → ActionView
unfolding get_field has_field
view_of render action = record {
  action_id = str_field action "action_id";
  tool_name = str_field action "tool_name";
  target = if has_field action "target" then python_str render (get_field action "target") else "";
}

unfoldable pub views_of : (Value → String) → Items → Result WorkflowError (List ActionView)
unfolding view_of
views_of render nil = ok []
views_of render (cons (dict action) rest) = do
  views ← views_of render rest
  ok (view_of render action ∷ views)
views_of render (cons _ rest) = err bad_action_list

-- A policy engine: its registry and the digest of its decisions.
pub record PolicyEngine : Type 0 where
  pub decision_hash : DecisionHash
  pub registry : PolicyRegistry

abbrev pub level_text : Value → String
level_text (str s) = s
level_text _ = ""

-- The effect of the policy on the proposed actions, for the risk that was judged.
unfoldable pub effect_of :
    (Value → String) → PolicyEngine → Contexts → Fields → ℕ → Result WorkflowError PolicyEffect
unfolding policy_execution_context views_of evaluate_actions aggregate_effect get_field
effect_of render engine contexts state now = do
  context ← policy_execution_context contexts
  risk ← or_raise (as_dict (get_field state "risk_decision")) risk_required
  items ← or_raise (as_list (get_field state "proposed_actions")) bad_action_list
  views ← views_of render items
  evaluations ← lift_policy (
      evaluate_actions engine.decision_hash engine.registry context views
        (level_text (get_field risk "risk_level")) now)
  ok (aggregate_effect evaluations)

-- `_policy_blocked`
abbrev policy_blocked : String → String → ExecutionResult
policy_blocked code message = held blocked code message

-- What the policy leaves of the execution: a result that blocks it, or nothing.
unfoldable pub policy_gate : PolicyEffect → Bool → Option ExecutionResult
policy_gate deny approved =
    some (
      policy_blocked "POLICY_DENIED"
        "Policy denied the proposed execution; no action was executed.")
policy_gate require_approval approved =
    if approved
    then none
    else some (
        policy_blocked "POLICY_APPROVAL_REQUIRED"
          "Policy requires existing human approval before execution.")
policy_gate allow approved = none

abbrev pub NodeOutcome : Type 0
NodeOutcome = Result WorkflowError ExecutionResult × Trace

abbrev pub lift_execution : Result String ExecutionResult × Trace → NodeOutcome
lift_execution (ok r, trace) = (ok r, trace)
lift_execution (err e, trace) = (err (execution_error e), trace)

module _ (render : Value → String) (executor : Option Handlers) (state : Fields) where
  unfoldable pub execute_allowed : Option ExecutionResult → Trace → NodeOutcome
  unfolding execute_actions
  execute_allowed (some result) trace = (ok result, trace)
  execute_allowed none trace = lift_execution (execute_actions render state executor trace)

  unfoldable pub execute_by_effect : Result WorkflowError PolicyEffect → Trace → NodeOutcome
  unfolding policy_gate execute_allowed decided_as
  execute_by_effect (err e) trace = (err e, trace)
  execute_by_effect (ok effect) trace =
      execute_allowed (policy_gate effect (decided_as state "approve")) trace

  unfoldable pub execute_by_policy : Option PolicyEngine → Contexts → ℕ → Trace → NodeOutcome
  unfolding effect_of execute_by_effect execute_allowed
  execute_by_policy none contexts now trace = execute_allowed none trace
  execute_by_policy (some engine) contexts now trace =
      execute_by_effect (effect_of render engine contexts state now) trace

  unfoldable pub execute_authorized :
      Option PolicyEngine → Contexts → ℕ → Result WorkflowError (Unit {0}) → Trace → NodeOutcome
  unfolding execute_by_policy
  execute_authorized engine contexts now (err e) trace = (err e, trace)
  execute_authorized engine contexts now (ok _) trace = execute_by_policy engine contexts now trace

  -- The node `Execute`, with the audit log after its authorization.
  unfoldable pub execute_node :
      Option PolicyEngine → Contexts → AuditLog → ℕ → Trace → NodeOutcome × AuditLog
  unfolding authorize execute_authorized
  execute_node engine contexts log now trace =
      let (allowed, log') =
        authorize contexts "execution" execute_repair "authorize_execution" log in
      (execute_authorized engine contexts now allowed trace, log')
