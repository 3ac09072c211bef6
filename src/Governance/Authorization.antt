-- ===== src/Governance/Authorization.antt =====
-- src/network_agent_rag/observability/governance.py: the authorization decisions among the events
-- of the audit log. The trace of an incident is looked up by a parameter.
use networkops_ai_agent.Base.Dict
use networkops_ai_agent.Audit.Redaction.{AuditError}
use networkops_ai_agent.Audit.Store.{
  decision, trace_id, AuditEvent, AuditTable, AuditEventType, list_all_events, list_events,
  event_type_eq,
}
use networkops_ai_agent.Auth.Models.{
  Permission, view_incident, view_trace, create_repair_plan, approve_repair, execute_repair,
  manage_system, all_permissions, role_eq, permission_eq,
}
use networkops_ai_agent.Base.{
  Bool, true, false, String, ℕ, Option, ◌∷◌, [], List, none, if◌then◌else◌, ◌==◌, some, Result, ok,
  err, ◌&&◌, filter, ◌>>=◌, nat_eq, string_eq,
}
use networkops_ai_agent.Base.Dict.{Dict}
use networkops_ai_agent.Enterprise.Approval.{as_text}
use networkops_ai_agent.Packs.{permission_value}
use networkops_ai_agent.Policy.Models.{identifier, effect_eq, operation_eq, risk_eq}
use networkops_ai_agent.Values.{Value, str, Fields, has_field, get_field, null}

pub data GovernanceSource : Type 0 where
  from_api from_workflow from_system : GovernanceSource

pub data GovernanceDecision : Type 0 where
  decision_allowed decision_denied : GovernanceDecision

abbrev pub decision_eq : GovernanceDecision → GovernanceDecision → Bool
decision_eq decision_allowed decision_allowed = true
decision_eq decision_denied decision_denied = true
decision_eq _ _ = false

pub record GovernanceEvent : Type 0 where
  pub event_id : String
  pub timestamp : ℕ
  pub incident_id : String
  pub actor_id : String
  pub actor_role : Option String
  pub permission : Permission
  pub decision : GovernanceDecision
  pub source : GovernanceSource
  pub trace_id : Option String

-- `_AUTHORIZATION_ACTIONS`
abbrev pub authorization_table : Dict String (GovernanceSource × Permission)
authorization_table =
    ("authorize_api_view_incident", (from_api, view_incident))
    ∷ ("authorize_api_view_trace", (from_api, view_trace))
    ∷ ("authorize_api_repair_plan", (from_api, create_repair_plan))
    ∷ ("authorize_api_approval", (from_api, approve_repair))
    ∷ ("authorize_api_execution", (from_api, execute_repair))
    ∷ ("authorize_api_system", (from_api, manage_system))
    ∷ ("authorize_repair_plan", (from_workflow, create_repair_plan))
    ∷ ("authorize_approval", (from_workflow, approve_repair))
    ∷ ("authorize_execution", (from_workflow, execute_repair))
    ∷ []

-- `Permission(value)`
unfoldable pub parse_permission : List Permission → Value → Option Permission
parse_permission [] value = none
parse_permission (p ∷ ps) (str s) =
    let rest = parse_permission ps (str s) in if permission_value p == s then some p else rest
parse_permission (p ∷ ps) value = none

-- `GovernanceDecision(outcome)`
abbrev pub parse_decision : String → Option GovernanceDecision
parse_decision outcome =
    if outcome == "allowed"
    then some decision_allowed
    else if outcome == "denied"
    then some decision_denied
    else none

abbrev pub permission_field : Fields → Value
permission_field details =
    if has_field details "permission"
    then get_field details "permission"
    else get_field details "required_permission"

-- The role of the actor, which is a text or None.
abbrev role_of : Value → Option (Option String)
role_of null = some none
role_of (str s) = some (some s)
role_of _ = none

abbrev guard : Bool → Option (Unit {0})
guard true = some tt
guard false = none

infixl 5 ◌>>=?◌
abbrev ◌>>=?◌ {ℓ κ} : {A : Type ℓ} {B : Type κ} → Option A → (A → Option B) → Option B
none >>=? next = none
some a >>=? next = next a

-- The decision that an event records, before the checks of its model.
unfoldable pub authorization_of : (String → Option String) → AuditEvent → Option GovernanceEvent
unfolding Dict.get parse_permission get_field has_field as_text trace_id
authorization_of trace_of event = guard (event.event_type == decision) >>=? λ _.
    Dict.get authorization_table event.action >>=? λ expected.
    parse_permission all_permissions (permission_field event.details) >>=? λ permission.
    parse_decision event.outcome >>=? λ decided. guard (permission == expected.1) >>=? λ _.
    as_text (get_field event.details "actor_id") >>=? λ actor.
    role_of (get_field event.details "actor_role") >>=? λ role. some (record {
      event_id = event.event_id;
      timestamp = event.created_at;
      incident_id = event.incident_id;
      actor_id = actor;
      actor_role = role;
      permission = permission;
      decision = decided;
      source = expected.0;
      trace_id = elim (trace_id event) [
        | some direct ↦ some direct
        | none ↦ trace_of event.incident_id
      ];
    })

-- What is raised: for an identifier that its model refuses, a risk level that is a list or a
-- dictionary, or an identity without roles, or by the log.
pub data GovernanceError : Type 0 where
  bad_identifier_in_event unhashable_level role_index_error : GovernanceError
  audit_failed : AuditError → GovernanceError

abbrev pub checked_id : String → Result GovernanceError String
checked_id text = elim (identifier text) [
  | ok stripped ↦ ok stripped
  | err e ↦ err bad_identifier_in_event
]

abbrev checked_option : Option String → Result GovernanceError (Option String)
checked_option none = ok none
checked_option (some text) = do stripped ← checked_id text; ok (some stripped)

unfoldable pub validated : GovernanceEvent → Result GovernanceError GovernanceEvent
unfolding identifier
validated event = do
  event_id ← checked_id event.event_id
  incident ← checked_id event.incident_id
  actor ← checked_id event.actor_id
  trace_id ← checked_option event.trace_id
  ok (record event {
    event_id = event_id;
    incident_id = incident;
    actor_id = actor;
    trace_id = trace_id;
  })

-- `project_governance_event`
unfoldable pub project_governance_event :
    (String → Option String) → AuditEvent → Result GovernanceError (Option GovernanceEvent)
unfolding authorization_of validated
project_governance_event trace_of event = elim (authorization_of trace_of event) [
  | none ↦ ok none
  | some decided ↦ (do governance ← validated decided; ok (some governance))
]

abbrev wanted {ℓ} : {A : Type ℓ} → Option A → (A → Bool) → Bool
wanted none test = true
wanted (some a) test = test a

-- The filters of `GovernanceQuery.query`
abbrev pub selects :
    Option String → Option Permission → Option GovernanceDecision → GovernanceEvent → Bool
selects actor permission decided event =
    wanted actor (λ a. event.actor_id == a)
    && wanted permission (λ p. event.permission == p)
    && wanted decided (λ d. decision_eq event.decision d)

abbrev prepend {ℓ} : {A : Type ℓ} → Option A → List A → List A
prepend none xs = xs
prepend (some x) xs = x ∷ xs

unfoldable pub project_all :
    (String → Option String) → List AuditEvent → Result GovernanceError (List GovernanceEvent)
unfolding project_governance_event
project_all trace_of [] = ok []
project_all trace_of (event ∷ events) = do
  first ← project_governance_event trace_of event
  rest ← project_all trace_of events
  ok (prepend first rest)

abbrev pub lift_audit {ℓ} : {A : Type ℓ} → Result AuditError A → Result GovernanceError A
lift_audit (ok a) = ok a
lift_audit (err e) = err (audit_failed e)

-- The events of an incident, or of all of them.
abbrev pub events_for :
    AuditTable → Option String → Option AuditEventType → Result GovernanceError (List AuditEvent)
events_for table none kind = ok (list_all_events table kind)
events_for table (some incident) kind = lift_audit (list_events table incident kind)

-- `GovernanceQuery.query`
unfoldable pub query_governance :
    (String → Option String)
    → AuditTable
    → Option String
    → Option String
    → Option Permission
    → Option GovernanceDecision
    → Result GovernanceError (List GovernanceEvent)
unfolding project_all list_events list_all_events filter
query_governance trace_of table incident actor permission decided = do
  events ← events_for table incident (some decision)
  projected ← project_all trace_of events
  ok (filter (selects actor permission decided) projected)
