-- ===== src/Governance/Service.antt =====
-- governance/service.py: the risk of a request from the history in the audit log, and its record;
-- and from governance/compliance.py the summary of the risk that a report shows. New ids and the
-- instants are arguments.
pub mod Latest
use networkops_ai_agent.Audit.Store.{
  NewEvent, decision, AuditTable, record_event, AuditEvent, event_type_eq,
}
use networkops_ai_agent.Auth.Models.{Role, role_eq, permission_eq}
use networkops_ai_agent.Auth.Token.{role_value}
use networkops_ai_agent.Base.{
  List, Result, [], err, ◌∷◌, ok, String, length, none, Option, ℕ, some, if◌then◌else◌, leb, ◌==◌,
  raise_if, not, Bool, filter, ◌>>=◌, ◌>>◌, nat_eq, string_eq,
}
use networkops_ai_agent.Governance.Authorization.{
  GovernanceError, role_index_error, query_governance, decision_denied, lift_audit,
  unhashable_level,
}
use networkops_ai_agent.Governance.Events.{Spans, query_events, has_hash}
use networkops_ai_agent.Governance.Models.{repair_failed}
use networkops_ai_agent.Governance.Risk.{
  GovernanceOperation, gov_view, gov_plan, gov_restart, gov_batch, GovernanceRiskLevel, risk_low,
  risk_medium, risk_high, risk_critical, RiskRequest, RiskAssessment, assess,
}
use networkops_ai_agent.Values.{field, str, number, end, Value, get_field}

-- `roles[0]`
abbrev pub first_role : List Role → Result GovernanceError Role
first_role [] = err role_index_error
first_role (role ∷ roles) = ok role

abbrev pub operation_text : GovernanceOperation → String
operation_text gov_view = "view_device_status"
operation_text gov_plan = "create_repair_plan"
operation_text gov_restart = "restart_device"
operation_text gov_batch = "batch_configuration_change"

abbrev pub level_text : GovernanceRiskLevel → String
level_text risk_low = "low"
level_text risk_medium = "medium"
level_text risk_high = "high"
level_text risk_critical = "critical"

-- What `calculate_risk` records of an assessment.
unfoldable pub assessment_event : RiskRequest → Role → RiskAssessment → NewEvent
unfolding role_value
assessment_event request role assessment = record {
  incident_id = request.incident_id;
  event_type = decision;
  actor = "GovernanceService";
  action = "risk_assessment_created";
  outcome = "created";
  details = field "assessment_id" (str assessment.assessment_id) (
      field "actor_id" (str assessment.actor_id) (
        field "actor_role" (str (role_value role)) (
          field "action" (str request.action) (
            field "operation" (str (operation_text request.operation)) (
              field "risk_score" (number assessment.risk_score) (
                field "risk_level" (str (level_text assessment.risk_level)) (
                  field "decision" (str "assessed") (
                    field "severity" (str (level_text assessment.risk_level))
                      (field "reason_count" (number (length assessment.reasons)) end)))))))));
  idempotency_key = none;
}

-- `GovernanceService.calculate_risk`
unfoldable pub calculate_risk :
    (String → String)
    → (String → Option String)
    → Spans
    → AuditTable
    → RiskRequest
    → String
    → ℕ
    → String × ℕ
    → Result GovernanceError (RiskAssessment × AuditTable)
unfolding query_governance query_events assess assessment_event record_event
calculate_risk digest trace_of spans table request assessment_id now (event_id, recorded_at) = do
  denied ←
      query_governance trace_of table none (some request.identity.user_id) none
        (some decision_denied)
  failures ←
      query_events digest spans table (some request.incident_id) none (some repair_failed) none
  role ← first_role request.identity.roles
  let assessment = assess request (length denied) (length failures) assessment_id now
  (stored, after) ←
      lift_audit
        (record_event table (assessment_event request role assessment) event_id recorded_at)
  ok (assessment, after)

pub record ComplianceRiskSummary : Type 0 where
  pub assessment_count : ℕ
  pub latest_score : Option ℕ
  pub latest_level : Option GovernanceRiskLevel

-- The last element, `xs[-1]`, where there is one.
unfoldable pub last {ℓ} : {A : Type ℓ} → List A → Option A
last [] = none
last (x ∷ []) = some x
last (x ∷ y ∷ ys) = last (y ∷ ys)

-- A whole number from 0 to 100.
abbrev pub score_in : Value → Option ℕ
score_in (number n) = if leb n 100 then some n else none
score_in _ = none

abbrev pub level_of_text : String → Option GovernanceRiskLevel
level_of_text text =
    if text == "low"
    then some risk_low
    else if text == "medium"
    then some risk_medium
    else if text == "high"
    then some risk_high
    else if text == "critical"
    then some risk_critical
    else none

abbrev level_in : Value → Option GovernanceRiskLevel
level_in (str text) = level_of_text text
level_in _ = none

-- The level of an event, which a set of texts is asked for.
unfoldable pub event_level : AuditEvent → Result GovernanceError (Option GovernanceRiskLevel)
unfolding get_field
event_level event = do
  raise_if (not (has_hash (get_field event.details "risk_level"))) unhashable_level
  ok (level_in (get_field event.details "risk_level"))

abbrev pub has_action : String → AuditEvent → Bool
has_action action event = event.action == action

-- The assessments among the events of an incident.
unfoldable pub assessments : List AuditEvent → List AuditEvent
unfolding filter
assessments events = filter (has_action "risk_assessment_created") events

-- `_risk_summary`
unfoldable pub risk_summary : List AuditEvent → Result GovernanceError ComplianceRiskSummary
unfolding assessments last event_level get_field filter
risk_summary events = elim (last (assessments events)) [
  | some event ↦ (do
    level ← event_level event
    ok (record {
      assessment_count = length (assessments events);
      latest_score = score_in (get_field event.details "risk_score");
      latest_level = level;
    }))
  | none ↦ elim (last (filter (has_action "evaluate_risk") events)) [
    | some event ↦ (do
      level ← event_level event
      ok (record { assessment_count = 0; latest_score = none; latest_level = level }))
    | none ↦ ok (record { assessment_count = 0; latest_score = none; latest_level = none })
  ]
]
