-- ===== src/Governance/Events.antt =====
-- src/network_agent_rag/governance/events.py: security events, projected from the audit log and the
-- spans of traces. The digest of an event's id (the first 24 digits of SHA-256) and the text of an
-- instant are parameters, as are the spans of the trace store.
pub mod Sync
use networkops_ai_agent.Base.Dict
use networkops_ai_agent.Audit.Store.{
  AuditEvent, tool_call, actor_id, decision, AuditTable, list_events, list_all_events, NewEvent,
  record_event, event_type_eq,
}
use networkops_ai_agent.Base.{
  String, Bool, ℕ, Option, List, ◌∷◌, [], true, false, if◌then◌else◌, ◌==◌, none, some, contains,
  ◌&&◌, ◌++◌, ◌||◌, ◌<>◌, Result, ok, or_else, is_empty, raise_if, not, any, ltb, nat_beq, text_le,
  filter, sorted, ◌>>=◌, ◌>>◌, nat_eq, string_eq,
}
use networkops_ai_agent.Base.Dict.{Dict}
use networkops_ai_agent.Enterprise.Execution.Order.{is_failed}
use networkops_ai_agent.Governance.Authorization.{
  GovernanceEvent, decision_eq, decision_denied, GovernanceError, checked_id,
  project_governance_event, unhashable_level, events_for, lift_audit,
}
use networkops_ai_agent.Governance.Models.{
  SecurityEventType, GovernanceSeverity, high_risk_operation, severity_high, severity_critical,
  authentication_failed, severity_medium, authorization_denied, policy_violation, approval_required,
  repair_failed, session_revoked, SecurityEvent, security_type_value, audit_source, trace_source,
  severity_value, security_source_value,
}
use networkops_ai_agent.Policy.Models.{identifier, effect_eq, operation_eq, risk_eq}
use networkops_ai_agent.Values.{Value, str, get_field, list, dict, field, end}

-- Of a span of a trace, what the projection reads.
pub record TraceSpan : Type 0 where
  pub span_id : String
  pub incident_id : String
  pub is_execution : Bool
  pub is_failed : Bool
  pub name : String
  pub started_at : ℕ
  pub ended_at : Option ℕ

abbrev authentication_failures : List String
authentication_failures =
    "authenticate_failed" ∷ "api_key_authenticate_failed" ∷ "refresh_token_failed" ∷ []

abbrev Mapping : Type 0
Mapping = SecurityEventType × GovernanceSeverity

abbrev only_if : Bool → List Mapping → List Mapping
only_if true mappings = mappings
only_if false mappings = []

-- A high or critical level is an operation of high risk.
abbrev high_risk : Value → List Mapping
high_risk (str level) =
    if level == "high"
    then (high_risk_operation, severity_high) ∷ []
    else if level == "critical"
    then (high_risk_operation, severity_critical) ∷ []
    else []
high_risk _ = []

abbrev is_denied : Option GovernanceEvent → Bool
is_denied none = false
is_denied (some event) = decision_eq event.decision decision_denied

-- The list `mappings` of `_from_audit`.
unfoldable pub mappings_of : Option GovernanceEvent → AuditEvent → List Mapping
unfolding contains get_field
mappings_of authorization event =
    only_if (contains authentication_failures event.action && event.outcome == "denied")
      ((authentication_failed, severity_medium) ∷ [])
    ++ (only_if (is_denied authorization) ((authorization_denied, severity_medium) ∷ [])
        ++ (only_if (event.action == "policy_violation") ((policy_violation, severity_high) ∷ [])
            ++ (only_if (event.action == "policy_denied" && event.outcome == "denied")
                  ((policy_violation, severity_high) ∷ [])
                ++ (only_if
                      (event.action == "policy_approval_required"
                        && event.outcome == "approval_required")
                      ((approval_required, severity_medium) ∷ [])
                    ++ (only_if
                          (event.action == "evaluate_risk" && event.outcome == "approval_required")
                          ((approval_required, severity_medium)
                            ∷ high_risk (get_field event.details "risk_level"))
                        ++ (only_if (event.action == "risk_assessment_created")
                              (high_risk (get_field event.details "risk_level"))
                            ++ (only_if
                                  (event.event_type == tool_call
                                    && event.actor == "Execute"
                                    && event.outcome == "failed")
                                  ((repair_failed, severity_high) ∷ [])
                                ++ only_if (event.action == "session_revoked")
                                    ((session_revoked, severity_medium) ∷ []))))))))

-- A level is looked up in a set, which refuses one that has no hash.
abbrev pub reads_level : AuditEvent → Bool
reads_level event =
    (event.action == "evaluate_risk" && event.outcome == "approval_required")
    || event.action == "risk_assessment_created"

abbrev pub has_hash : Value → Bool
has_hash (list _) = false
has_hash (dict _) = false
has_hash _ = true

-- `_event_id`
unfoldable pub event_id_of : (String → String) → String → String → String → String
event_id_of digest source source_id kind =
    "security-" <> digest (source <> (":" <> (source_id <> (":" <> kind))))

-- The checks of the model of a security event.
unfoldable pub checked_event : SecurityEvent → Result GovernanceError SecurityEvent
unfolding identifier
checked_event event = do
  event_id ← checked_id event.event_id
  incident ← checked_id event.incident_id
  source_event ← checked_id event.source_event_id
  actor ← checked_id event.actor_id
  action ← checked_id event.action
  decided ← checked_id event.decision
  ok (record event {
    event_id = event_id;
    incident_id = incident;
    source_event_id = source_event;
    actor_id = actor;
    action = action;
    decision = decided;
  })

abbrev actor_of : AuditEvent → String
actor_of event =
    let named = or_else (actor_id event) "" in if is_empty named then event.actor else named

module _ (digest : String → String) where
  unfoldable pub events_of : AuditEvent → List Mapping → Result GovernanceError (List SecurityEvent)
  unfolding checked_event event_id_of actor_id
  events_of event [] = ok []
  events_of event ((kind, severity) ∷ mappings) = do
    first ← checked_event (record {
      event_id = event_id_of digest "audit" event.event_id (security_type_value kind);
      incident_id = event.incident_id;
      source_event_id = event.event_id;
      event_type = kind;
      actor_id = actor_of event;
      source = audit_source;
      action = event.action;
      decision = event.outcome;
      severity = severity;
      timestamp = event.created_at;
    })
    rest ← events_of event mappings
    ok (first ∷ rest)

  -- `_from_audit`, which looks up no trace
  unfoldable pub from_audit : AuditEvent → Result GovernanceError (List SecurityEvent)
  unfolding events_of mappings_of project_governance_event get_field
  from_audit event = do
    authorization ← project_governance_event (λ incident. none) event
    raise_if (reads_level event && not (has_hash (get_field event.details "risk_level")))
        unhashable_level
    events_of event (mappings_of authorization event)

  -- `_from_trace`
  unfoldable pub from_trace : TraceSpan → Result GovernanceError SecurityEvent
  unfolding checked_event event_id_of
  from_trace span = checked_event (record {
    event_id = event_id_of digest "trace" span.span_id "repair_failed";
    incident_id = span.incident_id;
    source_event_id = span.span_id;
    event_type = repair_failed;
    actor_id = "system";
    source = trace_source;
    action = span.name;
    decision = "failed";
    severity = severity_high;
    timestamp = or_else span.ended_at span.started_at;
  })

  unfoldable pub from_audits : List AuditEvent → Result GovernanceError (List SecurityEvent)
  unfolding from_audit
  from_audits [] = ok []
  from_audits (event ∷ events) = do
    first ← from_audit event
    rest ← from_audits events
    ok (first ++ rest)

  unfoldable pub from_traces : List TraceSpan → Result GovernanceError (List SecurityEvent)
  unfolding from_trace
  from_traces [] = ok []
  from_traces (span ∷ spans) = do
    first ← from_trace span
    rest ← from_traces spans
    ok (first ∷ rest)

abbrev is_repair : SecurityEvent → Bool
is_repair event = elim event.event_type [ repair_failed ↦ true | _ ↦ false ]

-- A failed execution of an incident whose audit has no failed repair.
abbrev pub counts_span : List SecurityEvent → TraceSpan → Bool
counts_span projected span =
    not (any (λ (e : SecurityEvent). is_repair e && e.incident_id == span.incident_id) projected)
    && span.is_execution
    && span.is_failed

-- `{event.event_id: event for event in projected}`
unfoldable pub index_events :
    Dict String SecurityEvent → List SecurityEvent → Dict String SecurityEvent
unfolding Dict.put
index_events index [] = index
index_events index (event ∷ events) = index_events (Dict.put index event.event_id event) events

abbrev pub event_le : SecurityEvent → SecurityEvent → Bool
event_le a b =
    ltb a.timestamp b.timestamp
    || (nat_beq a.timestamp b.timestamp && text_le a.event_id b.event_id)

-- The spans of the trace store: of an incident, or all of them.
abbrev pub Spans : Type 0
Spans = Option String → List TraceSpan

-- The events of the audit log with those of the spans, each id once and in order.
unfoldable pub merged :
    (String → String)
    → List TraceSpan
    → List SecurityEvent
    → Result GovernanceError (List SecurityEvent)
unfolding from_traces any filter sorted index_events Dict.values
merged digest spans audited = do
  traced ← from_traces digest (filter (counts_span audited) spans)
  ok (sorted event_le (Dict.values (index_events [] (audited ++ traced))))

-- `SecurityEventCenter._project`
unfoldable pub project :
    (String → String)
    → Spans
    → AuditTable
    → Option String
    → Result GovernanceError (List SecurityEvent)
unfolding from_audits merged list_events list_all_events
project digest spans table incident = do
  events ← events_for table incident none
  audited ← from_audits digest events
  merged digest (spans incident) audited

abbrev wants {ℓ} : {A : Type ℓ} → Option A → (A → Bool) → Bool
wants none test = true
wants (some a) test = test a

abbrev pub matches_query :
    Option String → Option SecurityEventType → Option GovernanceSeverity → SecurityEvent → Bool
matches_query actor kind severity event =
    wants actor (λ a. event.actor_id == a)
    && wants kind (λ k. security_type_value event.event_type == security_type_value k)
    && wants severity (λ s. severity_value event.severity == severity_value s)

-- `SecurityEventCenter.query`
unfoldable pub query_events :
    (String → String)
    → Spans
    → AuditTable
    → Option String
    → Option String
    → Option SecurityEventType
    → Option GovernanceSeverity
    → Result GovernanceError (List SecurityEvent)
unfolding project filter
query_events digest spans table incident actor kind severity = do
  events ← project digest spans table incident
  ok (filter (matches_query actor kind severity) events)

-- What `sync` records of a security event.
unfoldable pub created_event : (ℕ → String) → SecurityEvent → NewEvent
created_event isoformat event = record {
  incident_id = event.incident_id;
  event_type = decision;
  actor = "GovernanceService";
  action = "security_event_created";
  outcome = "created";
  details = field "security_event_id" (str event.event_id) (
      field "source" (str (security_source_value event.source)) (
        field "source_event_id" (str event.source_event_id) (
          field "event_type" (str (security_type_value event.event_type)) (
            field "actor_id" (str event.actor_id) (
              field "action" (str event.action) (
                field "decision" (str event.decision) (
                  field "severity" (str (severity_value event.severity))
                    (field "source_timestamp" (str (isoformat event.timestamp)) end))))))));
  idempotency_key = some (
      "security-event:"
      <> (security_source_value event.source
          <> (":" <> (event.source_event_id <> (":" <> security_type_value event.event_type)))));
}

-- New ids and instants, by the table that is written to.
abbrev pub Supply : Type 0
Supply = AuditTable → String × ℕ

unfoldable pub record_all :
    (ℕ → String) → Supply → AuditTable → List SecurityEvent → Result GovernanceError AuditTable
unfolding created_event
record_all isoformat supply table [] = ok table
record_all isoformat supply table (event ∷ events) = do
  (stored, after) ←
      lift_audit
        (record_event table (created_event isoformat event) (supply table).0 (supply table).1)
  record_all isoformat supply after events

-- `SecurityEventCenter.sync`
unfoldable pub sync :
    (String → String)
    → (ℕ → String)
    → Supply
    → Spans
    → AuditTable
    → Option String
    → Result GovernanceError (List SecurityEvent × AuditTable)
unfolding project record_all record_event
sync digest isoformat supply spans table incident = do
  events ← project digest spans table incident
  after ← record_all isoformat supply table events
  ok (events, after)
