-- ===== src/Governance/Models.antt =====
-- src/network_agent_rag/governance/models.py: security events.
use networkops_ai_agent.Audit.Store.{event_type_eq}
use networkops_ai_agent.Base.{String, ℕ, nat_eq, string_eq}

pub data SecurityEventType : Type 0 where
  authentication_failed authorization_denied policy_violation : SecurityEventType
  approval_required high_risk_operation repair_failed session_revoked : SecurityEventType

abbrev pub security_type_value : SecurityEventType → String
security_type_value authentication_failed = "authentication_failed"
security_type_value authorization_denied = "authorization_denied"
security_type_value policy_violation = "policy_violation"
security_type_value approval_required = "approval_required"
security_type_value high_risk_operation = "high_risk_operation"
security_type_value repair_failed = "repair_failed"
security_type_value session_revoked = "session_revoked"

pub data GovernanceSeverity : Type 0 where
  severity_low severity_medium severity_high severity_critical : GovernanceSeverity

abbrev pub severity_value : GovernanceSeverity → String
severity_value severity_low = "low"
severity_value severity_medium = "medium"
severity_value severity_high = "high"
severity_value severity_critical = "critical"

pub data SecurityEventSource : Type 0 where
  audit_source trace_source : SecurityEventSource

abbrev pub security_source_value : SecurityEventSource → String
security_source_value audit_source = "audit"
security_source_value trace_source = "trace"

pub record SecurityEvent : Type 0 where
  pub event_id : String
  pub incident_id : String
  pub source_event_id : String
  pub event_type : SecurityEventType
  pub actor_id : String
  pub source : SecurityEventSource
  pub action : String
  pub decision : String
  pub severity : GovernanceSeverity
  pub timestamp : ℕ
