-- ===== src/Audit/Tests.antt =====
-- The theorems of the audit log at concrete events.
use networkops_ai_agent.Audit.Redaction.{redacted_text, redact_sensitive, is_sensitive_key}
use networkops_ai_agent.Audit.Redaction.Redacted.{is_redacted, redact_sensitive-Redacted}
use networkops_ai_agent.Audit.Store.{
  NewEvent, approval, AuditEvent, record_event, list_events, make_event, event_type_eq,
}
use networkops_ai_agent.Audit.Store.Once.{Recorded, record_event-Recorded, record_event-again}
use networkops_ai_agent.Base.{true, ◌≡◌, ok, refl, some, [], ◌∷◌, nat_eq, string_eq}
use networkops_ai_agent.Values.{Fields, field, str, dict, number, end}

abbrev secret_details : Fields
secret_details = field "API-Key" (str "k-1") (
    field "device"
      (dict (field "SNMP community string" (str "public") (field "port" (number 161) end)))
      (field "token_count" (number 7) end))

abbrev hidden_details : Fields
hidden_details = field "API-Key" redacted_text (
    field "device"
      (dict (field "SNMP community string" redacted_text (field "port" (number 161) end)))
      (field "token_count" (number 7) end))

redact-secret : redact_sensitive true (dict secret_details) ≡ ok (dict hidden_details)
unfolding redact_sensitive is_sensitive_key
redact-secret = refl

redact_sensitive-Redacted_example :
    (is_redacted true (dict hidden_details) ≡ true)
    × (redact_sensitive true (dict hidden_details) ≡ ok (dict hidden_details))
redact_sensitive-Redacted_example =
    redact_sensitive-Redacted true (dict secret_details) (dict hidden_details) redact-secret

abbrev request_event : NewEvent
request_event = record {
  incident_id = " inc-7 ";
  event_type = approval;
  actor = "system";
  action = "request";
  outcome = "pending";
  details = secret_details;
  idempotency_key = some "approval-request:d1";
}

abbrev stored_event : AuditEvent
stored_event = record {
  event_id = "e1";
  incident_id = "inc-7";
  event_type = approval;
  actor = "system";
  action = "request";
  outcome = "pending";
  details = hidden_details;
  created_at = 5;
  idempotency_key = some "approval-request:d1";
}

abbrev other_event : AuditEvent
other_event = record stored_event {
  event_id = "e2";
  outcome = "repeated";
  details = end;
  created_at = 9;
}

abbrev repeated_event : NewEvent
repeated_event = record request_event { incident_id = "inc-7"; outcome = "repeated"; details = end }

record_event-first : record_event [] request_event "e1" 5 ≡ ok (stored_event, stored_event ∷ [])
unfolding record_event is_sensitive_key
record_event-first = refl

list_events-first : list_events (stored_event ∷ []) "inc-7" (some approval) ≡ ok (stored_event ∷ [])
unfolding list_events
list_events-first = refl

make-repeated : make_event repeated_event "e2" 9 ≡ ok other_event
unfolding make_event
make-repeated = refl

record_event-Recorded_example :
    Recorded
      (stored_event ∷ [])
      other_event
      (record_event (stored_event ∷ []) repeated_event "e2" 9)
record_event-Recorded_example =
    record_event-Recorded (stored_event ∷ []) repeated_event "e2" 9 other_event (tt, tt)
      make-repeated

record_event-again_example :
    record_event (stored_event ∷ []) repeated_event "e2" 9 ≡ ok (stored_event, stored_event ∷ [])
record_event-again_example =
    record_event-again [] (stored_event ∷ []) request_event repeated_event "e1" "e2"
      "approval-request:d1" 5 9 stored_event other_event record_event-first refl refl make-repeated
      refl
