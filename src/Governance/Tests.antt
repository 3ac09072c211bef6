-- ===== src/Governance/Tests.antt =====
-- The theorems of governance at a concrete request and a concrete log.
use networkops_ai_agent.Audit.Redaction.{is_sensitive_key}
use networkops_ai_agent.Audit.Store.{
  AuditEvent, tool_call, decision, AuditTable, list_events, event_type_eq,
}
use networkops_ai_agent.Auth.Models.{operator, role_eq, permission_eq}
use networkops_ai_agent.Base.{
  none, ◌∷◌, [], ◌≤◌, arith, le_refl, String, ℕ, if◌then◌else◌, nat_beq, length, Result, ok, err,
  List, ◌≡◌, refl, some, Option, nat_eq, string_eq,
}
use networkops_ai_agent.Governance.Events.{Spans, Supply, sync, query_events}
use networkops_ai_agent.Governance.Events.Sync.{sync-query_events}
use networkops_ai_agent.Governance.Models.{SecurityEvent, repair_failed}
use networkops_ai_agent.Governance.Risk.{RiskRequest, gov_restart, assess, RiskAssessment}
use networkops_ai_agent.Governance.Risk.Scores.{
  level_rank, assess_mono, least_level, most_level, assess-range,
}
use networkops_ai_agent.Governance.Service.{calculate_risk, assessments}
use networkops_ai_agent.Governance.Service.Latest.{ShowsLatest, calculate_risk-summary}
use networkops_ai_agent.Values.{end, field, str}

abbrev restart_request : RiskRequest
restart_request = record {
  incident_id = "i1";
  identity = record { user_id = "u1"; username = "ann"; email = none; roles = operator ∷ [] };
  action = "restart";
  operation = gov_restart;
  devices = "r1" ∷ [];
}

assess_mono-restart :
    ((assess restart_request 0 1 "a1" 0).risk_score
      ≤ (assess (record restart_request { devices = "r1" ∷ "r2" ∷ [] }) 3 1 "a1" 0).risk_score)
    × (level_rank (assess restart_request 0 1 "a1" 0).risk_level
        ≤ level_rank
            (assess (record restart_request { devices = "r1" ∷ "r2" ∷ [] }) 3 1 "a1" 0).risk_level)
assess_mono-restart =
    assess_mono restart_request ("r1" ∷ "r2" ∷ []) 0 3 1 1 "a1" 0 (omega arith) (omega arith)
      (le_refl 1)

assess-range_restart :
    ((assess restart_request 2 9 "a1" 0).risk_score ≤ 100)
    × (level_rank (least_level restart_request.operation)
        ≤ level_rank (assess restart_request 2 9 "a1" 0).risk_level)
    × (level_rank (assess restart_request 2 9 "a1" 0).risk_level
        ≤ level_rank (most_level restart_request.operation))
assess-range_restart = assess-range restart_request 2 9 "a1" 0

abbrev failed_repair : AuditEvent
failed_repair = record {
  event_id = "e1";
  incident_id = "i1";
  event_type = tool_call;
  actor = "Execute";
  action = "restart_device";
  outcome = "failed";
  details = end;
  created_at = 4;
  idempotency_key = none;
}

abbrev denied_approval : AuditEvent
denied_approval = record {
  event_id = "e2";
  incident_id = "i1";
  event_type = decision;
  actor = "Approval";
  action = "authorize_approval";
  outcome = "denied";
  details =
      field "permission" (str "APPROVE_REPAIR")
        (field "actor_id" (str "u1") (field "actor_role" (str "Operator") end));
  created_at = 3;
  idempotency_key = none;
}

abbrev governed : AuditTable
governed = failed_repair ∷ denied_approval ∷ []

abbrev no_spans : Spans
no_spans incident = []

abbrev same_text : String → String
same_text text = text

abbrev day : ℕ → String
day t = "2026-01-01"

-- An id by the number of rows.
abbrev counted : Supply
counted table = (if nat_beq (length table) 2 then "x" else "y", 9)

abbrev with_default {ℓ κ} : {E : Type ℓ} {A : Type κ} → Result E A → A → A
with_default (ok a) b = a
with_default (err e) b = b

abbrev synced : List SecurityEvent × AuditTable
synced = with_default (sync same_text day counted no_spans governed none) ([], [])

sync-governed : (length synced.0 ≡ 2) × (length synced.1 ≡ 4)
unfolding sync is_sensitive_key
sync-governed = (refl, refl)

sync-synced : sync same_text day counted no_spans governed none ≡ ok synced
unfolding sync is_sensitive_key
sync-synced = refl

sync-query_events_example :
    (query_events same_text no_spans synced.1 (some "i1") none (some repair_failed) none
      ≡ query_events same_text no_spans governed (some "i1") none (some repair_failed) none)
    × (query_events same_text no_spans synced.1 none none none none ≡ ok synced.0)
sync-query_events_example =
    sync-query_events same_text day counted no_spans governed synced.1 none synced.0 (some "i1")
      none (some repair_failed) none sync-synced

abbrev no_trace : String → Option String
no_trace incident = none

abbrev calculated : RiskAssessment × AuditTable
calculated =
    with_default
      (calculate_risk same_text no_trace no_spans governed restart_request "a1" 7 ("e3", 7))
      (assess restart_request 0 0 "" 0, [])

calculate_risk-calculated :
    calculate_risk same_text no_trace no_spans governed restart_request "a1" 7 ("e3", 7)
    ≡ ok calculated
unfolding calculate_risk is_sensitive_key
calculate_risk-calculated = refl

-- A restart after a denial and a failure: 60, 5 and 5.
calculated-score : (calculated.0.risk_score ≡ 70) × (length calculated.1 ≡ 3)
unfolding calculate_risk is_sensitive_key
calculated-score = (refl, refl)

listed-governed : list_events governed "i1" none ≡ ok governed
unfolding list_events
listed-governed = refl

calculate_risk-summary_example :
    ShowsLatest calculated.1 restart_request.incident_id
      (length (assessments governed))
      calculated.0
calculate_risk-summary_example =
    calculate_risk-summary same_text no_trace no_spans governed calculated.1 restart_request "a1" 7
      "e3" 7 calculated.0 governed calculate_risk-calculated listed-governed
