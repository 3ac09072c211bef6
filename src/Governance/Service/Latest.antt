-- ===== src/Governance/Service/Latest.antt =====
-- A report shows the risk that was calculated last.
use networkops_ai_agent.Audit.Redaction.{redact_sensitive, is_sensitive_key}
use networkops_ai_agent.Audit.Store.{
  AuditEvent, make_event, shows, AuditTable, NewEvent, list_events, record_event, event_type_eq,
}
use networkops_ai_agent.Audit.Store.Grows.{record_event-keyless}
use networkops_ai_agent.Audit.Store.Made.{
  make_event-action, make_event-details, make_event-incident,
}
use networkops_ai_agent.Auth.Models.{Role, role_eq, permission_eq}
use networkops_ai_agent.Base.{
  List, ◌++◌, ◌∷◌, [], ◌≡◌, some, refl, length, suc, ap, Bool, true, filter, Bool-cases, inl, inr,
  ok, ℕ, ◌≤◌, arith, Option, strip, String, ◌∙◌, none, eq_refl, ok_injective, >>=-eq-ok, subst₂,
  nat_eq, string_eq,
}
use networkops_ai_agent.Governance.Authorization.{query_governance, decision_denied, lift_audit}
use networkops_ai_agent.Governance.Events.{Spans, query_events}
use networkops_ai_agent.Governance.Events.Sync.{lift_audit-ok}
use networkops_ai_agent.Governance.Models.{repair_failed}
use networkops_ai_agent.Governance.Risk.{
  GovernanceRiskLevel, risk_low, risk_medium, risk_high, risk_critical, RiskRequest, RiskAssessment,
  assess,
}
use networkops_ai_agent.Governance.Risk.Scores.{assess-range}
use networkops_ai_agent.Governance.Service.{
  last, assessments, has_action, level_of_text, level_text, event_level, score_in, risk_summary,
  assessment_event, calculate_risk, first_role,
}
use networkops_ai_agent.Values.{get_field, str, number, dict}

last-add {ℓ} : {A : Type ℓ} (xs : List A) (x : A) → last (xs ++ x ∷ []) ≡ some x
unfolding last
last-add [] x = refl
last-add (y ∷ []) x = refl
last-add (y ∷ z ∷ zs) x = last-add (z ∷ zs) x

length-add {ℓ} : {A : Type ℓ} (xs : List A) (x : A) → length (xs ++ x ∷ []) ≡ suc (length xs)
length-add [] x = refl
length-add (y ∷ ys) x = ap suc (length-add ys x)

filter-kept {ℓ} :
    {A : Type ℓ} (p : A → Bool) (xs : List A) (x : A)
    → p x ≡ true
    → filter p (xs ++ x ∷ []) ≡ filter p xs ++ x ∷ []
unfolding filter
filter-kept p [] x kept = rw kept refl
filter-kept p (y ∷ ys) x kept = elim (Bool-cases (p y)) [
  | inl shown ↦ rw (shown, filter-kept p ys x kept) refl
  | inr hidden ↦ rw (hidden, filter-kept p ys x kept) refl
]

assessments-add :
    (events : List AuditEvent) (event : AuditEvent)
    → event.action ≡ "risk_assessment_created"
    → assessments (events ++ event ∷ []) ≡ assessments events ++ event ∷ []
unfolding assessments
assessments-add events event act =
    filter-kept (has_action "risk_assessment_created") events event (rw act refl)

level_of_text-level_text :
    (level : GovernanceRiskLevel) → level_of_text (level_text level) ≡ some level
level_of_text-level_text risk_low = refl
level_of_text-level_text risk_medium = refl
level_of_text-level_text risk_high = refl
level_of_text-level_text risk_critical = refl

event_level-level_text :
    (event : AuditEvent) (level : GovernanceRiskLevel)
    → get_field event.details "risk_level" ≡ str (level_text level)
    → event_level event ≡ ok (some level)
unfolding event_level
event_level-level_text event level levelled =
    rw (event_level, levelled) (ap ok (level_of_text-level_text level))

score_in-number : (score : ℕ) → score ≤ 100 → score_in (number score) ≡ some score
score_in-number score bounded = ground arith

-- The summary of events, by the last of the assessments.
summary-last :
    (events : List AuditEvent) (event : AuditEvent) (score : Option ℕ)
    (level : Option GovernanceRiskLevel)
    → last (assessments events) ≡ some event
    → score_in (get_field event.details "risk_score") ≡ score
    → event_level event ≡ ok level
    → risk_summary events
      ≡ ok (record {
        assessment_count = length (assessments events);
        latest_score = score;
        latest_level = level;
      })
unfolding risk_summary
summary-last events event score level found scored levelled =
    rw (risk_summary, found, levelled, scored) refl

-- The redaction leaves what is recorded of an assessment.
assessment-kept :
    (request : RiskRequest) (role : Role) (assessment : RiskAssessment)
    → redact_sensitive true (dict (assessment_event request role assessment).details)
      ≡ ok (dict (assessment_event request role assessment).details)
unfolding redact_sensitive is_sensitive_key assessment_event
assessment-kept request role assessment = refl

assessment-details :
    (request : RiskRequest) (role : Role) (assessment : RiskAssessment)
    → let details = (assessment_event request role assessment).details in
      (get_field details "risk_score" ≡ number assessment.risk_score)
      × (get_field details "risk_level" ≡ str (level_text assessment.risk_level))
unfolding get_field assessment_event
assessment-details request role assessment = (refl, refl)

stripped : strip "risk_assessment_created" ≡ "risk_assessment_created"
unfolding strip
stripped = refl

assessment-action :
    (request : RiskRequest) (role : Role) (assessment : RiskAssessment) (id : String) (now : ℕ)
    (event : AuditEvent)
    → make_event (assessment_event request role assessment) id now ≡ ok event
    → event.action ≡ "risk_assessment_created"
unfolding assessment_event
assessment-action request role assessment id now event made =
    ((make_event-action (assessment_event request role assessment) id now).at event made).0
    ∙ stripped

summary-recorded :
    (request : RiskRequest) (role : Role) (assessment : RiskAssessment) (id : String) (now : ℕ)
    (event : AuditEvent) (events : List AuditEvent)
    → assessment.risk_score ≤ 100
    → make_event (assessment_event request role assessment) id now ≡ ok event
    → risk_summary (events ++ event ∷ [])
      ≡ ok (record {
        assessment_count = suc (length (assessments events));
        latest_score = some assessment.risk_score;
        latest_level = some assessment.risk_level;
      })
summary-recorded request role assessment id now event events bounded made =
    let given = assessment_event request role assessment in
    let kept =
      make_event-details given id now event (assessment-kept request role assessment) made in
    let (scored, levelled) = assessment-details request role assessment in
    let listed =
      assessments-add events event (assessment-action request role assessment id now event made) in
    summary-last (events ++ event ∷ []) event _ _
      (ap last listed ∙ last-add (assessments events) event)
      (ap (λ d. score_in (get_field d "risk_score")) kept
        ∙ (ap score_in scored ∙ score_in-number _ bounded))
      (event_level-level_text event assessment.risk_level
        (ap (λ d. get_field d "risk_level") kept ∙ levelled))
    ∙ ap
        (λ n. ok (record {
          assessment_count = n;
          latest_score = some assessment.risk_score;
          latest_level = some assessment.risk_level;
        }))
        (ap length listed ∙ length-add (assessments events) event)

shows-own : (event : AuditEvent) → shows event.incident_id none event ≡ true
shows-own event = rw (eq_refl event.incident_id) refl

-- The events of the incident that an event was given for, once it stands at the end.
listed-add :
    (table : AuditTable) (given : NewEvent) (id : String) (now : ℕ) (event : AuditEvent)
    (events : List AuditEvent)
    → make_event given id now ≡ ok event
    → list_events table given.incident_id none ≡ ok events
    → list_events (table ++ event ∷ []) given.incident_id none ≡ ok (events ++ event ∷ [])
unfolding list_events
listed-add table given id now event events made listed =
    let named = make_event-incident given id now event made in
    let before : filter (shows event.incident_id none) table ≡ events =
      ok_injective (rw named at listed) in
    rw
      (
        named,
        list_events,
        filter-kept (shows event.incident_id none) table event (shows-own event),
        before,
      )
      refl

-- The summary of an incident's events counts one assessment more than before and shows this one.
abbrev pub ShowsLatest : AuditTable → String → ℕ → RiskAssessment → Type 0
ShowsLatest table incident before assessment =
    (events : List AuditEvent) × (list_events table incident none ≡ ok events)
    × (risk_summary events
        ≡ ok (record {
          assessment_count = suc before;
          latest_score = some assessment.risk_score;
          latest_level = some assessment.risk_level;
        }))

recorded-summary :
    (request : RiskRequest) (role : Role) (assessment : RiskAssessment) (id : String) (now : ℕ)
    (table after : AuditTable) (event : AuditEvent) (events : List AuditEvent)
    → assessment.risk_score ≤ 100
    → record_event table (assessment_event request role assessment) id now ≡ ok (event, after)
    → list_events table request.incident_id none ≡ ok events
    → ShowsLatest after request.incident_id (length (assessments events)) assessment
unfolding assessment_event
recorded-summary request role assessment id now table after event events bounded h listed =
    let given = assessment_event request role assessment in
    let (made, grown) = record_event-keyless table given id now event after refl h in
    (
      events ++ event ∷ [],
      rw grown (listed-add table given id now event events made listed),
      summary-recorded request role assessment id now event events bounded made,
    )

-- After a risk was calculated, the summary of the events of its incident counts one assessment
-- more than the events before it had, and shows the score and the level of this assessment.
pub calculate_risk-summary :
    (digest : String → String) (trace_of : String → Option String) (spans : Spans)
    (table after : AuditTable) (request : RiskRequest) (assessment_id : String) (now : ℕ)
    (event_id : String) (recorded_at : ℕ) (assessment : RiskAssessment) (events : List AuditEvent)
    → calculate_risk digest trace_of spans table request assessment_id now (event_id, recorded_at)
      ≡ ok (assessment, after)
    → list_events table request.incident_id none ≡ ok events
    → ShowsLatest after request.incident_id (length (assessments events)) assessment
unfolding calculate_risk
calculate_risk-summary digest trace_of spans table after request assessment_id now event_id
      recorded_at assessment events h listed =
    let (denied, _, h₁) =
      >>=-eq-ok
        (query_governance trace_of table none (some request.identity.user_id) none
          (some decision_denied))
        _ h in
    let (failures, _, h₂) =
      >>=-eq-ok
        (query_events digest spans table (some request.incident_id) none (some repair_failed) none)
        _ h₁ in
    let (role, _, h₃) = >>=-eq-ok (first_role request.identity.roles) _ h₂ in
    let ((stored, grown), recorded, same) =
      >>=-eq-ok
        (lift_audit (
          record_event table
            (assessment_event request role
              (assess request (length denied) (length failures) assessment_id now))
            event_id recorded_at))
        _ h₃ in
    let made : assess request (length denied) (length failures) assessment_id now ≡ assessment =
      cc same in
    let written : grown ≡ after = cc same in
    subst₂ (λ a t. ShowsLatest t request.incident_id (length (assessments events)) a) made written
      (recorded-summary request role
        (assess request (length denied) (length failures) assessment_id now) event_id recorded_at
        table grown stored events
        (assess-range request (length denied) (length failures) assessment_id now).0
        (lift_audit-ok _ (stored, grown) recorded) listed)
