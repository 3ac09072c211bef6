-- ===== src/Governance/Events/Sync.antt =====
-- What a sync of the security events leaves of the projection.
use networkops_ai_agent.Audit.Redaction.{AuditError}
use networkops_ai_agent.Audit.Store.{
  AuditEvent, decision, AuditTable, shows, list_events, list_all_events, of_type, required,
  make_event, record_event, event_type_eq,
}
use networkops_ai_agent.Audit.Store.Grows.{record_event-grows}
use networkops_ai_agent.Audit.Store.Made.{make_event-action}
use networkops_ai_agent.Base.{
  String, ◌≡◌, ok, [], refl, List, ◌++◌, ◌∷◌, Bool, filter, ◌⊎◌, Bool-cases, inl, inr, Option,
  Result, none, ◌>>=◌, err, some, strip, ℕ, ◌∙◌, sym, >>=-assoc, ap, ok_injective, >>=-eq-ok, subst,
  nat_eq, string_eq,
}
use networkops_ai_agent.Governance.Authorization.{
  project_governance_event, authorization_of, GovernanceError, events_for, lift_audit,
}
use networkops_ai_agent.Governance.Events.{
  from_audit, mappings_of, from_audits, created_event, Spans, project, merged, Supply, record_all,
  matches_query, sync, query_events,
}
use networkops_ai_agent.Governance.Models.{SecurityEvent, SecurityEventType, GovernanceSeverity}

-- The record of a security event is none itself.
silent :
    (digest : String → String) (event : AuditEvent)
    → event.action ≡ "security_event_created"
    → event.event_type ≡ decision
    → from_audit digest event ≡ ok []
unfolding from_audit mappings_of project_governance_event authorization_of
silent digest event act kind = rw (kind, act) refl

from_audits-add :
    (digest : String → String) (events : List AuditEvent) (event : AuditEvent)
    → from_audit digest event ≡ ok []
    → from_audits digest (events ++ event ∷ []) ≡ from_audits digest events
unfolding from_audits
from_audits-add digest [] event h = rw h refl
from_audits-add digest (x ∷ events) event h = rw (from_audits-add digest events event h) refl

filter-add {ℓ} :
    {A : Type ℓ} (p : A → Bool) (xs : List A) (x : A)
    → (filter p (xs ++ x ∷ []) ≡ filter p xs ++ x ∷ []) ⊎ (filter p (xs ++ x ∷ []) ≡ filter p xs)
unfolding filter
filter-add p [] x = elim (Bool-cases (p x)) [
  | inl kept ↦ inl (rw kept refl)
  | inr dropped ↦ inr (rw dropped refl)
]
filter-add p (y ∷ xs) x = elim (filter-add p xs x) [
  | inl kept ↦ elim (Bool-cases (p y)) [
    | inl shown ↦ inl (rw (kept, shown) refl)
    | inr hidden ↦ inl (rw (kept, hidden) refl)
  ]
  | inr dropped ↦ inr (rw dropped refl)
]

filtered-add :
    (digest : String → String) (p : AuditEvent → Bool) (table : AuditTable) (event : AuditEvent)
    → from_audit digest event ≡ ok []
    → from_audits digest (filter p (table ++ event ∷ [])) ≡ from_audits digest (filter p table)
filtered-add digest p table event h = elim (filter-add p table event) [
  | inl kept ↦ rw kept (from_audits-add digest (filter p table) event h)
  | inr dropped ↦ rw dropped refl
]

-- The events that an incident's audit log gives, before the spans.
audited :
    (String → String) → AuditTable → Option String → Result GovernanceError (List SecurityEvent)
audited digest table incident = events_for table incident none >>= from_audits digest

shown_add :
    (digest : String → String) (incident : Result AuditError String) (table : AuditTable)
    (event : AuditEvent)
    → from_audit digest event ≡ ok []
    → (lift_audit (incident >>= λ i. ok (filter (shows i none) (table ++ event ∷ [])))
        >>= from_audits digest)
      ≡ (lift_audit (incident >>= λ i. ok (filter (shows i none) table)) >>= from_audits digest)
shown_add digest (err e) table event h = refl
shown_add digest (ok i) table event h = filtered-add digest (shows i none) table event h

audited-add :
    (digest : String → String) (table : AuditTable) (incident : Option String) (event : AuditEvent)
    → from_audit digest event ≡ ok []
    → audited digest (table ++ event ∷ []) incident ≡ audited digest table incident
unfolding audited list_events list_all_events
audited-add digest table none event h = filtered-add digest (of_type none) table event h
audited-add digest table (some incident) event h =
    shown_add digest (required incident) table event h

unpadded : strip "security_event_created" ≡ "security_event_created"
unfolding strip
unpadded = refl

-- The event made of a security event.
made_silent :
    (digest : String → String) (isoformat : ℕ → String) (event : SecurityEvent) (id : String)
    (now : ℕ) (made : AuditEvent)
    → make_event (created_event isoformat event) id now ≡ ok made
    → from_audit digest made ≡ ok []
unfolding created_event
made_silent digest isoformat event id now made h =
    let (act, kind) = (make_event-action (created_event isoformat event) id now).at made h in
    silent digest made (act ∙ unpadded) kind

project-audited :
    (digest : String → String) (spans : Spans) (table : AuditTable) (incident : Option String)
    → project digest spans table incident
      ≡ (audited digest table incident >>= λ events. merged digest (spans incident) events)
unfolding project audited
project-audited digest spans table incident = sym (
    >>=-assoc (events_for table incident none) (from_audits digest)
      (merged digest (spans incident)))

project-add :
    (digest : String → String) (spans : Spans) (table : AuditTable) (incident : Option String)
    (event : AuditEvent)
    → from_audit digest event ≡ ok []
    → project digest spans (table ++ event ∷ []) incident ≡ project digest spans table incident
project-add digest spans table incident event h =
    project-audited digest spans (table ++ event ∷ []) incident
    ∙ (ap (λ events. events >>= merged digest (spans incident))
          (audited-add digest table incident event h)
        ∙ sym (project-audited digest spans table incident))

pub lift_audit-ok {ℓ} :
    {A : Type ℓ} (step : Result AuditError A) (a : A) → lift_audit step ≡ ok a → step ≡ ok a
lift_audit-ok (ok b) a h = ap ok (ok_injective h)
lift_audit-ok (err e) a h = cc

record_event-project :
    (digest : String → String) (isoformat : ℕ → String) (spans : Spans) (event : SecurityEvent)
    (id : String) (now : ℕ) (table : AuditTable) (stored : AuditEvent) (after : AuditTable)
    (incident : Option String)
    → record_event table (created_event isoformat event) id now ≡ ok (stored, after)
    → project digest spans after incident ≡ project digest spans table incident
record_event-project digest isoformat spans event id now table stored after incident h =
    let (made, is_made, grown) =
      record_event-grows table (created_event isoformat event) id now stored after h in
    elim grown [
      | inl kept ↦ rw kept refl
      | inr added ↦ rw added (
          project-add digest spans table incident made
            (made_silent digest isoformat event id now made is_made))
    ]

record_all-project :
    (digest : String → String) (isoformat : ℕ → String) (supply : Supply) (spans : Spans)
    (events : List SecurityEvent) (table after : AuditTable) (incident : Option String)
    → record_all isoformat supply table events ≡ ok after
    → project digest spans after incident ≡ project digest spans table incident
unfolding record_all
record_all-project digest isoformat supply spans [] table after incident h =
    rw (ok_injective h) refl
record_all-project digest isoformat supply spans (event ∷ events) table after incident h =
    let ((stored, second), recorded, rest) =
      >>=-eq-ok
        (lift_audit
          (record_event table (created_event isoformat event) (supply table).0 (supply table).1))
        _ h in
    record_all-project digest isoformat supply spans events second after incident rest
    ∙ record_event-project digest isoformat spans event (supply table).0 (supply table).1 table
        stored second incident (lift_audit-ok _ (stored, second) recorded)

filter-none : (events : List SecurityEvent) → filter (matches_query none none none) events ≡ events
unfolding filter
filter-none [] = refl
filter-none (event ∷ events) = rw (filter-none events) refl

-- A sync that returns leaves the answer of every query of the security events as it was, and the
-- query of its incident without further filters then returns what the sync returned.
pub sync-query_events :
    (digest : String → String) (isoformat : ℕ → String) (supply : Supply) (spans : Spans)
    (table after : AuditTable) (incident : Option String) (events : List SecurityEvent)
    (asked actor : Option String) (kind : Option SecurityEventType)
    (severity : Option GovernanceSeverity)
    → sync digest isoformat supply spans table incident ≡ ok (events, after)
    → (query_events digest spans after asked actor kind severity
        ≡ query_events digest spans table asked actor kind severity)
      × (query_events digest spans after incident none none none ≡ ok events)
unfolding sync query_events
sync-query_events digest isoformat supply spans table after incident events asked actor kind
      severity h =
    let (projected, is_projected, recorded) = >>=-eq-ok (project digest spans table incident) _ h in
    let (written, is_written, same) =
      >>=-eq-ok (record_all isoformat supply table projected) _ recorded in
    let unchanged : (i : Option String)
        → project digest spans after i ≡ project digest spans table i =
      λ i.
        subst (λ t. project digest spans t i ≡ project digest spans table i) (cc same)
          (record_all-project digest isoformat supply spans projected table written i is_written) in
    (
      ap (λ r. r >>= λ found. ok (filter (matches_query actor kind severity) found))
          (unchanged asked),
      ap (λ r. r >>= λ found. ok (filter (matches_query none none none) found))
            (unchanged incident ∙ is_projected)
          ∙ ap ok (filter-none projected ∙ cc same),
    )
