-- ===== src/Audit/Store/Made.antt =====
-- The event that a record makes, by what it is given.
use networkops_ai_agent.Audit.Redaction.{redact_sensitive}
use networkops_ai_agent.Audit.Store.{NewEvent, AuditEvent, make_event, required, event_type_eq}
use networkops_ai_agent.Base.{
  String, ℕ, Returns, ◌≡◌, returns_rules, strip, Returns-after, Returns-ok, Returns-bind, ok,
  >>=-eq-ok, ◌∙◌, ap, sym, true, ok_injective, refl, nat_eq, string_eq,
}
use networkops_ai_agent.Values.{dict}

pub make_event-key :
    (given : NewEvent) (event_id : String) (now : ℕ)
    → Returns
        (λ (e : AuditEvent). e.idempotency_key ≡ given.idempotency_key)
        (make_event given event_id now)
unfolding make_event
make_event-key given event_id now = search returns_rules depth 20

required-strip : (text : String) → Returns (λ stripped. stripped ≡ strip text) (required text)
unfolding required
required-strip text = search (Returns-after, Returns-ok)

-- The action and the type of the event that a record makes.
pub make_event-action :
    (given : NewEvent) (event_id : String) (now : ℕ)
    → Returns
        (λ (e : AuditEvent). (e.action ≡ strip given.action) × (e.event_type ≡ given.event_type))
        (make_event given event_id now)
unfolding make_event
make_event-action given event_id now = Returns-after (required given.incident_id) _ (λ _.
    Returns-after (required given.actor) _ (λ _.
      Returns-bind (required given.action) _ (required-strip given.action)
        (λ action same. search (Returns-after, Returns-ok, same) depth 12)))

-- An event stands under the incident that it was given, without the spaces around it.
pub make_event-incident :
    (given : NewEvent) (event_id : String) (now : ℕ) (event : AuditEvent)
    → make_event given event_id now ≡ ok event
    → required given.incident_id ≡ ok event.incident_id
unfolding make_event
make_event-incident given event_id now event h =
    let (incident, is_incident, rest) = >>=-eq-ok (required given.incident_id) _ h in
    let under : Returns (λ (e : AuditEvent). e.incident_id ≡ incident) _ =
      search returns_rules depth 20 in
    is_incident ∙ ap ok (sym (under.at event rest))

-- Details that the redaction keeps are the details of the event.
pub make_event-details :
    (given : NewEvent) (event_id : String) (now : ℕ) (event : AuditEvent)
    → redact_sensitive true (dict given.details) ≡ ok (dict given.details)
    → make_event given event_id now ≡ ok event
    → event.details ≡ given.details
unfolding make_event
make_event-details given event_id now event kept h =
    let keeps : Returns (λ v. v ≡ dict given.details) (redact_sensitive true (dict given.details)) =
      record { at = λ v returned. ok_injective (sym returned ∙ kept) } in
    let returned : Returns (λ (e : AuditEvent). e.details ≡ given.details)
        (make_event given event_id now) =
      Returns-after (required given.incident_id) _ (λ incident.
        Returns-after (required given.actor) _ (λ actor.
          Returns-after (required given.action) _ (λ action.
            Returns-after (required given.outcome) _ (λ outcome.
              Returns-bind (redact_sensitive true (dict given.details)) _ keeps
                (λ v same. rw same (Returns-ok refl)))))) in
    returned.at event h
