-- ===== src/Audit/Store/Grows.antt =====
-- How a record lets the table grow.
use networkops_ai_agent.Audit.Redaction.{AuditError}
use networkops_ai_agent.Audit.Store.{
  AuditTable, AuditEvent, existing, insert_event, NewEvent, record_event, make_event, event_type_eq,
}
use networkops_ai_agent.Audit.Store.Made.{make_event-key}
use networkops_ai_agent.Audit.Store.Once.{insert_event-ok}
use networkops_ai_agent.Base.{
  some, ok, none, ◌≡◌, ◌⊎◌, ◌++◌, ◌∷◌, [], Option-cases, inl, inr, Result, String, ℕ, >>=-eq-ok,
  refl, ◌∙◌, ap, sym, nat_eq, string_eq,
}

stored_grows :
    (table : AuditTable) (event made : AuditEvent) (after : AuditTable)
    → elim (existing table event) [ some old ↦ ok (old, table) | none ↦ insert_event table event ]
      ≡ ok (made, after)
    → (after ≡ table) ⊎ (after ≡ table ++ event ∷ [])
stored_grows table event made after h = elim (Option-cases (existing table event)) [
  | inl new ↦ let (_, _, grown) = insert_event-ok table event made after (rw new at h) in inr grown
  | inr (old, found) ↦
      let h' : ◌≡◌ {A = Result AuditError (AuditEvent × AuditTable)} (ok (old, table))
          (ok (made, after)) =
        rw found at h in
      inl (cc h')
]

-- A record leaves the table or adds the event that it made.
pub record_event-grows :
    (table : AuditTable) (given : NewEvent) (event_id : String) (now : ℕ) (event : AuditEvent)
    (after : AuditTable)
    → record_event table given event_id now ≡ ok (event, after)
    → (made : AuditEvent) × (make_event given event_id now ≡ ok made)
      × ((after ≡ table) ⊎ (after ≡ table ++ made ∷ []))
unfolding record_event
record_event-grows table given event_id now event after h =
    let (made, is_made, stored) = >>=-eq-ok (make_event given event_id now) _ h in
    (made, is_made, stored_grows table made event after stored)

existing-keyless :
    (table : AuditTable) (event : AuditEvent)
    → event.idempotency_key ≡ none
    → existing table event ≡ none
unfolding existing
existing-keyless table event keyless = rw (keyless, existing) refl

-- A record without a key adds the event that it made.
pub record_event-keyless :
    (table : AuditTable) (given : NewEvent) (event_id : String) (now : ℕ) (event : AuditEvent)
    (after : AuditTable)
    → given.idempotency_key ≡ none
    → record_event table given event_id now ≡ ok (event, after)
    → (make_event given event_id now ≡ ok event) × (after ≡ table ++ event ∷ [])
unfolding record_event existing
record_event-keyless table given event_id now event after keyless h =
    let (made, is_made, stored) = >>=-eq-ok (make_event given event_id now) _ h in
    let no_key = (make_event-key given event_id now).at made is_made ∙ keyless in
    let (_, same, grown) =
      insert_event-ok table made event after (rw (existing-keyless table made no_key) at stored) in
    (is_made ∙ ap ok (sym same), grown ∙ ap (λ e. table ++ e ∷ []) (sym same))
