-- ===== src/Audit/Store/Once.antt =====
-- What recording does to the table of events.
use networkops_ai_agent.Audit.Redaction.{integrity_error, AuditError}
use networkops_ai_agent.Audit.Store.{
  AuditTable, AuditEvent, find_key, same_key, insert_event, has_id, has_key, existing, NewEvent,
  make_event, record_event, event_type_eq,
}
use networkops_ai_agent.Audit.Store.Made.{make_event-key}
use networkops_ai_agent.Audit.Store.Unique.{
  IsUnique, IsRow, SameKey, existing-new, any-IsRow, existing-has_key, IsUnique-add, has_id-IsApart,
  existing-SameKey, find_key-some,
}
use networkops_ai_agent.Base.{
  String, ◌≡◌, none, ◌++◌, ◌∷◌, [], if◌then◌else◌, ◌==◌, ◌&&◌, some, refl, arith, ok, any, false,
  raise_if-eq-ok, ◌||◌, Result, ◌⊎◌, All, err, Bool-cases, inl, eq_iff, inr, Option-cases, ℕ, sym,
  ◌∙◌, subst₂, eq_refl, subst, >>=-eq-ok, ap, nat_eq, string_eq,
}

find_key-add :
    (table : AuditTable) (event : AuditEvent) (incident key : String)
    → find_key table incident key ≡ none
    → find_key (table ++ event ∷ []) incident key ≡ (
        if event.incident_id == incident && same_key event.idempotency_key key
        then some event
        else none)
unfolding find_key
find_key-add [] event incident key h = refl
find_key-add (x ∷ table) event incident key h =
    ground (arith, find_key-add table event incident key)

pub insert_event-ok :
    (table : AuditTable) (event made : AuditEvent) (after : AuditTable)
    → insert_event table event ≡ ok (made, after)
    → (any (has_id event.event_id) table ≡ false) × (made ≡ event) × (after ≡ table ++ event ∷ [])
unfolding insert_event
insert_event-ok table event made after h =
    let (fresh, same) =
      raise_if-eq-ok (any (has_id event.event_id) table || has_key table event) integrity_error _
        h in
    (ground arith, cc same, cc same)

-- What a record did with the event that it made: it found the row that stands for it and left the
-- table, or it added the event at the end; or an id that is taken refused it.
abbrev pub Recorded : AuditTable → AuditEvent → Result AuditError (AuditEvent × AuditTable) → Type 0
Recorded table made (ok (event, after)) =
    IsUnique after
    × (((after ≡ table) × IsRow event table × SameKey event made)
        ⊎ ((event ≡ made) × (after ≡ table ++ made ∷ []) × All (λ row. ¬ SameKey made row) table))
Recorded table made (err e) =
    (e ≡ integrity_error)
    × All (λ row. ¬ SameKey made row) table
    × ((row : AuditEvent) × IsRow row table × (row.event_id ≡ made.event_id))

inserted-Recorded :
    (table : AuditTable) (made : AuditEvent)
    → IsUnique table
    → existing table made ≡ none
    → Recorded table made (insert_event table made)
unfolding insert_event
inserted-Recorded table made u new =
    let apart = existing-new table made new in
    elim (Bool-cases (any (has_id made.event_id) table)) [
      | inl taken ↦
          let (row, at, same) = any-IsRow (has_id made.event_id) table taken in
          rw taken (refl, apart, (row, at, (eq_iff row.event_id made.event_id).0 same))
      | inr fresh ↦
          rw (fresh, existing-has_key table made new)
            (
              IsUnique-add table made u (has_id-IsApart table made fresh apart),
              inr (refl, refl, apart),
            )
    ]

stored-Recorded :
    (table : AuditTable) (made : AuditEvent)
    → IsUnique table
    → Recorded table made
        (elim (existing table made) [ some old ↦ ok (old, table) | none ↦ insert_event table made ])
stored-Recorded table made u = elim (Option-cases (existing table made)) [
  | inl new ↦ rw new (inserted-Recorded table made u new)
  | inr (old, found) ↦
      let (at, same) = existing-SameKey table made old found in rw found (u, inl (refl, at, same))
]

-- In a table where no two rows share an id, nor an incident and a key, a record whose event
-- passes its checks keeps it so: it returns the row with the incident and the key of its event
-- and leaves the table where there is one, and else it adds its event at the end; it is refused
-- only where no row has the incident and the key and a row has the new id already.
pub record_event-Recorded :
    (table : AuditTable) (given : NewEvent) (event_id : String) (now : ℕ) (made : AuditEvent)
    → IsUnique table
    → make_event given event_id now ≡ ok made
    → Recorded table made (record_event table given event_id now)
unfolding record_event
record_event-Recorded table given event_id now made u is_made =
    rw is_made (stored-Recorded table made u)

find_key-incident :
    (table : AuditTable) (incident key : String) (event : AuditEvent)
    → find_key table incident key ≡ some event
    → event.incident_id ≡ incident
find_key-incident table incident key event h =
    let (_, passes) = find_key-some table incident key event h in
    (eq_iff event.incident_id incident).0 (ground arith)

existing-keyed :
    (table : AuditTable) (event : AuditEvent) (key : String)
    → event.idempotency_key ≡ some key
    → existing table event ≡ find_key table event.incident_id key
unfolding existing
existing-keyed table event key keyed = rw (keyed, existing) refl

stored-found :
    (table : AuditTable) (event made : AuditEvent) (after : AuditTable) (key : String)
    → event.idempotency_key ≡ some key
    → elim (existing table event) [ some old ↦ ok (old, table) | none ↦ insert_event table event ]
      ≡ ok (made, after)
    → find_key after made.incident_id key ≡ some made
stored-found table event made after key keyed h = elim (Option-cases (existing table event)) [
  | inl new ↦
      let (_, same, grown) = insert_event-ok table event made after (rw new at h) in
      let away = sym (existing-keyed table event key keyed) ∙ new in
      subst₂ (λ (t : AuditTable) (e : AuditEvent). find_key t e.incident_id key ≡ some e)
        (sym grown) (sym same)
        (find_key-add table event event.incident_id key away
          ∙ rw (eq_refl event.incident_id, keyed, eq_refl key) refl)
  | inr (old, found) ↦
      let h' : ◌≡◌ {A = Result AuditError (AuditEvent × AuditTable)} (ok (old, table))
          (ok (made, after)) =
        rw found at h in
      let same : old ≡ made = cc h' in
      let kept : table ≡ after = cc h' in
      let at_key = sym (existing-keyed table event key keyed) ∙ found in
      subst₂ (λ (t : AuditTable) (e : AuditEvent). find_key t e.incident_id key ≡ some e) kept same
        (subst (λ i. find_key table i key ≡ some old)
          (sym (find_key-incident table event.incident_id key old at_key)) at_key)
]

found_old :
    (table : AuditTable) (event old : AuditEvent)
    → existing table event ≡ some old
    → elim (existing table event) [ some e ↦ ok (e, table) | none ↦ insert_event table event ]
      ≡ ok (old, table)
found_old table event old found = rw found refl

-- After an event was recorded under a key, recording again under the same key and incident,
-- whatever else is given, returns the first event and leaves the table as it is, where the event
-- that would be made passes its checks.
pub record_event-again :
    (table after : AuditTable) (given again : NewEvent) (event_id other_id key : String)
    (now later : ℕ) (event other : AuditEvent)
    → record_event table given event_id now ≡ ok (event, after)
    → given.idempotency_key ≡ some key
    → again.idempotency_key ≡ some key
    → make_event again other_id later ≡ ok other
    → other.incident_id ≡ event.incident_id
    → record_event after again other_id later ≡ ok (event, after)
unfolding record_event
record_event-again table after given again event_id other_id key now later event other h keyed
      keyed_again made_again at_incident =
    let (made, is_made, stored) = >>=-eq-ok (make_event given event_id now) _ h in
    let found =
      stored-found table made event after key
        ((make_event-key given event_id now).at made is_made ∙ keyed) stored in
    let found_again =
      existing-keyed after other key
        ((make_event-key again other_id later).at other made_again ∙ keyed_again)
      ∙ (ap (λ i. find_key after i key) at_incident ∙ found) in
    rw made_again (found_old after other event found_again)
