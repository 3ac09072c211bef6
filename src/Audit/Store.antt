-- ===== src/Audit/Store.antt =====
-- audit/models.py and the log of audit/store.py: a table of events in the order of their sequence
-- numbers, with its two UNIQUE constraints. The table stands for the database; the details go
-- through the text of JSON and come back as the same dictionary. A new event's id and the time are
-- arguments.
pub mod Made
pub mod Unique
pub mod Once
pub mod Grows
use networkops_ai_agent.Audit.Redaction.{
  AuditError, blank_field, details_not_dict, redact_sensitive, integrity_error,
}
use networkops_ai_agent.Base.{
  ℕ, ◌≡◌, arith, Eq, eq_by_rank, String, Option, some, none, if◌then◌else◌, is_blank, strip, List,
  Result, raise_if, ok, err, true, Bool, false, ◌==◌, [], ◌∷◌, ◌&&◌, any, ◌||◌, ◌++◌, filter, ◌>>=◌,
  ◌>>◌, nat_eq, string_eq,
}
use networkops_ai_agent.Values.{Fields, get_field, str, Value, dict}

pub data AuditEventType : Type 0 where
  agent_call tool_call decision approval trace : AuditEventType

abbrev pub event_type_rank : AuditEventType → ℕ
event_type_rank agent_call = 0
event_type_rank tool_call = 1
event_type_rank decision = 2
event_type_rank approval = 3
event_type_rank trace = 4

pub event_type_rank_injective :
    (a b : AuditEventType) → event_type_rank a ≡ event_type_rank b → a ≡ b
event_type_rank_injective a b h = ground arith

instance abbrev pub event_type_eq : Eq AuditEventType
event_type_eq = eq_by_rank event_type_rank event_type_rank_injective

pub record AuditEvent : Type 0 where
  pub event_id : String
  pub incident_id : String
  pub event_type : AuditEventType
  pub actor : String
  pub action : String
  pub outcome : String
  pub details : Fields
  pub created_at : ℕ
  pub idempotency_key : Option String

abbrev text_in : Fields → String → Option String
text_in details name = elim (get_field details name) [ str s ↦ some s | _ ↦ none ]

-- `project_actor_details`
unfoldable pub actor_id : AuditEvent → Option String
unfolding get_field
actor_id event = text_in event.details "actor_id"

unfoldable pub actor_role : AuditEvent → Option String
unfolding get_field
actor_role event = text_in event.details "actor_role"

abbrev stripped : Value → Option String
stripped (str s) = if is_blank s then none else some (strip s)
stripped _ = none

-- `AuditEvent.trace_id`
unfoldable pub trace_id : AuditEvent → Option String
unfolding get_field is_blank strip
trace_id event = elim (stripped (get_field event.details "trace_id")) [
  | some direct ↦ some direct
  | none ↦ elim (get_field event.details "trace_event") [
    | dict nested ↦ stripped (get_field nested "trace_id")
    | _ ↦ none
  ]
]

abbrev pub AuditTable : Type 0
AuditTable = List AuditEvent

-- What a caller of `record` gives.
pub record NewEvent : Type 0 where
  pub incident_id : String
  pub event_type : AuditEventType
  pub actor : String
  pub action : String
  pub outcome : String
  pub details : Fields
  pub idempotency_key : Option String

-- `_required`
unfoldable pub required : String → Result AuditError String
unfolding is_blank strip
required text = do raise_if (is_blank text) blank_field; ok (strip text)

abbrev pub as_fields : Value → Result AuditError Fields
as_fields (dict fields) = ok fields
as_fields _ = err details_not_dict

-- The event that `record` makes.
unfoldable pub make_event : NewEvent → String → ℕ → Result AuditError AuditEvent
unfolding required redact_sensitive
make_event given event_id now = do
  incident ← required given.incident_id
  actor ← required given.actor
  action ← required given.action
  outcome ← required given.outcome
  redacted ← redact_sensitive true (dict given.details)
  details ← as_fields redacted
  ok (record {
    event_id = event_id;
    incident_id = incident;
    event_type = given.event_type;
    actor = actor;
    action = action;
    outcome = outcome;
    details = details;
    created_at = now;
    idempotency_key = given.idempotency_key;
  })

abbrev pub same_key : Option String → String → Bool
same_key none key = false
same_key (some k) key = k == key

-- The first row of an incident with a key.
unfoldable pub find_key : AuditTable → String → String → Option AuditEvent
find_key [] incident key = none
find_key (event ∷ table) incident key =
    let rest = find_key table incident key in
    if event.incident_id == incident && same_key event.idempotency_key key then some event else rest

-- The row that stands for an event already, where it has a key.
unfoldable pub existing : AuditTable → AuditEvent → Option AuditEvent
unfolding find_key
existing table event = elim event.idempotency_key [
  | none ↦ none
  | some key ↦ find_key table event.incident_id key
]

abbrev pub has_id : String → AuditEvent → Bool
has_id id event = event.event_id == id

abbrev pub holds : String → String → AuditEvent → Bool
holds incident key event = event.incident_id == incident && same_key event.idempotency_key key

-- UNIQUE (incident_id, idempotency_key), where an absent key clashes with none.
abbrev pub has_key : AuditTable → AuditEvent → Bool
has_key table event = elim event.idempotency_key [
  | none ↦ false
  | some key ↦ any (holds event.incident_id key) table
]

-- The insertion, which the database refuses for an id that is taken, and for a key that another row
-- of the incident has.
unfoldable pub insert_event : AuditTable → AuditEvent → Result AuditError (AuditEvent × AuditTable)
unfolding any
insert_event table event = do
  raise_if (any (has_id event.event_id) table || has_key table event) integrity_error
  ok (event, table ++ event ∷ [])

-- `SQLiteAuditLog.record`
unfoldable pub record_event :
    AuditTable → NewEvent → String → ℕ → Result AuditError (AuditEvent × AuditTable)
unfolding make_event existing insert_event
record_event table given event_id now = do
  event ← make_event given event_id now
  elim (existing table event) [ some old ↦ ok (old, table) | none ↦ insert_event table event ]

abbrev pub of_type : Option AuditEventType → AuditEvent → Bool
of_type none event = true
of_type (some kind) event = event.event_type == kind

-- `list_all_events`
unfoldable pub list_all_events : AuditTable → Option AuditEventType → List AuditEvent
unfolding filter
list_all_events table kind = filter (of_type kind) table

abbrev pub shows : String → Option AuditEventType → AuditEvent → Bool
shows incident kind event = event.incident_id == incident && of_type kind event

-- `list_events`
unfoldable pub list_events :
    AuditTable → String → Option AuditEventType → Result AuditError (List AuditEvent)
unfolding filter required
list_events table incident_id kind = do
  incident ← required incident_id
  ok (filter (shows incident kind) table)
