-- ===== src/Audit/Store/Unique.antt =====
-- The two UNIQUE constraints of the table of events, and the look-ups that keep them.
use networkops_ai_agent.Audit.Store.{
  AuditEvent, AuditTable, find_key, holds, existing, has_key, same_key, has_id, event_type_eq,
}
use networkops_ai_agent.Base.{
  ◌≡◌, String, some, ◌≢◌, [], ◌∷◌, All, ◌⊎◌, sym, ◌++◌, All-append, Bool, any, false, arith, true,
  Bool-cases, inl, refl, inr, none, subst, Option-cases, Option, ap, eq_iff, eq_refl, All-map, ◌==◌,
  nat_eq, string_eq,
}

-- Two events of one incident with one key.
abbrev pub SameKey : AuditEvent → AuditEvent → Type 0
SameKey a b =
    (a.incident_id ≡ b.incident_id)
    × ((key : String) × (a.idempotency_key ≡ some key) × (b.idempotency_key ≡ some key))

-- Two events with different ids, and not of one incident with one key.
abbrev pub IsApart : AuditEvent → AuditEvent → Type 0
IsApart a b = (a.event_id ≢ b.event_id) × ¬ SameKey a b

-- No two rows share an id, nor an incident and a key.
abbrev pub IsUnique : AuditTable → Type 0
IsUnique [] = Unit
IsUnique (event ∷ table) = All (IsApart event) table × IsUnique table

-- The event is a row of the table.
abbrev pub IsRow : AuditEvent → AuditTable → Type 0
IsRow event [] = ⊥
IsRow event (row ∷ table) = (event ≡ row) ⊎ IsRow event table

SameKey-comm : (a b : AuditEvent) → SameKey a b → SameKey b a
SameKey-comm a b (incident, (key, first, second)) = (sym incident, (key, second, first))

IsApart-comm : (a b : AuditEvent) → IsApart a b → IsApart b a
IsApart-comm a b (ids, keys) = (λ same. ids (sym same), λ same. keys (SameKey-comm b a same))

pub IsUnique-add :
    (table : AuditTable) (event : AuditEvent)
    → IsUnique table
    → All (IsApart event) table
    → IsUnique (table ++ event ∷ [])
IsUnique-add [] event u apart = (tt, tt)
IsUnique-add (x ∷ table) event (u, us) (apart, aparts) = (
  All-append (IsApart x) table (event ∷ []) u (IsApart-comm event x apart, tt),
  IsUnique-add table event us aparts,
)

-- Where no row has the property tested, every row fails the test.
any-none :
    (p : AuditEvent → Bool) (table : AuditTable)
    → any p table ≡ false
    → All (λ row. p row ≡ false) table
unfolding any
any-none p [] h = tt
any-none p (x ∷ table) h = (ground arith, any-none p table (ground arith))

-- A row that passes a test.
pub any-IsRow :
    (p : AuditEvent → Bool) (table : AuditTable)
    → any p table ≡ true
    → (row : AuditEvent) × IsRow row table × (p row ≡ true)
unfolding any
any-IsRow p [] h = cc
any-IsRow p (x ∷ table) h = elim (Bool-cases (p x)) [
  | inl found ↦ (x, inl refl, found)
  | inr other ↦ let (row, at, passes) = any-IsRow p table (rw other at h) in (row, inr at, passes)
]

pub find_key-none :
    (table : AuditTable) (incident key : String)
    → find_key table incident key ≡ none
    → any (holds incident key) table ≡ false
unfolding find_key any
find_key-none [] incident key h = refl
find_key-none (x ∷ table) incident key h = elim (Bool-cases (holds incident key x)) [
  | inl found ↦ cc (rw found at h)
  | inr other ↦ rw other (find_key-none table incident key (rw other at h))
]

pub find_key-some :
    (table : AuditTable) (incident key : String) (event : AuditEvent)
    → find_key table incident key ≡ some event
    → IsRow event table × (holds incident key event ≡ true)
unfolding find_key
find_key-some [] incident key event h = cc
find_key-some (x ∷ table) incident key event h = elim (Bool-cases (holds incident key x)) [
  | inl found ↦
      let same : x ≡ event = cc (rw found at h) in
      (inl (sym same), subst (λ (e : AuditEvent). holds incident key e ≡ true) same found)
  | inr other ↦
      let (at, passes) = find_key-some table incident key event (rw other at h) in (inr at, passes)
]

pub existing-has_key :
    (table : AuditTable) (event : AuditEvent)
    → existing table event ≡ none
    → has_key table event ≡ false
unfolding existing
existing-has_key table event h = elim (Option-cases event.idempotency_key) [
  | inl keyless ↦ rw keyless refl
  | inr (k, keyed) ↦ rw keyed (find_key-none table event.incident_id k (rw (keyed, existing) at h))
]

-- A row that holds an incident and a key has them.
same_key-some :
    (given : Option String) (key : String) → same_key given key ≡ true → given ≡ some key
same_key-some none key h = cc
same_key-some (some k) key h = ap some ((eq_iff k key).0 h)

holds-SameKey :
    (row event : AuditEvent) (key : String)
    → event.idempotency_key ≡ some key
    → holds event.incident_id key row ≡ true
    → SameKey row event
holds-SameKey row event key keyed h = (
  (eq_iff row.incident_id event.incident_id).0 (ground arith),
  (key, same_key-some row.idempotency_key key (ground arith), keyed),
)

SameKey-holds :
    (row event : AuditEvent) (key : String)
    → event.idempotency_key ≡ some key
    → SameKey event row
    → holds event.incident_id key row ≡ true
SameKey-holds row event key keyed (incident, (k, here, there)) =
    let same : k ≡ key = cc in
    rw (sym incident, eq_refl event.incident_id, there, same, eq_refl key) refl

-- The event that is found is a row of the same incident and key.
pub existing-SameKey :
    (table : AuditTable) (event old : AuditEvent)
    → existing table event ≡ some old
    → IsRow old table × SameKey old event
unfolding existing
existing-SameKey table event old h = elim (Option-cases event.idempotency_key) [
  | inl keyless ↦ cc (rw (keyless, existing) at h)
  | inr (k, keyed) ↦
      let (at, passes) = find_key-some table event.incident_id k old (rw (keyed, existing) at h) in
      (at, holds-SameKey old event k keyed passes)
]

no_true : {b : Bool} → b ≡ true → b ≡ false → ⊥
no_true h k = cc

All-same :
    (P : AuditEvent → Type 0) (table : AuditTable) → ((row : AuditEvent) → P row) → All P table
All-same P [] h = tt
All-same P (x ∷ table) h = (h x, All-same P table h)

no_holds-SameKey :
    (table : AuditTable) (event : AuditEvent) (key : String)
    → event.idempotency_key ≡ some key
    → All (λ row. holds event.incident_id key row ≡ false) table
    → All (λ row. ¬ SameKey event row) table
no_holds-SameKey table event key keyed none_holds =
    All-map (λ row fails same. no_true (SameKey-holds row event key keyed same) fails) table
      none_holds

keyless_apart : (event row : AuditEvent) → event.idempotency_key ≡ none → ¬ SameKey event row
keyless_apart event row keyless (_, (k, keyed, _)) = cc

-- Where nothing is found, no row has the incident and the key.
pub existing-new :
    (table : AuditTable) (event : AuditEvent)
    → existing table event ≡ none
    → All (λ row. ¬ SameKey event row) table
unfolding existing
existing-new table event h = elim (Option-cases event.idempotency_key) [
  | inl keyless ↦
      All-same (λ row. ¬ SameKey event row) table (λ row. keyless_apart event row keyless)
  | inr (k, keyed) ↦ no_holds-SameKey table event k keyed (
      any-none (holds event.incident_id k) table
        (find_key-none table event.incident_id k (rw (keyed, existing) at h)))
]

pub has_id-IsApart :
    (table : AuditTable) (event : AuditEvent)
    → any (has_id event.event_id) table ≡ false
    → All (λ row. ¬ SameKey event row) table
    → All (IsApart event) table
unfolding any
has_id-IsApart [] event fresh apart = tt
has_id-IsApart (x ∷ table) event fresh (keys, apart) =
    let differs : (x.event_id == event.event_id) ≡ false = ground arith in
    (
      (λ same. no_true ((eq_iff x.event_id event.event_id).1 (sym same)) differs, keys),
      has_id-IsApart table event (ground arith) apart,
    )
