-- ===== src/Audit/Redaction/Redacted.antt =====
-- What a redaction leaves of a value.
use networkops_ai_agent.Audit.Redaction.{
  is_sensitive_key, redact_sensitive, redact_items, redact_fields, not_json, redacted_text,
}
use networkops_ai_agent.Base.{
  Bool, ◌==◌, false, true, ◌&&◌, Returns, ◌≡◌, Returns-ok, refl, Returns-err, Returns-bind,
  Bool-cases, inl, inr, ap, eq_iff, ok, nat_eq, string_eq,
}
use networkops_ai_agent.Values.{
  Value, str, datetime, list, dict, Items, nil, cons, Fields, end, field, null, bool, number,
}

abbrev shows_redacted : Value → Bool
shows_redacted (str s) = s == "***REDACTED***"
shows_redacted _ = false

-- Values of JSON in which each value under a sensitive key, at any depth, is the redacted text.
unfoldable mutual
  pub is_redacted : Bool → Value → Bool
  is_redacted include_content (datetime t) = false
  is_redacted include_content (list items) = all_redacted include_content items
  is_redacted include_content (dict fields) = fields_redacted include_content fields
  is_redacted include_content _ = true

  pub all_redacted : Bool → Items → Bool
  all_redacted include_content nil = true
  all_redacted include_content (cons v items) =
      is_redacted include_content v && all_redacted include_content items

  pub fields_redacted : Bool → Fields → Bool
  fields_redacted include_content end = true
  fields_redacted include_content (field k v fields) =
      elim (is_sensitive_key k include_content) [
        | true ↦ shows_redacted v
        | false ↦ is_redacted include_content v
      ]
      && fields_redacted include_content fields

mutual
  unfolding redact_sensitive redact_items redact_fields is_redacted all_redacted fields_redacted

  redacts : (ic : Bool) (v : Value) → Returns (λ w. is_redacted ic w ≡ true) (redact_sensitive ic v)
  redacts ic null = Returns-ok refl
  redacts ic (bool b) = Returns-ok refl
  redacts ic (str s) = Returns-ok refl
  redacts ic (number n) = Returns-ok refl
  redacts ic (datetime t) = Returns-err not_json
  redacts ic (list items) =
      Returns-bind (redact_items ic items) _ (redacts_items ic items) (λ ws h. Returns-ok h)
  redacts ic (dict fields) =
      Returns-bind (redact_fields ic fields) _ (redacts_fields ic fields) (λ ws h. Returns-ok h)

  redacts_items :
      (ic : Bool) (items : Items)
      → Returns (λ ws. all_redacted ic ws ≡ true) (redact_items ic items)
  redacts_items ic nil = Returns-ok refl
  redacts_items ic (cons v items) = Returns-bind (redact_sensitive ic v) _ (redacts ic v) (λ w h.
      Returns-bind (redact_items ic items) _ (redacts_items ic items)
        (λ ws hs. Returns-ok (rw (h, hs) refl)))

  redacts_fields :
      (ic : Bool) (fields : Fields)
      → Returns (λ ws. fields_redacted ic ws ≡ true) (redact_fields ic fields)
  redacts_fields ic end = Returns-ok refl
  redacts_fields ic (field k v fields) = elim (Bool-cases (is_sensitive_key k ic)) [
    | inl hides ↦
        rw (hides, redact_fields)
          (Returns-bind (redact_fields ic fields) _ (redacts_fields ic fields)
            (λ ws hs. Returns-ok (rw (hides, hs) refl)))
    | inr shown ↦
        rw (shown, redact_fields)
          (Returns-bind (redact_sensitive ic v) _ (redacts ic v) (λ w h.
            Returns-bind (redact_fields ic fields) _ (redacts_fields ic fields)
              (λ ws hs. Returns-ok (rw (shown, h, hs) refl))))
  ]

shows_redacted-eq : (v : Value) → shows_redacted v ≡ true → v ≡ redacted_text
shows_redacted-eq null h = cc
shows_redacted-eq (bool b) h = cc
shows_redacted-eq (str s) h = ap str ((eq_iff s "***REDACTED***").0 h)
shows_redacted-eq (number n) h = cc
shows_redacted-eq (datetime t) h = cc
shows_redacted-eq (list items) h = cc
shows_redacted-eq (dict fields) h = cc

both : (a b : Bool) → (a && b) ≡ true → (a ≡ true) × (b ≡ true)
both true b h = (refl, h)
both false b h = cc

mutual
  unfolding redact_sensitive redact_items redact_fields is_redacted all_redacted fields_redacted

  redacted_stays : (ic : Bool) (v : Value) → is_redacted ic v ≡ true → redact_sensitive ic v ≡ ok v
  redacted_stays ic null h = refl
  redacted_stays ic (bool b) h = refl
  redacted_stays ic (str s) h = refl
  redacted_stays ic (number n) h = refl
  redacted_stays ic (datetime t) h = cc
  redacted_stays ic (list items) h = rw (items_stay ic items h) refl
  redacted_stays ic (dict fields) h = rw (fields_stay ic fields h) refl

  items_stay :
      (ic : Bool) (items : Items) → all_redacted ic items ≡ true → redact_items ic items ≡ ok items
  items_stay ic nil h = refl
  items_stay ic (cons v items) h =
      let (here, rest) = both (is_redacted ic v) (all_redacted ic items) h in
      rw (redacted_stays ic v here, items_stay ic items rest) refl

  fields_stay :
      (ic : Bool) (fields : Fields)
      → fields_redacted ic fields ≡ true
      → redact_fields ic fields ≡ ok fields
  fields_stay ic end h = refl
  fields_stay ic (field k v fields) h = elim (Bool-cases (is_sensitive_key k ic)) [
    | inl hides ↦
        let (here, rest) = both (shows_redacted v) (fields_redacted ic fields) (rw hides at h) in
        rw (hides, redact_fields, fields_stay ic fields rest, shows_redacted-eq v here) refl
    | inr shown ↦
        let (here, rest) = both (is_redacted ic v) (fields_redacted ic fields) (rw shown at h) in
        rw (shown, redact_fields, redacted_stays ic v here, fields_stay ic fields rest) refl
  ]

-- What a redaction returns has the redacted text under every sensitive key, at any depth of
-- dictionaries and lists, and redacting it again changes nothing.
pub redact_sensitive-Redacted :
    (include_content : Bool) (value redacted : Value)
    → redact_sensitive include_content value ≡ ok redacted
    → (is_redacted include_content redacted ≡ true)
      × (redact_sensitive include_content redacted ≡ ok redacted)
redact_sensitive-Redacted ic value redacted h =
    let shows = (redacts ic value).at redacted h in (shows, redacted_stays ic redacted shows)
