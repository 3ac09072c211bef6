-- ===== src/Audit/Redaction.antt =====
-- audit/store.py: which keys are sensitive, and the redaction of the values under them.
pub mod Redacted
use networkops_ai_agent.Base.{
  ℕ, Bool, leb, ◌&&◌, ◌||◌, String, Char, zero, suc, if◌then◌else◌, code, ◌-◌, nat_beq, false, true,
  is_empty, ◌==◌, List, ◌∷◌, [], any, contains, occurs_in, Result, ok, err, ◌>>=◌, ◌>>◌, nat_eq,
  string_eq,
}
use networkops_ai_agent.Values.{
  Value, str, null, bool, number, datetime, list, dict, Items, nil, cons, Fields, end, field,
}

-- The characters that `[^a-z0-9]+` leaves.
abbrev pub is_plain : ℕ → Bool
is_plain c = (leb 97 c && leb c 122) || (leb 48 c && leb c 57)

-- The letter at a place of the alphabet.
letter_at : String → ℕ → Char
letter_at String.[] n = "z"
letter_at (String.◌∷◌ c text) zero = c
letter_at (String.◌∷◌ c text) (suc n) = letter_at text n

-- `text.lower()`, as far as it meets a-z: the capital letters, the Kelvin sign and the dotted
-- capital I, which becomes an i with a mark. What else it changes is no plain character before or
-- after.
unfoldable pub lower_plain : String → String
unfolding letter_at
lower_plain String.[] = String.[]
lower_plain (String.◌∷◌ c text) =
    let rest = lower_plain text in
    if leb 65 (code c) && leb (code c) 90
    then String.◌∷◌ (letter_at "abcdefghijklmnopqrstuvwxyz" (code c - 65)) rest
    else if nat_beq (code c) 8490
    then String.◌∷◌ "k" rest
    else if nat_beq (code c) 304
    then String.◌∷◌ "i" (String.◌∷◌ "̇" rest)
    else String.◌∷◌ c rest

-- `re.sub(r"[^a-z0-9]+", "_", text)`, where a run of other characters has begun or not.
unfoldable pub squash : Bool → String → String
squash inside String.[] = String.[]
squash inside (String.◌∷◌ c text) =
    let plain = String.◌∷◌ c (squash false text) in
    let other = squash true text in
    if is_plain (code c) then plain else if inside then other else String.◌∷◌ "_" other

abbrev is_underscore : Char → Bool
is_underscore c = nat_beq (code c) 95

unfoldable pub drop_left : String → String
drop_left String.[] = String.[]
drop_left (String.◌∷◌ c text) =
    let rest = drop_left text in if is_underscore c then rest else String.◌∷◌ c text

unfoldable pub drop_right : String → String
drop_right String.[] = String.[]
drop_right (String.◌∷◌ c text) =
    let rest = drop_right text in
    if is_empty rest && is_underscore c then String.[] else String.◌∷◌ c rest

-- `normalized`
unfoldable pub normalize_key : String → String
unfolding lower_plain squash drop_left drop_right
normalize_key key = drop_right (drop_left (squash false (lower_plain key)))

-- `text.endswith(suffix)`
unfoldable pub ends_with : String → String → Bool
ends_with String.[] suffix = String.[] == suffix
ends_with (String.◌∷◌ c text) suffix = String.◌∷◌ c text == suffix || ends_with text suffix

-- `text.replace("_", "")`
unfoldable pub collapse : String → String
collapse String.[] = String.[]
collapse (String.◌∷◌ c text) =
    let rest = collapse text in if is_underscore c then rest else String.◌∷◌ c rest

abbrev pub safe_suffixes : List String
safe_suffixes = "_count" ∷ "_hash" ∷ "_sha256" ∷ []

abbrev pub sensitive_fragments : List String
sensitive_fragments =
    "apikey" ∷ "authorization" ∷ "communitystring" ∷ "cookie" ∷ "credential" ∷ "password" ∷ "passwd"
    ∷ "privatekey" ∷ "secret" ∷ "token" ∷ []

abbrev pub sensitive_content_keys : List String
sensitive_content_keys =
    "body" ∷ "content" ∷ "document" ∷ "documents" ∷ "documentbody" ∷ "exceptionstack"
    ∷ "pagecontent" ∷ "prompt" ∷ "rawbody" ∷ "stack" ∷ "stacktrace" ∷ "systemprompt" ∷ "traceback"
    ∷ []

-- `is_sensitive_key`
unfoldable pub is_sensitive_key : String → Bool → Bool
unfolding normalize_key ends_with collapse any contains occurs_in
is_sensitive_key key include_content =
    let normalized = normalize_key key in
    if any (ends_with normalized) safe_suffixes
    then false
    else any (λ fragment. occurs_in fragment (collapse normalized)) sensitive_fragments
      || (include_content && contains sensitive_content_keys (collapse normalized))

pub data AuditError : Type 0 where
  not_json blank_field integrity_error details_not_dict : AuditError

abbrev pub redacted_text : Value
redacted_text = str "***REDACTED***"

-- `redact_sensitive`: an instant is no value of JSON.
unfoldable mutual
  pub redact_sensitive : Bool → Value → Result AuditError Value
  redact_sensitive include_content null = ok null
  redact_sensitive include_content (bool b) = ok (bool b)
  redact_sensitive include_content (str s) = ok (str s)
  redact_sensitive include_content (number n) = ok (number n)
  redact_sensitive include_content (datetime t) = err not_json
  redact_sensitive include_content (list items) = do
    redacted ← redact_items include_content items
    ok (list redacted)
  redact_sensitive include_content (dict fields) = do
    redacted ← redact_fields include_content fields
    ok (dict redacted)

  pub redact_items : Bool → Items → Result AuditError Items
  redact_items include_content nil = ok nil
  redact_items include_content (cons v items) = do
    first ← redact_sensitive include_content v
    rest ← redact_items include_content items
    ok (cons first rest)

  pub redact_fields : Bool → Fields → Result AuditError Fields
  redact_fields include_content end = ok end
  redact_fields include_content (field k v fields) = do
    kept ← elim (is_sensitive_key k include_content) [
      | true ↦ ok redacted_text
      | false ↦ redact_sensitive include_content v
    ]
    rest ← redact_fields include_content fields
    ok (field k kept rest)
