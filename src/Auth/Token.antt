-- ===== src/Auth/Token.antt =====
-- src/network_agent_rag/auth/token.py: the claims of tokens and their verification. The signing and
-- parsing of a JWT, and the text of a token, are parameters; an instant is in microseconds.
pub mod Claims
pub mod Window
use networkops_ai_agent.Auth.Models.{
  Role, operator, engineer, embedded_engineer, admin, UserIdentity, role_eq, permission_eq,
}
use networkops_ai_agent.Base.{
  List, String, Option, ◌≡◌, if◌then◌else◌, all, not, some, none, is_blank, false, ℕ, Result,
  raise_if, nat_beq, ◌/◌, ◌==◌, ◌∷◌, [], strip, is_empty, has_duplicates, or_raise, length, ok, err,
  ltb, ◌*◌, ◌||◌, leb, Bool, ◌++◌, is_none, ◌+◌, ◌&&◌, true, ◌>>=◌, ◌>>◌, nat_eq, string_eq,
}
use networkops_ai_agent.Enterprise.Approval.{is_null, as_list, as_text}
use networkops_ai_agent.Policy.Models.{identifier, effect_eq, operation_eq, risk_eq}
use networkops_ai_agent.Values.{
  Fields, get_field, Value, str, Items, nil, cons, null, field, list, number, end, value_eq, dict,
  has_field,
}

-- `AuthenticationError`, `ValueError` and `KeyError`
pub data AuthError : Type 0 where
  authentication_failed value_error key_error : AuthError

-- PyJWT with the secret key: `decode` takes the claims that it requires.
pub record Jwt (Token : Type 0) : Type 0 where
  pub encode : Fields → Token
  pub decode : List String → Token → Option Fields
  pub text : Token → String

-- What is relied on: a token that was encoded is decoded to its claims if those that are required
-- are there, and it is no blank text.
pub record IsJwt {Token : Type 0} (jwt : Jwt Token) : Type 0 where
  pub decode-encode :
      (required : List String) (payload : Fields)
      → jwt.decode required (jwt.encode payload) ≡ (
          if all (λ claim. not (is_null (get_field payload claim))) required
          then some payload
          else none)
  pub text-encode : (payload : Fields) → is_blank (jwt.text (jwt.encode payload)) ≡ false

pub record TokenSettings : Type 0 where
  pub expire_minutes : ℕ
  pub access_expire_minutes : ℕ
  pub refresh_expire_days : ℕ

-- `_positive_integer`, for each of the settings.
unfoldable pub check_settings : TokenSettings → Result AuthError (Unit {0})
check_settings s = do
  raise_if (nat_beq s.expire_minutes 0) value_error
  raise_if (nat_beq s.access_expire_minutes 0) value_error
  raise_if (nat_beq s.refresh_expire_days 0) value_error

abbrev pub microseconds : ℕ
microseconds = 1000000

-- `int(instant.timestamp())`
abbrev pub timestamp_of : ℕ → ℕ
timestamp_of instant = instant / microseconds

unfoldable pub role_value : Role → String
role_value operator = "Operator"
role_value engineer = "Engineer"
role_value embedded_engineer = "EmbeddedEngineer"
role_value admin = "Admin"

unfoldable pub parse_role : Value → Option Role
parse_role (str s) =
    if s == "Operator"
    then some operator
    else if s == "Engineer"
    then some engineer
    else if s == "EmbeddedEngineer"
    then some embedded_engineer
    else if s == "Admin"
    then some admin
    else none
parse_role _ = none

abbrev pub cons_some : Option Role → Option (List Role) → Option (List Role)
cons_some (some role) (some roles) = some (role ∷ roles)
cons_some _ _ = none

unfoldable pub parse_roles : Items → Option (List Role)
unfolding parse_role
parse_roles nil = some []
parse_roles (cons v vs) = cons_some (parse_role v) (parse_roles vs)

unfoldable pub role_items : List Role → Items
unfolding role_value
role_items [] = nil
role_items (role ∷ roles) = cons (str (role_value role)) (role_items roles)

-- `NonEmptyString`
unfoldable pub non_empty_string : Value → Option String
unfolding strip
non_empty_string (str s) = if is_empty (strip s) then none else some (strip s)
non_empty_string _ = none

-- The field `email`, which may be missing or None.
unfoldable pub optional_string : Value → Option (Option String)
unfolding non_empty_string
optional_string null = some none
optional_string v = elim (non_empty_string v) [ none ↦ none | some s ↦ some (some s) ]

abbrev pub email_field : Option String → Fields → Fields
email_field none rest = rest
email_field (some email) rest = field "email" (str email) rest

-- `_identity_claims`, before the other claims.
unfoldable pub identity_claims : UserIdentity → Fields → Fields
unfolding role_items
identity_claims identity rest = field "sub" (str identity.user_id) (
    field "username" (str identity.username)
      (field "roles" (list (role_items identity.roles)) (email_field identity.email rest)))

-- `_identity_from_payload`: each failure is an AuthenticationError.
unfoldable pub identity_from_payload : Fields → Result AuthError UserIdentity
unfolding get_field parse_roles non_empty_string optional_string has_duplicates
identity_from_payload payload = do
  items ← or_raise (as_list (get_field payload "roles")) authentication_failed
  user_id ← or_raise (non_empty_string (get_field payload "sub")) authentication_failed
  username ← or_raise (non_empty_string (get_field payload "username")) authentication_failed
  email ← or_raise (optional_string (get_field payload "email")) authentication_failed
  roles ← or_raise (parse_roles items) authentication_failed
  raise_if (nat_beq (length roles) 0) authentication_failed
  raise_if (has_duplicates roles) authentication_failed
  ok (record { user_id = user_id; username = username; email = email; roles = roles })

-- `_numeric_date`
unfoldable pub numeric_date : Value → Result AuthError ℕ
numeric_date (number n) = ok n
numeric_date _ = err authentication_failed

-- `_validate_dates`: the claims are in seconds.
unfoldable pub validate_dates : Fields → ℕ → Result AuthError (Unit {0})
unfolding get_field numeric_date
validate_dates payload now = do
  issued_at ← numeric_date (get_field payload "iat")
  expires_at ← numeric_date (get_field payload "exp")
  raise_if
      (ltb now (issued_at * microseconds)
        || leb expires_at issued_at
        || leb (expires_at * microseconds) now)
      authentication_failed

pub record TokenPair (Token : Type 0) : Type 0 where
  pub session_id : String
  pub access_token : Token
  pub refresh_token : Token
  pub access_expires_at : ℕ
  pub refresh_expires_at : ℕ

-- The claims of an access token and of a refresh token of a session.
unfoldable pub access_claims : UserIdentity → String → ℕ → ℕ → Fields
unfolding identity_claims
access_claims identity session_id issued_at expires_at = identity_claims identity (
    field "iat" (number (timestamp_of issued_at)) (
      field "sid" (str session_id)
        (field "typ" (str "access") (field "exp" (number (timestamp_of expires_at)) end))))

unfoldable pub refresh_claims : UserIdentity → String → String → ℕ → ℕ → Fields
unfolding identity_claims
refresh_claims identity session_id jti issued_at expires_at = identity_claims identity (
    field "iat" (number (timestamp_of issued_at)) (
      field "sid" (str session_id) (
        field "typ" (str "refresh")
          (field "jti" (str jti) (field "exp" (number (timestamp_of expires_at)) end)))))

unfoldable pub legacy_claims : UserIdentity → ℕ → ℕ → Fields
legacy_claims identity issued_at expires_at = field "sub" (str identity.user_id) (
    field "username" (str identity.username) (
      field "roles" (list (role_items identity.roles)) (
        field "iat" (number (timestamp_of issued_at))
          (field "exp" (number (timestamp_of expires_at)) (email_field identity.email end)))))

abbrev pub required_claims : List String
required_claims = "sub" ∷ "username" ∷ "roles" ∷ "iat" ∷ "exp" ∷ []

abbrev pub session_required : Bool → List String
session_required require_jti =
    required_claims ++ ("typ" ∷ "sid" ∷ []) ++ (if require_jti then "jti" ∷ [] else [])

-- `not isinstance(payload[claim], str) or not payload[claim].strip()`
abbrev pub is_text : Value → Bool
is_text v = not (is_none (as_text v))

module _ {Token : Type 0} (jwt : Jwt Token) (settings : TokenSettings) where
  unfoldable pub create_token : UserIdentity → ℕ → Token
  unfolding legacy_claims
  create_token identity issued_at =
      jwt.encode
        (legacy_claims identity issued_at (issued_at + settings.expire_minutes * 60 * microseconds))

  -- The pair that `create_session_tokens` builds for a stripped session id; `jti` is the new id of
  -- the refresh token.
  unfoldable pub session_pair : UserIdentity → String → String → ℕ → TokenPair Token
  unfolding access_claims refresh_claims
  session_pair identity identifier jti issued_at =
      let access_expires_at = issued_at + settings.access_expire_minutes * 60 * microseconds in
      let refresh_expires_at = issued_at + settings.refresh_expire_days * 86400 * microseconds in
      record {
        session_id = identifier;
        access_token = jwt.encode (access_claims identity identifier issued_at access_expires_at);
        refresh_token =
            jwt.encode (refresh_claims identity identifier jti issued_at refresh_expires_at);
        access_expires_at = access_expires_at;
        refresh_expires_at = refresh_expires_at;
      }

  -- `validate_tokens` of the pair
  unfoldable pub is_bad_pair : TokenPair Token → Bool
  is_bad_pair pair =
      is_empty (jwt.text pair.access_token)
      || is_empty (jwt.text pair.refresh_token)
      || leb pair.refresh_expires_at pair.access_expires_at

  unfoldable pub create_session_tokens :
      UserIdentity → String → String → ℕ → Result AuthError (TokenPair Token)
  unfolding strip is_blank session_pair is_bad_pair
  create_session_tokens identity session_id jti issued_at = do
    raise_if (is_blank session_id) value_error
    let pair = session_pair identity (strip session_id) jti issued_at
    raise_if (is_bad_pair pair) value_error
    ok pair

  -- `_verify_session_token`
  unfoldable pub verify_session_token : Token → String → Bool → ℕ → Result AuthError Fields
  unfolding is_blank validate_dates get_field value_eq as_text
  verify_session_token token expected_type require_jti now = do
    raise_if (is_blank (jwt.text token)) authentication_failed
    payload ← or_raise (jwt.decode (session_required require_jti) token) authentication_failed
    validate_dates payload now
    raise_if (not (value_eq (get_field payload "typ") (str expected_type))) authentication_failed
    raise_if (not (is_text (get_field payload "sid"))) authentication_failed
    raise_if (require_jti && not (is_text (get_field payload "jti"))) authentication_failed
    ok payload

  abbrev pub claim_text : Fields → String → Result AuthError String
  claim_text payload claim = or_raise (as_text (get_field payload claim)) authentication_failed

  unfoldable pub verify_access_token : Token → ℕ → Result AuthError (UserIdentity × String)
  unfolding verify_session_token identity_from_payload
  verify_access_token token now = do
    payload ← verify_session_token token "access" false now
    identity ← identity_from_payload payload
    sid ← claim_text payload "sid"
    ok (identity, sid)

  unfoldable pub verify_refresh_token :
      Token → ℕ → Result AuthError (UserIdentity × String × String)
  unfolding verify_session_token identity_from_payload
  verify_refresh_token token now = do
    payload ← verify_session_token token "refresh" true now
    identity ← identity_from_payload payload
    sid ← claim_text payload "sid"
    jti ← claim_text payload "jti"
    ok (identity, sid, jti)

  -- `payload.get("typ") in {"access", "refresh"}`: a list or a dictionary has no hash, which is a
  -- TypeError and fails as well.
  abbrev pub is_session_type : Value → Bool
  is_session_type (str s) = s == "access" || s == "refresh"
  is_session_type (list items) = true
  is_session_type (dict fields) = true
  is_session_type _ = false

  -- `verify_token`: a token of a session is no legacy token.
  unfoldable pub verify_token : Token → ℕ → Result AuthError UserIdentity
  unfolding is_blank validate_dates get_field has_field identity_from_payload
  verify_token token now = do
    raise_if (is_blank (jwt.text token)) authentication_failed
    payload ← or_raise (jwt.decode required_claims token) authentication_failed
    validate_dates payload now
    raise_if (has_field payload "sid" || is_session_type (get_field payload "typ"))
        authentication_failed
    identity_from_payload payload
