-- ===== src/Auth/Token/Claims.antt =====
-- The claims of tokens are read back as they were written.
use networkops_ai_agent.Auth.Models.{
  UserIdentity, Role, operator, engineer, embedded_engineer, admin, role_eq, permission_eq,
}
use networkops_ai_agent.Auth.Token.{
  non_empty_string, optional_string, parse_role, role_value, parse_roles, role_items, cons_some,
  email_field, identity_from_payload, identity_claims, timestamp_of, access_claims, refresh_claims,
}
use networkops_ai_agent.Base.{
  Option, String, none, some, ◌≡◌, nat_beq, length, false, has_duplicates, refl, List, [], ◌∷◌, ap₂,
  ◌==◌, ok, ℕ, true, arith, nat_eq, string_eq,
}
use networkops_ai_agent.Values.{Value, null, str, Fields, get_field, has_field, number, list}

abbrev email_value : Option String → Value
email_value none = null
email_value (some email) = str email

-- An identity that passed the validation of its model: stripped texts and different roles.
pub record IsValid (i : UserIdentity) : Type 0 where
  pub user_id : non_empty_string (str i.user_id) ≡ some i.user_id
  pub username : non_empty_string (str i.username) ≡ some i.username
  pub email : optional_string (email_value i.email) ≡ some i.email
  pub some_role : nat_beq (length i.roles) 0 ≡ false
  pub no_duplicate : has_duplicates i.roles ≡ false

parse_role-role_value : (role : Role) → parse_role (str (role_value role)) ≡ some role
unfolding parse_role role_value
parse_role-role_value operator = refl
parse_role-role_value engineer = refl
parse_role-role_value embedded_engineer = refl
parse_role-role_value admin = refl

parse_roles-role_items : (roles : List Role) → parse_roles (role_items roles) ≡ some roles
unfolding parse_roles role_items
parse_roles-role_items [] = refl
parse_roles-role_items (role ∷ roles) =
    ap₂ cons_some (parse_role-role_value role) (parse_roles-role_items roles)

get_field-email_field :
    (email : Option String) (rest : Fields) (key : String)
    → ("email" == key) ≡ false
    → get_field (email_field email rest) key ≡ get_field rest key
unfolding get_field
get_field-email_field none rest key h = refl
get_field-email_field (some email) rest key h = rw h refl

get_field-email_value :
    (email : Option String) (rest : Fields)
    → get_field rest "email" ≡ null
    → get_field (email_field email rest) "email" ≡ email_value email
unfolding get_field
get_field-email_value none rest h = h
get_field-email_value (some email) rest h = refl

-- The claims of an identity give it back.
pub identity_from_payload-identity_claims :
    (i : UserIdentity) (rest : Fields)
    → IsValid i
    → get_field rest "email" ≡ null
    → identity_from_payload (identity_claims i rest) ≡ ok i
unfolding identity_claims get_field identity_from_payload
identity_from_payload-identity_claims i rest v h =
    rw
      (
        v.user_id,
        v.username,
        get_field-email_value i.email rest h,
        v.email,
        parse_roles-role_items i.roles,
        v.some_role,
        v.no_duplicate,
      )
      refl

pub get_field-identity_claims :
    (i : UserIdentity) (rest : Fields) (key : String)
    → ("sub" == key) ≡ false
    → ("username" == key) ≡ false
    → ("roles" == key) ≡ false
    → ("email" == key) ≡ false
    → get_field (identity_claims i rest) key ≡ get_field rest key
unfolding identity_claims get_field
get_field-identity_claims i rest key h1 h2 h3 h4 =
    rw (h1, h2, h3, get_field-email_field i.email rest key h4) refl

-- What both tokens of a session hold besides the identity.
pub record Holds (payload : Fields) (i : UserIdentity) (kind sid : String) (issued expires : ℕ)
    : Type 0 where
  pub identity : identity_from_payload payload ≡ ok i
  pub typ : get_field payload "typ" ≡ str kind
  pub session : get_field payload "sid" ≡ str sid
  pub has_session : has_field payload "sid" ≡ true
  pub iat : get_field payload "iat" ≡ number (timestamp_of issued)
  pub exp : get_field payload "exp" ≡ number (timestamp_of expires)
  pub sub : get_field payload "sub" ≡ str i.user_id
  pub username : get_field payload "username" ≡ str i.username
  pub roles : get_field payload "roles" ≡ list (role_items i.roles)

has_field-email_field :
    (email : Option String) (rest : Fields) (key : String)
    → has_field rest key ≡ true
    → has_field (email_field email rest) key ≡ true
unfolding has_field
has_field-email_field none rest key h = h
has_field-email_field (some email) rest key h = ground arith

has_field-identity_claims :
    (i : UserIdentity) (rest : Fields) (key : String)
    → has_field rest key ≡ true
    → has_field (identity_claims i rest) key ≡ true
unfolding identity_claims has_field
has_field-identity_claims i rest key h = ground (arith, has_field-email_field i.email rest key h)

pub access_claims-Holds :
    (i : UserIdentity) (sid : String) (issued expires : ℕ)
    → IsValid i
    → Holds (access_claims i sid issued expires) i "access" sid issued expires
unfolding access_claims get_field has_field
access_claims-Holds i sid issued expires v = record {
  identity = identity_from_payload-identity_claims i _ v refl;
  typ = get_field-identity_claims i _ "typ" refl refl refl refl;
  session = get_field-identity_claims i _ "sid" refl refl refl refl;
  has_session = has_field-identity_claims i _ "sid" refl;
  iat = get_field-identity_claims i _ "iat" refl refl refl refl;
  exp = get_field-identity_claims i _ "exp" refl refl refl refl;
  sub = unfold identity_claims in refl;
  username = unfold identity_claims in refl;
  roles = unfold identity_claims in refl;
}

pub refresh_claims-Holds :
    (i : UserIdentity) (sid jti : String) (issued expires : ℕ)
    → IsValid i
    → Holds (refresh_claims i sid jti issued expires) i "refresh" sid issued expires
unfolding refresh_claims get_field has_field
refresh_claims-Holds i sid jti issued expires v = record {
  identity = identity_from_payload-identity_claims i _ v refl;
  typ = get_field-identity_claims i _ "typ" refl refl refl refl;
  session = get_field-identity_claims i _ "sid" refl refl refl refl;
  has_session = has_field-identity_claims i _ "sid" refl;
  iat = get_field-identity_claims i _ "iat" refl refl refl refl;
  exp = get_field-identity_claims i _ "exp" refl refl refl refl;
  sub = unfold identity_claims in refl;
  username = unfold identity_claims in refl;
  roles = unfold identity_claims in refl;
}
