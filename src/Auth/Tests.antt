-- ===== src/Auth/Tests.antt =====
-- The theorems of the permission checks at concrete users.
use networkops_ai_agent.Auth.Identity.{
  IdentitySession, active, IdentityStore, put_session, rotate_refresh, revoked, ApiKeyCredential,
  status_eq,
}
use networkops_ai_agent.Auth.Identity.Access.{
  revoke_as-final, Authenticates, authenticate_access_token-Authenticates,
}
use networkops_ai_agent.Auth.Identity.ApiKeys.{create_api_key-authenticates}
use networkops_ai_agent.Auth.Identity.Lifecycle.{perform_all, op_refresh, op_get_session}
use networkops_ai_agent.Auth.Identity.Replay.{rotate_refresh-replay}
use networkops_ai_agent.Auth.Identity.Service.{
  IdentityState, revoke_as, authenticate_access_token, create_api_key, authenticate_api_key,
  is_over,
}
use networkops_ai_agent.Auth.Identity.Sessions.{status_at}
use networkops_ai_agent.Auth.Models.{
  User, engineer, admin, execute_repair, approve_repair, UserIdentity, operator, role_eq,
  permission_eq,
}
use networkops_ai_agent.Auth.Rbac.{has_permission}
use networkops_ai_agent.Auth.Rbac.Checks.{separation_of_duties}
use networkops_ai_agent.Auth.Requests.{RequestHeaders, authenticate}
use networkops_ai_agent.Auth.Requests.Selects.{Vouched, authenticate-Vouched}
use networkops_ai_agent.Auth.Token.{
  Jwt, IsJwt, TokenSettings, non_empty_string, optional_string, TokenPair, session_pair,
  create_session_tokens, verify_access_token, verify_refresh_token, authentication_failed,
  verify_token, identity_from_payload,
}
use networkops_ai_agent.Auth.Token.Claims.{IsValid}
use networkops_ai_agent.Auth.Token.Window.{
  proves, is_outside, session_tokens-proves, session_tokens-rejected,
}
use networkops_ai_agent.Base.{
  ◌∷◌, [], ◌≡◌, contains, if◌then◌else◌, all, not, some, none, refl, is_blank, has_duplicates, ok,
  err, String, ◌≢◌, true, false, strip, ◌<>◌, count_char, nat_eq, string_eq,
}
use networkops_ai_agent.Enterprise.Approval.{is_null}
use networkops_ai_agent.Values.{Fields, get_field, field, str, list, cons, nil, end}

-- An engineer who is also the administrator.
abbrev lead : User
lead = record { user_id = "u1"; username = "lead"; roles = engineer ∷ admin ∷ [] }

separation-lead :
    (has_permission lead execute_repair ≡ contains lead.roles engineer)
    × (has_permission lead approve_repair ≡ contains lead.roles admin)
separation-lead = separation_of_duties lead

-- Tokens that are their own claims.
abbrev plain_jwt : Jwt Fields
plain_jwt = record {
  encode = λ payload. payload;
  decode = λ required payload.
      if all (λ claim. not (is_null (get_field payload claim))) required
      then some payload
      else none;
  text = λ token. "t";
}

plain_jwt-IsJwt : IsJwt plain_jwt
plain_jwt-IsJwt = record {
  decode-encode = λ required payload. refl;
  text-encode = λ payload. unfold is_blank in refl;
}

abbrev minutes : TokenSettings
minutes = record { expire_minutes = 30; access_expire_minutes = 15; refresh_expire_days = 7 }

abbrev ann : UserIdentity
ann = record { user_id = "u"; username = "ann"; email = none; roles = operator ∷ [] }

ann-IsValid : IsValid ann
ann-IsValid = record {
  user_id = unfold non_empty_string in refl;
  username = unfold non_empty_string in refl;
  email = unfold optional_string in refl;
  some_role = refl;
  no_duplicate = unfold has_duplicates in refl;
}

abbrev ann_pair : TokenPair Fields
ann_pair = session_pair plain_jwt minutes ann "s" "j" 0

create_session_tokens-ann : create_session_tokens plain_jwt minutes ann "s" "j" 0 ≡ ok ann_pair
unfolding create_session_tokens session_pair
create_session_tokens-ann = refl

session_tokens-proves_example :
    (verify_access_token plain_jwt minutes ann_pair.access_token 5
      ≡ proves (is_outside 0 ann_pair.access_expires_at 5) (ann, ann_pair.session_id))
    × (verify_refresh_token plain_jwt minutes ann_pair.refresh_token 5
        ≡ proves (is_outside 0 ann_pair.refresh_expires_at 5) (ann, ann_pair.session_id, "j"))
session_tokens-proves_example =
    session_tokens-proves plain_jwt minutes ann "s" "j" 0 ann_pair plain_jwt-IsJwt ann-IsValid
      create_session_tokens-ann 5 (unfold is_blank in refl)

session_tokens-rejected_example :
    (verify_access_token plain_jwt minutes ann_pair.refresh_token 5 ≡ err authentication_failed)
    × (verify_refresh_token plain_jwt minutes ann_pair.access_token 5 ≡ err authentication_failed)
    × (verify_token plain_jwt minutes ann_pair.access_token 5 ≡ err authentication_failed)
    × (verify_token plain_jwt minutes ann_pair.refresh_token 5 ≡ err authentication_failed)
session_tokens-rejected_example =
    session_tokens-rejected plain_jwt minutes ann "s" "j" 0 ann_pair plain_jwt-IsJwt ann-IsValid
      create_session_tokens-ann 5

abbrev ann_session : IdentitySession
ann_session = record {
  session_id = "s";
  identity = ann;
  created_at = 0;
  expires_at = 604800000000;
  status = active;
}

abbrev ann_state : IdentityState
ann_state = record {
  store = record { sessions = ("s", (ann_session, "old")) ∷ []; api_keys = [] };
  audit_log = some [];
}

abbrev logged_out : IdentityState
logged_out = (revoke_as "logout" ann_state "s").1

revoke_as-ann : revoke_as "logout" ann_state "s" ≡ (ok tt, logged_out)
unfolding revoke_as
revoke_as-ann = refl

verify_access_token-ann :
    verify_access_token plain_jwt minutes ann_pair.access_token 5 ≡ ok (ann, "s")
unfolding session_pair
verify_access_token-ann = session_tokens-proves_example.0

-- The digest of a text is the text.
abbrev plain_digest : String → String
plain_digest text = text

revoke_as-final_example :
    (authenticate_access_token plain_jwt minutes plain_digest
      (perform_all plain_jwt minutes plain_digest logged_out
        (op_refresh ann_pair.refresh_token "k" 5 ∷ op_get_session "s" 5 ∷ []))
      ann_pair.access_token
      5).0
    ≢ ok ann
revoke_as-final_example =
    revoke_as-final plain_jwt minutes plain_digest "logout" ann_state logged_out "s"
      (op_refresh ann_pair.refresh_token "k" 5 ∷ op_get_session "s" 5 ∷ []) ann_pair.access_token 5
      ann ann revoke_as-ann verify_access_token-ann

authenticate-ann :
    (authenticate_access_token plain_jwt minutes plain_digest ann_state ann_pair.access_token 5).0
    ≡ ok ann
unfolding authenticate_access_token session_pair all
authenticate-ann = refl

authenticate-ann_example :
    (session_id : String) × (verify_access_token plain_jwt minutes ann_pair.access_token 5
      ≡ ok (ann, session_id))
    × Authenticates ann_state ann session_id 5
authenticate-ann_example =
    authenticate_access_token-Authenticates plain_jwt minutes plain_digest ann_state
      ann_pair.access_token 5 ann authenticate-ann

abbrev rotated_store : IdentityStore
rotated_store = put_session ann_state.store "s" (record ann_session { expires_at = 9 }) "new"

rotate_refresh-ann : rotate_refresh ann_state.store "s" "old" "new" 9 ≡ ok (true, rotated_store)
unfolding rotate_refresh
rotate_refresh-ann = refl

rotate_refresh-replay_example :
    (final : IdentityStore) × (rotate_refresh rotated_store "s" "old" "third" 10
      ≡ ok (false, final))
    × (status_at final (strip "s") ≡ some revoked)
rotate_refresh-replay_example =
    rotate_refresh-replay ann_state.store rotated_store "s" "old" "new" "third" 9 10
      rotate_refresh-ann refl

abbrev with_key : IdentityState
with_key = (create_api_key plain_digest ann_state ann (some 100) "k1" "abc" 1).1

abbrev new_credential : ApiKeyCredential
new_credential = record {
  key_id = "k1";
  identity = ann;
  created_at = 1;
  expires_at = some 100;
  status = active;
}

create_api_key-ann :
    create_api_key plain_digest ann_state ann (some 100) "k1" "abc" 1
    ≡ (ok (new_credential, "nops.k1.abc"), with_key)
unfolding create_api_key
create_api_key-ann = refl

create_api_key-authenticates_example :
    (authenticate_api_key plain_digest with_key ("nops." <> ("k1" <> ("." <> "abc"))) 50).0
    ≡ (if is_over (some 100) 50 then err authentication_failed else ok ann)
create_api_key-authenticates_example =
    create_api_key-authenticates plain_digest ann_state with_key ann (some 100) "k1" "abc" 1 50
      (new_credential, "nops.k1.abc") create_api_key-ann (unfold count_char in refl)
      (unfold count_char in refl) refl refl

abbrev bearer_request : RequestHeaders
bearer_request = record { authorization = some " BEARER  abc "; x_api_key = none }

-- The one token that is not garbage.
abbrev token_named : String → Fields
token_named name = ann_pair.access_token

authenticate-bearer :
    (authenticate plain_jwt minutes plain_digest token_named ann_state bearer_request 5).0 ≡ ok ann
unfolding authenticate session_pair all
authenticate-bearer = refl

authenticate-both :
    (authenticate plain_jwt minutes plain_digest token_named ann_state
      (record bearer_request { x_api_key = some "nops.k1.abc" })
      5).0
    ≡ err authentication_failed
unfolding authenticate
authenticate-both = refl

authenticate-bearer_example :
    Vouched plain_jwt minutes plain_digest token_named ann_state bearer_request 5 ann
authenticate-bearer_example =
    authenticate-Vouched plain_jwt minutes plain_digest token_named ann_state bearer_request 5 ann
      authenticate-bearer

-- The role of the identity must be spelled as the program spells it.
abbrev payload_with_role : String → Fields
payload_with_role role =
    field "sub" (str "u")
      (field "username" (str "ann") (field "roles" (list (cons (str role) nil)) end))

identity-Engineer :
    identity_from_payload (payload_with_role "Engineer")
    ≡ ok (record { user_id = "u"; username = "ann"; email = none; roles = engineer ∷ [] })
unfolding identity_from_payload
identity-Engineer = refl

identity-lower_case :
    identity_from_payload (payload_with_role "engineer") ≡ err authentication_failed
unfolding identity_from_payload
identity-lower_case = refl
