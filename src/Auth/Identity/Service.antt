-- ===== src/Auth/Identity/Service.antt =====
-- `EnterpriseIdentityService` of src/network_agent_rag/auth/identity.py. What an operation did
-- before it raised stays done: each returns its result and the state after it.
use networkops_ai_agent.Auth.Identity.{
  IdentityStore, IdentitySession, set_session_status, active, expired, get_session, revoked,
  make_session, create_session, rotate_refresh, ApiKeyCredential, make_credential, store_api_key,
  get_api_key, set_api_key_status, status_eq,
}
use networkops_ai_agent.Auth.Models.{Role, UserIdentity, role_eq, permission_eq}
use networkops_ai_agent.Auth.Token.{
  AuthError, key_error, authentication_failed, Jwt, TokenSettings, TokenPair, create_session_tokens,
  verify_refresh_token, verify_access_token, value_error,
}
use networkops_ai_agent.Base.{
  String, Option, List, Result, none, some, ◌++◌, ◌∷◌, [], err, Bool, true, ◌==◌, ◌&&◌, false, ok,
  ℕ, if◌then◌else◌, leb, not, ◌||◌, is_empty, split_on, ◌<>◌, ◌>>=◌, nat_eq, string_eq,
}
use networkops_ai_agent.Embedded.Loop.Transitions.{entries}

-- What `_audit` records, where an audit log is given.
pub record AuditEntry : Type 0 where
  pub action : String
  pub decision : String
  pub actor_id : String
  pub session_id : Option String
  pub key_id : Option String

pub record IdentityState : Type 0 where
  pub store : IdentityStore
  pub audit_log : Option (List AuditEntry)

-- The result of an operation and the state after it.
abbrev pub Outcome : Type 0 → Type 0
Outcome A = Result AuthError A × IdentityState

unfoldable pub audit :
    IdentityState → String → String → String → Option String → Option String → IdentityState
audit state action decision actor_id session_id key_id = record state {
  audit_log = elim state.audit_log [
    | none ↦ none
    | some entries ↦ some (
        entries
        ++ record {
          action = action;
          decision = decision;
          actor_id = actor_id;
          session_id = session_id;
          key_id = key_id;
        }
          ∷ [])
  ];
}

-- `except KeyError: raise AuthenticationError()`
abbrev pub hide_key_error {ℓ} : {A : Type ℓ} → Result AuthError A → Result AuthError A
hide_key_error (err key_error) = err authentication_failed
hide_key_error r = r

abbrev pub with_store : IdentityState → IdentityStore → IdentityState
with_store state store = record state { store = store }

abbrev roles_equal : List Role → List Role → Bool
roles_equal [] [] = true
roles_equal (a ∷ xs) (b ∷ ys) = a == b && roles_equal xs ys
roles_equal _ _ = false

abbrev emails_equal : Option String → Option String → Bool
emails_equal none none = true
emails_equal (some a) (some b) = a == b
emails_equal _ _ = false

-- `session.identity == identity`, field by field.
unfoldable pub same_identity : UserIdentity → UserIdentity → Bool
same_identity a b =
    a.user_id == b.user_id
    && a.username == b.username
    && emails_equal a.email b.email
    && roles_equal a.roles b.roles

-- The end of an operation that changes the store: an exception leaves the state as it was.
unfoldable pub commit {ℓ} :
    {A : Type ℓ}
    → IdentityState
    → Result AuthError (A × IdentityStore)
    → Result AuthError A × IdentityState
commit state (ok (a, store)) = (ok a, with_store state store)
commit state (err e) = (err e, state)

-- The session as it is stored, or marked EXPIRED where its time is over.
unfoldable pub expire_if_due :
    IdentityState → ℕ → Result AuthError IdentitySession → Outcome IdentitySession
unfolding set_session_status commit
expire_if_due state now (ok session) =
    if session.status == active && leb session.expires_at now
    then commit state (set_session_status state.store session.session_id expired)
    else (ok session, state)
expire_if_due state now (err e) = (err e, state)

-- `get_session` of the service
unfoldable pub lookup_session : IdentityState → String → ℕ → Outcome IdentitySession
unfolding get_session expire_if_due
lookup_session state session_id now =
    expire_if_due state now (hide_key_error (get_session state.store session_id))

-- What `authenticate_access_token` demands of the session.
unfoldable pub check_session : UserIdentity → Outcome IdentitySession → Outcome UserIdentity
unfolding same_identity
check_session identity (ok session, state) = (
  if not (session.status == active) || not (same_identity session.identity identity)
      then err authentication_failed
      else ok identity,
  state,
)
check_session identity (err e, state) = (err e, state)

unfoldable pub audit_revoked : String → Outcome IdentitySession → Outcome (Unit {0})
unfolding audit
audit_revoked action (ok session, state) =
    (ok tt, audit state action "allowed" session.identity.user_id (some session.session_id) none)
audit_revoked action (err e, state) = (err e, state)

-- `_set_session_status` to REVOKED, with its entry in the audit log.
unfoldable pub revoke_as : String → IdentityState → String → Outcome (Unit {0})
unfolding set_session_status commit audit_revoked
revoke_as action state session_id =
    audit_revoked action
      (commit state (hide_key_error (set_session_status state.store session_id revoked)))

unfoldable pub logout : IdentityState → String → Outcome (Unit {0})
unfolding revoke_as
logout state session_id = revoke_as "logout" state session_id

unfoldable pub revoke_session : IdentityState → String → Outcome (Unit {0})
unfolding revoke_as
revoke_session state session_id = revoke_as "session_revoked" state session_id

-- `_api_key_id`: "nops", an id and a secret part.
abbrev pub key_of_parts : List String → Result AuthError String
key_of_parts (prefix ∷ key_id ∷ secret ∷ []) =
    if not (prefix == "nops") || is_empty key_id || is_empty secret
    then err authentication_failed
    else ok key_id
key_of_parts _ = err authentication_failed

unfoldable pub api_key_id : String → Result AuthError String
unfolding split_on
api_key_id api_key = key_of_parts (split_on "." api_key)

module _ {Token : Type 0} (jwt : Jwt Token) (settings : TokenSettings)
    (digest : String → String) where
  abbrev pub hash_of : Token → String
  hash_of token = digest (jwt.text token)

  unfoldable pub new_session :
      IdentityStore
      → UserIdentity
      → String
      → String
      → ℕ
      → Result AuthError (TokenPair Token × IdentityStore)
  unfolding create_session_tokens make_session create_session
  new_session store identity session_id jti now = do
    pair ← create_session_tokens jwt settings identity session_id jti now
    session ← make_session pair.session_id identity now pair.refresh_expires_at
    after ← create_session store session (hash_of pair.refresh_token)
    ok (pair, after)

  -- `issue_session`, for a new session id.
  unfoldable pub issue_session :
      IdentityState → UserIdentity → String → String → ℕ → Outcome (TokenPair Token)
  unfolding new_session commit
  issue_session state identity session_id jti now =
      commit state (new_session state.store identity session_id jti now)

  -- The end of `refresh`, by whether the digest was exchanged.
  unfoldable pub after_rotation :
      IdentityState
      → UserIdentity
      → String
      → TokenPair Token
      → Result AuthError (Bool × IdentityStore)
      → Outcome (TokenPair Token)
  unfolding audit
  after_rotation state identity session_id pair (err e) = (err e, state)
  after_rotation state identity session_id pair (ok (false, store)) = (
    err authentication_failed,
    audit (with_store state store) "refresh_token_failed" "denied" identity.user_id
        (some session_id) none,
  )
  after_rotation state identity session_id pair (ok (true, store)) = (
    ok pair,
    audit (with_store state store) "refresh_token_success" "allowed" identity.user_id
        (some session_id) none,
  )

  unfoldable pub rotate :
      IdentityState
      → Token
      → UserIdentity
      → String
      → Result AuthError (TokenPair Token)
      → Outcome (TokenPair Token)
  unfolding rotate_refresh after_rotation
  rotate state refresh_token identity session_id (err e) = (err e, state)
  rotate state refresh_token identity session_id (ok pair) =
      after_rotation state identity session_id pair (
        rotate_refresh state.store session_id (hash_of refresh_token) (hash_of pair.refresh_token)
          pair.refresh_expires_at)

  unfoldable pub refresh_verified :
      IdentityState
      → Token
      → String
      → ℕ
      → Result AuthError (UserIdentity × String × String)
      → Outcome (TokenPair Token)
  unfolding create_session_tokens rotate audit
  refresh_verified state refresh_token jti now (err e) =
      (err e, audit state "refresh_token_failed" "denied" "anonymous" none none)
  refresh_verified state refresh_token jti now (ok (identity, session_id, _)) =
      rotate state refresh_token identity session_id
        (create_session_tokens jwt settings identity session_id jti now)

  unfoldable pub refresh : IdentityState → Token → String → ℕ → Outcome (TokenPair Token)
  unfolding verify_refresh_token refresh_verified
  refresh state refresh_token jti now =
      refresh_verified state refresh_token jti now
        (verify_refresh_token jwt settings refresh_token now)

  unfoldable pub authenticate_verified :
      IdentityState → ℕ → Result AuthError (UserIdentity × String) → Outcome UserIdentity
  unfolding lookup_session check_session
  authenticate_verified state now (err e) = (err e, state)
  authenticate_verified state now (ok (identity, session_id)) =
      check_session identity (lookup_session state session_id now)

  unfoldable pub authenticate_access_token : IdentityState → Token → ℕ → Outcome UserIdentity
  unfolding verify_access_token authenticate_verified
  authenticate_access_token state access_token now =
      authenticate_verified state now (verify_access_token jwt settings access_token now)

unfoldable pub new_api_key :
    (String → String)
    → IdentityStore
    → UserIdentity
    → Option ℕ
    → String
    → String
    → ℕ
    → Result AuthError ((ApiKeyCredential × String) × IdentityStore)
unfolding make_credential store_api_key
new_api_key digest store identity expires_at key_id random now = do
  let raw_key = "nops." <> (key_id <> ("." <> random))
  credential ← make_credential key_id identity now expires_at
  after ← store_api_key store credential (digest raw_key)
  ok ((credential, raw_key), after)

-- `create_api_key`, for a new id and a random part.
unfoldable pub create_api_key :
    (String → String)
    → IdentityState
    → UserIdentity
    → Option ℕ
    → String
    → String
    → ℕ
    → Outcome (ApiKeyCredential × String)
unfolding new_api_key commit
create_api_key digest state identity expires_at key_id random now =
    commit state (new_api_key digest state.store identity expires_at key_id random now)

abbrev pub is_over : Option ℕ → ℕ → Bool
is_over none now = false
is_over (some expires_at) now = leb expires_at now

-- The three conditions of `allowed`.
unfoldable pub is_allowed : (String → String) → ApiKeyCredential × String → String → ℕ → Bool
is_allowed digest (credential, stored_hash) api_key now =
    credential.status == active
    && not (is_over credential.expires_at now)
    && stored_hash == digest api_key

-- The credential as the store gives it: an unknown key fails like one that is not allowed.
unfoldable pub check_api_key :
    (String → String)
    → IdentityState
    → String
    → String
    → ℕ
    → Result AuthError (ApiKeyCredential × String)
    → Outcome UserIdentity
unfolding is_allowed audit
check_api_key digest state key_id api_key now (err value_error) = (err value_error, state)
check_api_key digest state key_id api_key now (err _) = (
  err authentication_failed,
  audit state "api_key_authenticate_failed" "denied" "anonymous" none (some key_id),
)
check_api_key digest state key_id api_key now (ok entry) =
    if is_allowed digest entry api_key now
    then (
      ok entry.0.identity,
      audit state "api_key_authenticate_success" "allowed" entry.0.identity.user_id none
          (some entry.0.key_id),
    )
    else (
      err authentication_failed,
      audit state "api_key_authenticate_failed" "denied" "anonymous" none (some key_id),
    )

unfoldable pub authenticate_key_id :
    (String → String) → IdentityState → String → ℕ → Result AuthError String → Outcome UserIdentity
unfolding get_api_key check_api_key audit
authenticate_key_id digest state api_key now (err e) =
    (err e, audit state "api_key_authenticate_failed" "denied" "anonymous" none none)
authenticate_key_id digest state api_key now (ok key_id) =
    check_api_key digest state key_id api_key now (get_api_key state.store key_id)

unfoldable pub authenticate_api_key :
    (String → String) → IdentityState → String → ℕ → Outcome UserIdentity
unfolding api_key_id authenticate_key_id
authenticate_api_key digest state api_key now =
    authenticate_key_id digest state api_key now (api_key_id api_key)

unfoldable pub revoked_key : IdentityStore → String → Result AuthError (Unit {0} × IdentityStore)
unfolding set_api_key_status
revoked_key store key_id = do
  updated ← hide_key_error (set_api_key_status store key_id revoked)
  ok (tt, updated.1)

unfoldable pub revoke_api_key : IdentityState → String → Outcome (Unit {0})
unfolding revoked_key commit
revoke_api_key state key_id = commit state (revoked_key state.store key_id)
