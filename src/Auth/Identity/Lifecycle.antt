-- ===== src/Auth/Identity/Lifecycle.antt =====
-- Sequences of operations of the identity service: a session that is inactive stays inactive, and
-- no token of it authenticates.
use networkops_ai_agent.Base.Dict
use networkops_ai_agent.Auth.Identity.{
  IdentityStore, SessionStatus, set_session_status, expired, IdentitySession, active, get_session,
  ApiKeyCredential, get_api_key, store_api_key, put_api_key, set_api_key_status, required,
  status_eq,
}
use networkops_ai_agent.Auth.Identity.Service.{
  IdentityState, issue_session, refresh, authenticate_access_token, lookup_session, logout,
  revoke_session, create_api_key, authenticate_api_key, revoke_api_key, commit, hide_key_error,
  expire_if_due, Outcome, audit_revoked, audit, check_session, check_api_key, is_allowed,
  authenticate_key_id,
}
use networkops_ai_agent.Auth.Identity.Sessions.{is_inactive, status_at, set_session_status-inactive}
use networkops_ai_agent.Auth.Models.{UserIdentity, role_eq, permission_eq}
use networkops_ai_agent.Auth.Token.{
  Jwt, TokenSettings, AuthError, value_error, authentication_failed, key_error,
}
use networkops_ai_agent.Base.{
  String, ℕ, Option, List, [], ◌∷◌, ◌≡◌, true, Result, ok, refl, err, arith, some, Bool-cases, ◌==◌,
  ◌&&◌, leb, inl, inr, raise_if-eq-ok, ap, sym, ok_injective, >>=-eq-ok, or_raise, nat_eq,
  string_eq,
}
use networkops_ai_agent.Base.Dict.{Dict}

-- The operations of the service with their arguments.
pub data Operation (Token : Type 0) : Type 0 where
  op_issue : UserIdentity → String → String → ℕ → Operation Token
  op_refresh : Token → String → ℕ → Operation Token
  op_authenticate : Token → ℕ → Operation Token
  op_get_session : String → ℕ → Operation Token
  op_logout op_revoke : String → Operation Token
  op_create_key : UserIdentity → Option ℕ → String → String → ℕ → Operation Token
  op_authenticate_key : String → ℕ → Operation Token
  op_revoke_key : String → Operation Token

module _ {Token : Type 0} (jwt : Jwt Token) (settings : TokenSettings)
    (digest : String → String) where
  -- The state after one operation, whether it returned or raised.
  unfoldable pub perform : IdentityState → Operation Token → IdentityState
  unfolding issue_session refresh authenticate_access_token lookup_session logout revoke_session
      create_api_key authenticate_api_key revoke_api_key
  perform state (op_issue identity session_id jti now) =
      (issue_session jwt settings digest state identity session_id jti now).1
  perform state (op_refresh token jti now) = (refresh jwt settings digest state token jti now).1
  perform state (op_authenticate token now) =
      (authenticate_access_token jwt settings digest state token now).1
  perform state (op_get_session session_id now) = (lookup_session state session_id now).1
  perform state (op_logout session_id) = (logout state session_id).1
  perform state (op_revoke session_id) = (revoke_session state session_id).1
  perform state (op_create_key identity expires_at key_id random now) =
      (create_api_key digest state identity expires_at key_id random now).1
  perform state (op_authenticate_key api_key now) =
      (authenticate_api_key digest state api_key now).1
  perform state (op_revoke_key key_id) = (revoke_api_key state key_id).1

  unfoldable pub perform_all : IdentityState → List (Operation Token) → IdentityState
  unfolding perform
  perform_all state [] = state
  perform_all state (operation ∷ operations) = perform_all (perform state operation) operations

-- The session under the key is there and inactive.
abbrev pub Ended : String → IdentityState → Type 0
Ended key state = is_inactive (status_at state.store key) ≡ true

pub commit-Ended :
    {A : Type 0} (key : String) (state : IdentityState) (r : Result AuthError (A × IdentityStore))
    → Ended key state
    → ((a : A) (store : IdentityStore)
        → r ≡ ok (a, store)
        → is_inactive (status_at store key) ≡ true)
    → Ended key (commit state r).1
unfolding commit
commit-Ended key state (ok (a, store)) ended keeps = keeps a store refl
commit-Ended key state (err e) ended keeps = ended

pub hide_key_error-ok :
    {A : Type 0} (r : Result AuthError A) (a : A) → hide_key_error r ≡ ok a → r ≡ ok a
hide_key_error-ok r a h = ground arith

module _ (key : String) (state : IdentityState) (ended : Ended key state) where
  pub set_status-Ended :
      (status : SessionStatus) (session_id : String)
      → is_inactive (some status) ≡ true
      → Ended key
          (commit state (hide_key_error (set_session_status state.store session_id status))).1
  set_status-Ended status session_id ends =
      commit-Ended key state (hide_key_error (set_session_status state.store session_id status))
        ended
        (λ updated store h.
          set_session_status-inactive state.store session_id status updated store key
            (hide_key_error-ok (set_session_status state.store session_id status) (updated, store)
              h)
            ends ended)

  expire-Ended :
      (session_id : String)
      → Ended key (commit state (set_session_status state.store session_id expired)).1
  expire-Ended session_id =
      commit-Ended key state (set_session_status state.store session_id expired) ended
        (λ updated store h.
          set_session_status-inactive state.store session_id expired updated store key h refl ended)

  expire_if_due-Ended :
      (now : ℕ) (r : Result AuthError IdentitySession) → Ended key (expire_if_due state now r).1
  unfolding expire_if_due
  expire_if_due-Ended now (err e) = ended
  expire_if_due-Ended now (ok session) =
      elim (Bool-cases (session.status == active && leb session.expires_at now)) [
        | inl e ↦ rw e (expire-Ended session.session_id)
        | inr e ↦ rw e ended
      ]

  pub lookup_session-Ended :
      (session_id : String) (now : ℕ) → Ended key (lookup_session state session_id now).1
  unfolding lookup_session
  lookup_session-Ended session_id now =
      expire_if_due-Ended now (hide_key_error (get_session state.store session_id))

pub audit_revoked-Ended :
    (key action : String) (outcome : Outcome IdentitySession)
    → Ended key outcome.1
    → Ended key (audit_revoked action outcome).1
unfolding audit_revoked audit
audit_revoked-Ended key action (ok session, state) ended = ended
audit_revoked-Ended key action (err e, state) ended = ended

pub check_session-Ended :
    (key : String) (identity : UserIdentity) (outcome : Outcome IdentitySession)
    → Ended key outcome.1
    → Ended key (check_session identity outcome).1
unfolding check_session
check_session-Ended key identity (ok session, state) ended = ended
check_session-Ended key identity (err e, state) ended = ended

check_api_key-Ended :
    (digest : String → String) (key : String) (state : IdentityState) (key_id api_key : String)
    (now : ℕ) (r : Result AuthError (ApiKeyCredential × String))
    → Ended key state
    → Ended key (check_api_key digest state key_id api_key now r).1
unfolding check_api_key audit
check_api_key-Ended digest key state key_id api_key now (err value_error) ended = ended
check_api_key-Ended digest key state key_id api_key now (err authentication_failed) ended = ended
check_api_key-Ended digest key state key_id api_key now (err key_error) ended = ended
check_api_key-Ended digest key state key_id api_key now (ok entry) ended =
    elim (Bool-cases (is_allowed digest entry api_key now)) [
      | inl e ↦ rw e ended
      | inr e ↦ rw e ended
    ]

pub authenticate_key_id-Ended :
    (digest : String → String) (key : String) (state : IdentityState) (api_key : String) (now : ℕ)
    (r : Result AuthError String)
    → Ended key state
    → Ended key (authenticate_key_id digest state api_key now r).1
unfolding authenticate_key_id audit
authenticate_key_id-Ended digest key state api_key now (err e) ended = ended
authenticate_key_id-Ended digest key state api_key now (ok key_id) ended =
    check_api_key-Ended digest key state key_id api_key now (get_api_key state.store key_id) ended

pub store_api_key-sessions :
    (store : IdentityStore) (credential : ApiKeyCredential) (hash : String) (after : IdentityStore)
    → store_api_key store credential hash ≡ ok after
    → after.sessions ≡ store.sessions
unfolding store_api_key put_api_key
store_api_key-sessions store credential hash after h =
    let (_, made) = raise_if-eq-ok (Dict.has store.api_keys credential.key_id) value_error _ h in
    ap (λ s. s.sessions) (sym (ok_injective made))

pub set_api_key_status-sessions :
    (store : IdentityStore) (key_id : String) (status : SessionStatus) (updated : ApiKeyCredential)
    (after : IdentityStore)
    → set_api_key_status store key_id status ≡ ok (updated, after)
    → after.sessions ≡ store.sessions
unfolding set_api_key_status put_api_key
set_api_key_status-sessions store key_id status updated after h =
    let (key, _, h1) = >>=-eq-ok (required key_id) _ h in
    let (entry, _, made) = >>=-eq-ok (or_raise (Dict.get store.api_keys key) key_error) _ h1 in
    ap (λ p. p.1.sessions) (sym (ok_injective made))

pub status_at-sessions :
    (a b : IdentityStore) (key : String)
    → a.sessions ≡ b.sessions
    → status_at a key ≡ status_at b key
unfolding status_at
status_at-sessions a b key h = rw h refl
