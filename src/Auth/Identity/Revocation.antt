-- ===== src/Auth/Identity/Revocation.antt =====
-- What a revocation and a replay guarantee of all that follows.
use networkops_ai_agent.Auth.Identity.{
  IdentityStore, rotate_refresh, required, make_session, create_session, ApiKeyCredential,
  make_credential, store_api_key, set_api_key_status, revoked, status_eq,
}
use networkops_ai_agent.Auth.Identity.Lifecycle.{
  Ended, check_session-Ended, lookup_session-Ended, commit-Ended, store_api_key-sessions,
  set_api_key_status-sessions, hide_key_error-ok, status_at-sessions, Operation, perform, op_issue,
  op_refresh, op_authenticate, op_get_session, op_logout, audit_revoked-Ended, set_status-Ended,
  op_revoke, op_create_key, op_authenticate_key, authenticate_key_id-Ended, op_revoke_key,
  perform_all,
}
use networkops_ai_agent.Auth.Identity.Service.{
  IdentityState, after_rotation, audit, rotate, hash_of, refresh_verified, authenticate_verified,
  lookup_session, new_session, issue_session, new_api_key, revoked_key, hide_key_error, commit,
  refresh, authenticate_access_token, logout, revoke_session, authenticate_api_key, revoke_as,
  create_api_key, revoke_api_key, api_key_id,
}
use networkops_ai_agent.Auth.Identity.Sessions.{
  is_inactive, status_at, rotate_entry-inactive, create_session-inactive,
}
use networkops_ai_agent.Auth.Models.{UserIdentity, role_eq, permission_eq}
use networkops_ai_agent.Auth.Token.{
  Jwt, TokenSettings, TokenPair, AuthError, create_session_tokens, verify_refresh_token,
  verify_access_token,
}
use networkops_ai_agent.Base.{
  String, Result, Bool, ◌≡◌, ok, true, err, false, refl, ℕ, >>=-eq-ok, subst, ok_injective, ap,
  Option, ◌<>◌, sym, ◌∙◌, List, [], ◌∷◌, nat_eq, string_eq,
}
use networkops_ai_agent.Embedded.Models.{state_eq, category_eq}

module _ {Token : Type 0} (jwt : Jwt Token) (settings : TokenSettings) (digest : String → String)
    (key : String) where
  rotated-Ended :
      (state : IdentityState) (identity : UserIdentity) (session_id : String)
      (pair : TokenPair Token) (r : Result AuthError (Bool × IdentityStore))
      → Ended key state
      → ((p : Bool × IdentityStore) → r ≡ ok p → is_inactive (status_at p.1 key) ≡ true)
      → Ended key (after_rotation jwt settings digest state identity session_id pair r).1
  unfolding after_rotation audit
  rotated-Ended state identity session_id pair (err e) ended keeps = ended
  rotated-Ended state identity session_id pair (ok (false, store)) ended keeps =
      keeps (false, store) refl
  rotated-Ended state identity session_id pair (ok (true, store)) ended keeps =
      keeps (true, store) refl

  rotate_refresh-inactive :
      (store : IdentityStore) (session_id expected_hash new_hash : String) (expires_at : ℕ)
      (p : Bool × IdentityStore)
      → is_inactive (status_at store key) ≡ true
      → rotate_refresh store session_id expected_hash new_hash expires_at ≡ ok p
      → is_inactive (status_at p.1 key) ≡ true
  unfolding rotate_refresh
  rotate_refresh-inactive store session_id expected_hash new_hash expires_at p inactive h =
      let (at, _, made) = >>=-eq-ok (required session_id) _ h in
      subst (λ q. is_inactive (status_at q.1 key) ≡ true) (ok_injective made)
        (rotate_entry-inactive store at expected_hash new_hash expires_at key inactive)

  rotate-Ended :
      (state : IdentityState) (token : Token) (identity : UserIdentity) (session_id : String)
      (r : Result AuthError (TokenPair Token))
      → Ended key state
      → Ended key (rotate jwt settings digest state token identity session_id r).1
  unfolding rotate
  rotate-Ended state token identity session_id (err e) ended = ended
  rotate-Ended state token identity session_id (ok pair) ended =
      rotated-Ended state identity session_id pair _ ended (λ p h.
        rotate_refresh-inactive state.store session_id (hash_of jwt settings digest token)
          (hash_of jwt settings digest pair.refresh_token) pair.refresh_expires_at p ended h)

  refresh_verified-Ended :
      (state : IdentityState) (token : Token) (jti : String) (now : ℕ)
      (r : Result AuthError (UserIdentity × String × String))
      → Ended key state
      → Ended key (refresh_verified jwt settings digest state token jti now r).1
  unfolding refresh_verified audit
  refresh_verified-Ended state token jti now (err e) ended = ended
  refresh_verified-Ended state token jti now (ok (identity, session_id, id)) ended =
      rotate-Ended state token identity session_id _ ended

  authenticate_verified-Ended :
      (state : IdentityState) (now : ℕ) (r : Result AuthError (UserIdentity × String))
      → Ended key state
      → Ended key (authenticate_verified jwt settings digest state now r).1
  unfolding authenticate_verified
  authenticate_verified-Ended state now (err e) ended = ended
  authenticate_verified-Ended state now (ok (identity, session_id)) ended =
      check_session-Ended key identity (lookup_session state session_id now)
        (lookup_session-Ended key state ended session_id now)

  new_session-inactive :
      (store : IdentityStore) (identity : UserIdentity) (session_id jti : String) (now : ℕ)
      (pair : TokenPair Token) (after : IdentityStore)
      → is_inactive (status_at store key) ≡ true
      → new_session jwt settings digest store identity session_id jti now ≡ ok (pair, after)
      → is_inactive (status_at after key) ≡ true
  unfolding new_session
  new_session-inactive store identity session_id jti now pair after inactive h =
      let (p, _, h1) =
        >>=-eq-ok (create_session_tokens jwt settings identity session_id jti now) _ h in
      let (session, _, h2) =
        >>=-eq-ok (make_session p.session_id identity now p.refresh_expires_at) _ h1 in
      let (stored, is_new, made) =
        >>=-eq-ok (create_session store session (hash_of jwt settings digest p.refresh_token)) _
          h2 in
      subst (λ s. is_inactive (status_at s key) ≡ true) (ap (λ q. q.1) (ok_injective made))
        (create_session-inactive store session (hash_of jwt settings digest p.refresh_token) key
          stored is_new inactive)

  issue_session-Ended :
      (state : IdentityState) (identity : UserIdentity) (session_id jti : String) (now : ℕ)
      → Ended key state
      → Ended key (issue_session jwt settings digest state identity session_id jti now).1
  unfolding issue_session
  issue_session-Ended state identity session_id jti now ended =
      commit-Ended key state
        (new_session jwt settings digest state.store identity session_id jti now) ended
        (λ pair store h.
          new_session-inactive state.store identity session_id jti now pair store ended h)

  new_api_key-sessions :
      (store : IdentityStore) (identity : UserIdentity) (expires_at : Option ℕ)
      (key_id random : String) (now : ℕ) (made : ApiKeyCredential × String) (after : IdentityStore)
      → new_api_key digest store identity expires_at key_id random now ≡ ok (made, after)
      → after.sessions ≡ store.sessions
  unfolding new_api_key
  new_api_key-sessions store identity expires_at key_id random now made after h =
      let (credential, _, h1) = >>=-eq-ok (make_credential key_id identity now expires_at) _ h in
      let (stored, kept, e) =
        >>=-eq-ok (store_api_key store credential (digest ("nops." <> (key_id <> ("." <> random)))))
          _ h1 in
      ap (λ q. q.1.sessions) (sym (ok_injective e))
      ∙ store_api_key-sessions store credential (digest ("nops." <> (key_id <> ("." <> random))))
          stored kept

  revoked_key-sessions :
      (store : IdentityStore) (key_id : String) (unit : Unit {0}) (after : IdentityStore)
      → revoked_key store key_id ≡ ok (unit, after)
      → after.sessions ≡ store.sessions
  unfolding revoked_key
  revoked_key-sessions store key_id unit after h =
      let (p, stored, e) =
        >>=-eq-ok (hide_key_error (set_api_key_status store key_id revoked)) _ h in
      ap (λ q. q.1.sessions) (sym (ok_injective e))
      ∙ set_api_key_status-sessions store key_id revoked p.0 p.1
          (hide_key_error-ok (set_api_key_status store key_id revoked) p stored)

  -- An operation on keys leaves the sessions.
  keys-Ended :
      {A : Type 0} (state : IdentityState) (r : Result AuthError (A × IdentityStore))
      → ((a : A) (after : IdentityStore)
          → r ≡ ok (a, after)
          → after.sessions ≡ state.store.sessions)
      → Ended key state
      → Ended key (commit state r).1
  keys-Ended state r same ended =
      commit-Ended key state r ended
        (λ a after h. rw (status_at-sessions after state.store key (same a after h)) ended)

  perform-Ended :
      (state : IdentityState) (operation : Operation Token)
      → Ended key state
      → Ended key (perform jwt settings digest state operation)
  unfolding perform refresh authenticate_access_token logout revoke_session authenticate_api_key
      revoke_as create_api_key revoke_api_key
  perform-Ended state (op_issue identity session_id jti now) ended =
      issue_session-Ended state identity session_id jti now ended
  perform-Ended state (op_refresh token jti now) ended =
      refresh_verified-Ended state token jti now (verify_refresh_token jwt settings token now) ended
  perform-Ended state (op_authenticate token now) ended =
      authenticate_verified-Ended state now (verify_access_token jwt settings token now) ended
  perform-Ended state (op_get_session session_id now) ended =
      lookup_session-Ended key state ended session_id now
  perform-Ended state (op_logout session_id) ended =
      audit_revoked-Ended key _ _ (set_status-Ended key state ended revoked session_id refl)
  perform-Ended state (op_revoke session_id) ended =
      audit_revoked-Ended key _ _ (set_status-Ended key state ended revoked session_id refl)
  perform-Ended state (op_create_key identity expires_at key_id random now) ended =
      keys-Ended state (new_api_key digest state.store identity expires_at key_id random now)
        (λ made after h.
          new_api_key-sessions state.store identity expires_at key_id random now made after h)
        ended
  perform-Ended state (op_authenticate_key api_key now) ended =
      authenticate_key_id-Ended digest key state api_key now (api_key_id api_key) ended
  perform-Ended state (op_revoke_key key_id) ended =
      keys-Ended state (revoked_key state.store key_id)
        (λ unit after h. revoked_key-sessions state.store key_id unit after h) ended

  -- A session that was revoked or has expired stays so, whatever operations follow.
  pub perform_all-Ended :
      (operations : List (Operation Token)) (state : IdentityState)
      → Ended key state
      → Ended key (perform_all jwt settings digest state operations)
  unfolding perform_all
  perform_all-Ended [] state ended = ended
  perform_all-Ended (operation ∷ operations) state ended =
      perform_all-Ended operations (perform jwt settings digest state operation)
        (perform-Ended state operation ended)
