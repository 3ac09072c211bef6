-- ===== src/Auth/Identity/Access.antt =====
-- Who authenticates: a session that is active and not over, and after a revocation nobody.
use networkops_ai_agent.Base.Dict
use networkops_ai_agent.Auth.Identity.{
  IdentitySession, get_session, active, required, IdentityStore, SessionStatus, set_session_status,
  expired, revoked, status_eq,
}
use networkops_ai_agent.Auth.Identity.Lifecycle.{Ended, Operation, perform_all}
use networkops_ai_agent.Auth.Identity.Revocation.{perform_all-Ended}
use networkops_ai_agent.Auth.Identity.Service.{
  IdentityState, same_identity, check_session, commit, expire_if_due, hide_key_error,
  authenticate_verified, lookup_session, authenticate_access_token, audit_revoked, audit, revoke_as,
}
use networkops_ai_agent.Auth.Identity.Sessions.{status_at, set_session_status-status}
use networkops_ai_agent.Auth.Models.{UserIdentity, role_eq, permission_eq}
use networkops_ai_agent.Auth.Token.{
  value_error, key_error, AuthError, authentication_failed, Jwt, TokenSettings, verify_access_token,
}
use networkops_ai_agent.Base.{
  String, ℕ, ◌≡◌, ok, ◌==◌, true, leb, false, is_blank, strip, raise_if-eq-ok, ok_injective, some,
  >>=-eq-ok, or_raise, arith, ap, sym, Result, err, refl, Bool, if◌then◌else◌, not, ◌||◌,
  Bool-cases, ◌&&◌, inl, inr, subst, eq_refl, List, ◌≢◌, ◌∙◌, nat_eq, string_eq,
}
use networkops_ai_agent.Base.Dict.{Dict}

-- What an access token that authenticates shows of the store.
pub record Authenticates (state : IdentityState) (identity : UserIdentity) (session_id : String)
    (now : ℕ) : Type 0 where
  pub session : IdentitySession
  pub stored : get_session state.store session_id ≡ ok session
  pub is_active : (session.status == active) ≡ true
  pub in_time : leb session.expires_at now ≡ false
  pub same : same_identity session.identity identity ≡ true

pub required-eq-ok :
    (value key : String) → required value ≡ ok key → (is_blank value ≡ false) × (strip value ≡ key)
unfolding required
required-eq-ok value key h =
    let (named, made) = raise_if-eq-ok (is_blank value) value_error _ h in
    (named, ok_injective made)

get_session-status :
    (store : IdentityStore) (session_id : String) (session : IdentitySession)
    → get_session store session_id ≡ ok session
    → status_at store (strip session_id) ≡ some session.status
unfolding get_session status_at
get_session-status store session_id session h =
    let (key, named, h1) = >>=-eq-ok (required session_id) _ h in
    let (entry, found, made) = >>=-eq-ok (or_raise (Dict.get store.sessions key) key_error) _ h1 in
    rw (required-eq-ok session_id key named).1
      (ground (arith, found, ap (λ s. s.status) (ok_injective made)))

set_session_status-updated :
    (store : IdentityStore) (session_id : String) (status : SessionStatus)
    (updated : IdentitySession) (after : IdentityStore)
    → set_session_status store session_id status ≡ ok (updated, after)
    → updated.status ≡ status
unfolding set_session_status
set_session_status-updated store session_id status updated after h =
    let (key, _, h1) = >>=-eq-ok (required session_id) _ h in
    let (entry, _, made) = >>=-eq-ok (or_raise (Dict.get store.sessions key) key_error) _ h1 in
    ap (λ p. p.0.status) (sym (ok_injective made))

-- A session that has just been marked EXPIRED does not authenticate.
expired-rejected :
    (state : IdentityState) (i identity : UserIdentity)
    (r : Result AuthError (IdentitySession × IdentityStore))
    → ((p : IdentitySession × IdentityStore) → r ≡ ok p → p.0.status ≡ expired)
    → (check_session i (commit state r)).0 ≡ ok identity
    → ⊥
unfolding check_session commit
expired-rejected state i identity (err e) marked h = cc
expired-rejected state i identity (ok (updated, store)) marked h =
    ground (arith, marked (updated, store) refl, h)

record Passed (i identity : UserIdentity) (session : IdentitySession) (now : ℕ) : Type 0 where
  is_active : (session.status == active) ≡ true
  in_time : leb session.expires_at now ≡ false
  same : same_identity session.identity i ≡ true
  as_given : i ≡ identity

active_passes :
    (is_active same : Bool) (i identity : UserIdentity)
    → (if not is_active || not same then err authentication_failed else ok i) ≡ ok identity
    → (is_active ≡ true) × (same ≡ true) × (i ≡ identity)
active_passes true true i identity h = (refl, refl, ok_injective h)
active_passes true false i identity h = cc
active_passes false same i identity h = cc

expire_if_due-Passed :
    (state : IdentityState) (now : ℕ) (i identity : UserIdentity) (session : IdentitySession)
    → (check_session i (expire_if_due state now (ok session))).0 ≡ ok identity
    → Passed i identity session now
unfolding expire_if_due
expire_if_due-Passed state now i identity session h =
    elim (Bool-cases (session.status == active && leb session.expires_at now)) [
      | inl e ↦ absurd (
          expired-rejected state i identity
            (set_session_status state.store session.session_id expired)
            (λ p made.
              set_session_status-updated state.store session.session_id expired p.0 p.1 made)
            (rw e at h))
      | inr e ↦
          let (is_active, same, given) =
            active_passes (session.status == active) (same_identity session.identity i) i identity
              (unfold check_session in rw e at h) in
          record {
            is_active = is_active;
            in_time = ground (arith, is_active, e);
            same = same;
            as_given = given;
          }
    ]

looked_up-Authenticates :
    (state : IdentityState) (now : ℕ) (i identity : UserIdentity) (session_id : String)
    (r : Result AuthError IdentitySession)
    → get_session state.store session_id ≡ r
    → (check_session i (expire_if_due state now (hide_key_error r))).0 ≡ ok identity
    → (i ≡ identity) × Authenticates state i session_id now
unfolding expire_if_due check_session
looked_up-Authenticates state now i identity session_id (err authentication_failed) found h = cc
looked_up-Authenticates state now i identity session_id (err value_error) found h = cc
looked_up-Authenticates state now i identity session_id (err key_error) found h = cc
looked_up-Authenticates state now i identity session_id (ok session) found h =
    let p = expire_if_due-Passed state now i identity session h in
    (
      p.as_given,
      record {
        session = session;
        stored = found;
        is_active = p.is_active;
        in_time = p.in_time;
        same = p.same;
      },
    )

module _ {Token : Type 0} (jwt : Jwt Token) (settings : TokenSettings)
    (digest : String → String) where
  verified-Authenticates :
      (state : IdentityState) (now : ℕ) (identity : UserIdentity)
      (r : Result AuthError (UserIdentity × String))
      → (authenticate_verified jwt settings digest state now r).0 ≡ ok identity
      → (session_id : String) × (r ≡ ok (identity, session_id))
        × Authenticates state identity session_id now
  unfolding authenticate_verified lookup_session
  verified-Authenticates state now identity (err e) h = cc
  verified-Authenticates state now identity (ok (i, session_id)) h =
      let (given, shown) =
        looked_up-Authenticates state now i identity session_id (get_session state.store session_id)
          refl h in
      (
        session_id,
        ap (λ x. ok (x, session_id)) given,
        subst (λ x. Authenticates state x session_id now) given shown,
      )

  -- An access token authenticates only an identity that it proves, in a session that is stored,
  -- active, not over, and of the same identity.
  pub authenticate_access_token-Authenticates :
      (state : IdentityState) (token : Token) (now : ℕ) (identity : UserIdentity)
      → (authenticate_access_token jwt settings digest state token now).0 ≡ ok identity
      → (session_id : String) × (verify_access_token jwt settings token now
          ≡ ok (identity, session_id))
        × Authenticates state identity session_id now
  unfolding authenticate_access_token
  authenticate_access_token-Authenticates state token now identity h =
      verified-Authenticates state now identity (verify_access_token jwt settings token now) h

active_session :
    (state : IdentityState) (identity : UserIdentity) (session_id : String) (now : ℕ)
    → Authenticates state identity session_id now
    → Ended (strip session_id) state
    → ⊥
active_session state identity session_id now a ended =
    ground (arith, get_session-status state.store session_id a.session a.stored, a.is_active, ended)

revoked-Ended :
    (action : String) (state after : IdentityState) (session_id : String)
    (r : Result AuthError (IdentitySession × IdentityStore))
    → set_session_status state.store session_id revoked ≡ r
    → audit_revoked action (commit state (hide_key_error r)) ≡ (ok tt, after)
    → Ended (strip session_id) after
unfolding audit_revoked commit audit
revoked-Ended action state after session_id (err authentication_failed) set h = cc
revoked-Ended action state after session_id (err value_error) set h = cc
revoked-Ended action state after session_id (err key_error) set h = cc
revoked-Ended action state after session_id (ok (session, store)) set h =
    subst (Ended (strip session_id)) (ap (λ p. p.1) h) (
      ground (
        arith,
        set_session_status-status state.store session_id revoked session store (strip session_id)
            set,
        eq_refl (strip session_id),
      ))

module _ {Token : Type 0} (jwt : Jwt Token) (settings : TokenSettings)
    (digest : String → String) where
  -- After a session was revoked or logged out, no token that names it authenticates anybody,
  -- whatever operations were performed in between and whenever the token is shown.
  pub revoke_as-final :
      (action : String) (state after : IdentityState) (session_id : String)
      (operations : List (Operation Token)) (token : Token) (now : ℕ) (identity i : UserIdentity)
      → revoke_as action state session_id ≡ (ok tt, after)
      → verify_access_token jwt settings token now ≡ ok (i, session_id)
      → (authenticate_access_token jwt settings digest
          (perform_all jwt settings digest after operations)
          token
          now).0
        ≢ ok identity
  unfolding revoke_as
  revoke_as-final action state after session_id operations token now identity i revoked_ok names h =
      let later = perform_all jwt settings digest after operations in
      let (sid, proven, shown) =
        authenticate_access_token-Authenticates jwt settings digest later token now identity h in
      let same : session_id ≡ sid = ap (λ p. p.1) (ok_injective (sym names ∙ proven)) in
      active_session later identity sid now shown (
        subst (λ s. Ended (strip s) later) same
          (perform_all-Ended jwt settings digest (strip session_id) operations after
            (revoked-Ended action state after session_id _ refl revoked_ok)))
