-- ===== src/Auth/Identity/Sessions.antt =====
-- The status of sessions in the store: who is inactive stays so, and a replay revokes.
use networkops_ai_agent.Base.Dict
use networkops_ai_agent.Auth.Identity.{
  IdentityStore, SessionStatus, revoked, expired, IdentitySession, put_session, create_session,
  rotate_entry, set_session_status, required, active, status_eq,
}
use networkops_ai_agent.Auth.Token.{value_error, key_error}
use networkops_ai_agent.Base.{
  String, Option, none, some, Bool, true, false, ◌≡◌, if◌then◌else◌, ◌==◌, arith, not, is_none, ok,
  raise_if-eq-ok, subst, ok_injective, eq_iff, ℕ, Option-cases, inl, inr, strip, >>=-eq-ok,
  or_raise, is_blank, ap, sym, ◌∙◌, Bool-cases, refl, eq_refl, nat_eq, string_eq,
}
use networkops_ai_agent.Base.Dict.{Dict}

-- The status of the session under a key.
unfoldable pub status_at : IdentityStore → String → Option SessionStatus
unfolding Dict.get
status_at store key = elim (Dict.get store.sessions key) [
  | none ↦ none
  | some (session, _) ↦ some session.status
]

-- A session that was revoked or has expired.
abbrev pub is_inactive : Option SessionStatus → Bool
is_inactive (some revoked) = true
is_inactive (some expired) = true
is_inactive _ = false

pub put_session-status :
    (store : IdentityStore) (key : String) (session : IdentitySession) (hash : String) (j : String)
    → status_at (put_session store key session hash) j
      ≡ (if key == j then some session.status else status_at store j)
unfolding status_at put_session
put_session-status store key session hash j =
    ground (arith, Dict.get-put store.sessions key (session, hash) j)

has-status :
    (store : IdentityStore) (key : String)
    → Dict.has store.sessions key ≡ not (is_none (status_at store key))
unfolding status_at Dict.has Dict.get
has-status store key = ground arith

pub create_session-inactive :
    (store : IdentityStore) (session : IdentitySession) (hash key : String) (after : IdentityStore)
    → create_session store session hash ≡ ok after
    → is_inactive (status_at store key) ≡ true
    → is_inactive (status_at after key) ≡ true
unfolding create_session
create_session-inactive store session hash key after h inactive =
    let (new, made) = raise_if-eq-ok (Dict.has store.sessions session.session_id) value_error _ h in
    subst (λ s. is_inactive (status_at s key) ≡ true) (ok_injective made)
      (ground (
        arith,
        put_session-status store session.session_id session hash key,
        has-status store session.session_id,
        new,
        inactive,
        eq_iff session.session_id key,
      ))

pub rotate_entry-inactive :
    (store : IdentityStore) (at expected_hash new_hash : String) (expires_at : ℕ) (key : String)
    → is_inactive (status_at store key) ≡ true
    → is_inactive (
        status_at
          (rotate_entry store at (Dict.get store.sessions at) expected_hash new_hash expires_at).1
          key)
      ≡ true
unfolding rotate_entry status_at
rotate_entry-inactive store at expected_hash new_hash expires_at key inactive =
    elim (Option-cases (Dict.get store.sessions at)) [
      | inl e ↦ rw e inactive
      | inr ((session, hash), e) ↦ rw e (
          ground (
            arith,
            put_session-status store at (record session { status = revoked }) "" key,
            put_session-status store at (record session { expires_at = expires_at }) new_hash key,
            e,
            inactive,
            eq_iff at key,
          ))
    ]

-- What a change of a status does to the statuses.
pub set_session_status-status :
    (store : IdentityStore) (session_id : String) (status : SessionStatus)
    (updated : IdentitySession) (after : IdentityStore) (j : String)
    → set_session_status store session_id status ≡ ok (updated, after)
    → status_at after j ≡ (if strip session_id == j then some status else status_at store j)
unfolding set_session_status required
set_session_status-status store session_id status updated after j h =
    let (key, named, h1) = >>=-eq-ok (required session_id) _ h in
    let (entry, found, made) = >>=-eq-ok (or_raise (Dict.get store.sessions key) key_error) _ h1 in
    let (_, key_eq) = raise_if-eq-ok (is_blank session_id) value_error _ named in
    ap (λ p. status_at p j) (sym (ap (λ p. p.1) (ok_injective made)))
    ∙ put_session-status store key (record entry.0 { status = status }) entry.1 j
    ∙ ap (λ k. if k == j then some status else status_at store j) (sym (ok_injective key_eq))

pub set_session_status-inactive :
    (store : IdentityStore) (session_id : String) (status : SessionStatus)
    (updated : IdentitySession) (after : IdentityStore) (key : String)
    → set_session_status store session_id status ≡ ok (updated, after)
    → is_inactive (some status) ≡ true
    → is_inactive (status_at store key) ≡ true
    → is_inactive (status_at after key) ≡ true
set_session_status-inactive store session_id status updated after key h ends inactive =
    rw (set_session_status-status store session_id status updated after key h)
      (elim (Bool-cases (strip session_id == key)) [ inl e ↦ rw e ends | inr e ↦ rw e inactive ])

-- A rotation that succeeds leaves an active session with the new digest.
record Rotated (store : IdentityStore) (key new : String) (after : IdentityStore) : Type 0 where
  session : IdentitySession
  is_active : (session.status == active) ≡ true
  stored : put_session store key session new ≡ after

exchanged :
    (is_active same : Bool) (idle revoking rotated after : IdentityStore)
    → ◌≡◌ {A = Bool × IdentityStore}
        (if not is_active
          then (false, idle)
          else if not same
          then (false, revoking)
          else (true, rotated))
        (true, after)
    → (is_active ≡ true) × (rotated ≡ after)
exchanged true true idle revoking rotated after h = (refl, ap (λ p. p.1) h)
exchanged true false idle revoking rotated after h = cc
exchanged false same idle revoking rotated after h = cc

rotate_entry-Rotated :
    (store : IdentityStore) (key : String) (found : Option (IdentitySession × String))
    (hash new : String) (expires_at : ℕ) (after : IdentityStore)
    → rotate_entry store key found hash new expires_at ≡ (true, after)
    → Rotated store key new after
unfolding rotate_entry
rotate_entry-Rotated store key none hash new expires_at after h = cc
rotate_entry-Rotated store key (some (session, current)) hash new expires_at after h =
    let (is_active, stored) =
      exchanged (session.status == active) (current == hash) store
        (put_session store key (record session { status = revoked }) "")
        (put_session store key (record session { expires_at = expires_at }) new) after h in
    record {
      session = record session { expires_at = expires_at };
      is_active = is_active;
      stored = stored;
    }

Rotated-get :
    (store : IdentityStore) (key new : String) (after : IdentityStore)
    (r : Rotated store key new after)
    → Dict.get after.sessions key ≡ some (r.session, new)
unfolding put_session
Rotated-get store key new after r =
    ap (λ s. Dict.get s.sessions key) (sym r.stored)
    ∙ Dict.get-put_self store.sessions key (r.session, new)

-- A digest that was exchanged is not accepted again: its second use revokes the session.
pub rotate_entry-replay :
    (store : IdentityStore) (key hash new other : String) (expires_at expires : ℕ)
    (after : IdentityStore)
    → rotate_entry store key (Dict.get store.sessions key) hash new expires_at ≡ (true, after)
    → (new == hash) ≡ false
    → ((rotate_entry after key (Dict.get after.sessions key) hash other expires).0 ≡ false)
      × (status_at (rotate_entry after key (Dict.get after.sessions key) hash other expires).1 key
          ≡ some revoked)
unfolding rotate_entry
rotate_entry-replay store key hash new other expires_at expires after h differs =
    let r =
      rotate_entry-Rotated store key (Dict.get store.sessions key) hash new expires_at after h in
    rw (Rotated-get store key new after r, r.is_active, differs)
      (
        refl,
        put_session-status after key (record r.session { status = revoked }) "" key
            ∙ rw (eq_refl key) refl,
      )
