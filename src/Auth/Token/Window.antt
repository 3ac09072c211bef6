-- ===== src/Auth/Token/Window.antt =====
-- What the tokens of a session prove, and when.
use networkops_ai_agent.Auth.Models.{UserIdentity, role_eq, permission_eq}
use networkops_ai_agent.Auth.Token.{
  timestamp_of, microseconds, AuthError, authentication_failed, validate_dates, numeric_date, Jwt,
  IsJwt, session_required, required_claims, TokenSettings, verify_access_token,
  verify_session_token, verify_refresh_token, verify_token, refresh_claims, access_claims,
  TokenPair, create_session_tokens, session_pair, value_error, is_bad_pair,
}
use networkops_ai_agent.Auth.Token.Claims.{
  Holds, get_field-identity_claims, IsValid, access_claims-Holds, refresh_claims-Holds,
}
use networkops_ai_agent.Base.{
  ℕ, Bool, ltb, ◌*◌, ◌||◌, leb, Result, if◌then◌else◌, err, ok, String, ◌≡◌, raise_if, refl,
  is_blank, false, some, all, ◌∙◌, true, none, arith, ◌==◌, strip, strip_idem, raise_if-eq-ok,
  subst, ok_injective, ap, nat_eq, string_eq,
}
use networkops_ai_agent.Enterprise.Approval.{as_text, is_null}
use networkops_ai_agent.Values.{Fields, Value, str, get_field, value_eq, null}

-- An instant that is before the second of issue, or at the second of expiry or after.
abbrev pub is_outside : ℕ → ℕ → ℕ → Bool
is_outside issued expires now =
    ltb now (timestamp_of issued * microseconds)
    || leb (timestamp_of expires) (timestamp_of issued)
    || leb (timestamp_of expires * microseconds) now

-- What a token that proves an identity in a session answers.
abbrev pub proves {ℓ} : {A : Type ℓ} → Bool → A → Result AuthError A
proves outside answer = if outside then err authentication_failed else ok answer

validate_dates-Holds :
    (payload : Fields) (i : UserIdentity) (kind sid : String) (issued expires now : ℕ)
    → Holds payload i kind sid issued expires
    → validate_dates payload now ≡ raise_if (is_outside issued expires now) authentication_failed
unfolding validate_dates numeric_date
validate_dates-Holds payload i kind sid issued expires now holds = rw (holds.iat, holds.exp) refl

as_text-str : (v : Value) (s : String) → v ≡ str s → is_blank s ≡ false → as_text v ≡ some s
unfolding as_text
as_text-str v s e h = rw (e, h) refl

module _ {Token : Type 0} (jwt : Jwt Token) (is_jwt : IsJwt jwt) (payload : Fields)
    (i : UserIdentity) (kind sid : String) (issued expires : ℕ)
    (holds : Holds payload i kind sid issued expires) (named : is_blank sid ≡ false) where
  decode-Holds : jwt.decode (session_required false) (jwt.encode payload) ≡ some payload
  unfolding all
  decode-Holds =
      is_jwt.decode-encode (session_required false) payload
      ∙ rw (holds.sub, holds.username, holds.roles, holds.iat, holds.exp, holds.typ, holds.session)
          refl

  decode_jti-Holds :
      jwt.decode (session_required true) (jwt.encode payload)
      ≡ (if is_null (get_field payload "jti") then none else some payload)
  unfolding all
  decode_jti-Holds =
      is_jwt.decode-encode (session_required true) payload
      ∙ rw (holds.sub, holds.username, holds.roles, holds.iat, holds.exp, holds.typ, holds.session)
          (ground arith)

  decode_legacy-Holds : jwt.decode required_claims (jwt.encode payload) ≡ some payload
  unfolding all
  decode_legacy-Holds =
      is_jwt.decode-encode required_claims payload
      ∙ rw (holds.sub, holds.username, holds.roles, holds.iat, holds.exp) refl

module _ {Token : Type 0} (jwt : Jwt Token) (settings : TokenSettings) (is_jwt : IsJwt jwt)
    (payload : Fields) (i : UserIdentity) (kind sid : String) (issued expires : ℕ)
    (holds : Holds payload i kind sid issued expires) (named : is_blank sid ≡ false) where
  verify_access_token-Holds :
      (now : ℕ)
      → verify_access_token jwt settings (jwt.encode payload) now ≡ (
          if kind == "access"
          then proves (is_outside issued expires now) (i, sid)
          else err authentication_failed)
  unfolding verify_access_token verify_session_token value_eq
  verify_access_token-Holds now =
      rw
        (
          is_jwt.text-encode payload,
          decode-Holds jwt is_jwt payload i kind sid issued expires holds named,
          validate_dates-Holds payload i kind sid issued expires now holds,
        )
        (ground (
          arith,
          holds.typ,
          as_text-str (get_field payload "sid") sid holds.session named,
          holds.identity,
        ))

  verify_refresh_token-unnamed :
      (now : ℕ)
      → get_field payload "jti" ≡ null
      → verify_refresh_token jwt settings (jwt.encode payload) now ≡ err authentication_failed
  unfolding verify_refresh_token verify_session_token
  verify_refresh_token-unnamed now e =
      rw
        (
          is_jwt.text-encode payload,
          decode_jti-Holds jwt is_jwt payload i kind sid issued expires holds named,
          e,
        )
        refl

  verify_refresh_token-Holds :
      (jti : String) (now : ℕ)
      → get_field payload "jti" ≡ str jti
      → is_blank jti ≡ false
      → verify_refresh_token jwt settings (jwt.encode payload) now ≡ (
          if kind == "refresh"
          then proves (is_outside issued expires now) (i, sid, jti)
          else err authentication_failed)
  unfolding verify_refresh_token verify_session_token value_eq
  verify_refresh_token-Holds jti now e h =
      rw
        (
          is_jwt.text-encode payload,
          decode_jti-Holds jwt is_jwt payload i kind sid issued expires holds named,
          e,
          validate_dates-Holds payload i kind sid issued expires now holds,
        )
        (ground (
          arith,
          holds.typ,
          as_text-str (get_field payload "sid") sid holds.session named,
          as_text-str (get_field payload "jti") jti e h,
          holds.identity,
        ))

  verify_token-Holds :
      (now : ℕ) → verify_token jwt settings (jwt.encode payload) now ≡ err authentication_failed
  unfolding verify_token
  verify_token-Holds now =
      rw
        (
          is_jwt.text-encode payload,
          decode_legacy-Holds jwt is_jwt payload i kind sid issued expires holds named,
          validate_dates-Holds payload i kind sid issued expires now holds,
        )
        (ground (arith, holds.has_session))

jti_of :
    (i : UserIdentity) (sid jti : String) (issued expires : ℕ)
    → get_field (refresh_claims i sid jti issued expires) "jti" ≡ str jti
unfolding refresh_claims get_field
jti_of i sid jti issued expires = get_field-identity_claims i _ "jti" refl refl refl refl

no_jti_of :
    (i : UserIdentity) (sid : String) (issued expires : ℕ)
    → get_field (access_claims i sid issued expires) "jti" ≡ null
unfolding access_claims get_field
no_jti_of i sid issued expires = get_field-identity_claims i _ "jti" refl refl refl refl

-- What `create_session_tokens` returns.
record Issued {Token : Type 0} (jwt : Jwt Token) (i : UserIdentity) (jti : String) (issued : ℕ)
    (pair : TokenPair Token) : Type 0 where
  named : is_blank pair.session_id ≡ false
  access :
      pair.access_token ≡ jwt.encode (access_claims i pair.session_id issued pair.access_expires_at)
  refresh :
      pair.refresh_token
      ≡ jwt.encode (refresh_claims i pair.session_id jti issued pair.refresh_expires_at)

module _ {Token : Type 0} (jwt : Jwt Token) (settings : TokenSettings) (i : UserIdentity)
    (session_id jti : String) (issued : ℕ) (pair : TokenPair Token) where
  is_blank-strip : is_blank session_id ≡ false → is_blank (strip session_id) ≡ false
  unfolding is_blank
  is_blank-strip h = rw strip_idem h

  create_session_tokens-Issued :
      create_session_tokens jwt settings i session_id jti issued ≡ ok pair
      → Issued jwt i jti issued pair
  unfolding create_session_tokens session_pair
  create_session_tokens-Issued h =
      let (named, h1) = raise_if-eq-ok (is_blank session_id) value_error _ h in
      let (_, made) =
        raise_if-eq-ok
          (is_bad_pair jwt settings (session_pair jwt settings i (strip session_id) jti issued))
          value_error _ h1 in
      subst (Issued jwt i jti issued) (ok_injective made)
        (record { named = is_blank-strip named; access = refl; refresh = refl })

  module _ (is_jwt : IsJwt jwt) (v : IsValid i)
      (made : create_session_tokens jwt settings i session_id jti issued ≡ ok pair) where
    access-Holds :
        Holds
          (access_claims i pair.session_id issued pair.access_expires_at)
          i
          "access"
          pair.session_id
          issued
          pair.access_expires_at
    access-Holds = access_claims-Holds i pair.session_id issued pair.access_expires_at v

    refresh-Holds :
        Holds
          (refresh_claims i pair.session_id jti issued pair.refresh_expires_at)
          i
          "refresh"
          pair.session_id
          issued
          pair.refresh_expires_at
    refresh-Holds = refresh_claims-Holds i pair.session_id jti issued pair.refresh_expires_at v

    -- The tokens that are issued for a session prove its identity from the second of issue until
    -- the second of expiry, and nothing outside it: the access token as such, and the refresh
    -- token as such with its id, for a JWT that decodes what it encoded.
    pub session_tokens-proves :
        (now : ℕ)
        → is_blank jti ≡ false
        → (verify_access_token jwt settings pair.access_token now
            ≡ proves (is_outside issued pair.access_expires_at now) (i, pair.session_id))
          × (verify_refresh_token jwt settings pair.refresh_token now
              ≡ proves (is_outside issued pair.refresh_expires_at now) (i, pair.session_id, jti))
    session_tokens-proves now h =
        let issued_pair = create_session_tokens-Issued made in
        (
          ap (λ t. verify_access_token jwt settings t now) issued_pair.access
              ∙ verify_access_token-Holds jwt settings is_jwt _ i "access" pair.session_id issued
                  pair.access_expires_at access-Holds issued_pair.named now,
          ap (λ t. verify_refresh_token jwt settings t now) issued_pair.refresh
              ∙ verify_refresh_token-Holds jwt settings is_jwt _ i "refresh" pair.session_id issued
                  pair.refresh_expires_at refresh-Holds issued_pair.named jti now
                  (jti_of i pair.session_id jti issued pair.refresh_expires_at) h,
        )

    -- A token of a session serves for its own kind only: a refresh token is never accepted as an
    -- access token, nor an access token as a refresh token, nor either as a legacy token.
    pub session_tokens-rejected :
        (now : ℕ)
        → (verify_access_token jwt settings pair.refresh_token now ≡ err authentication_failed)
          × (verify_refresh_token jwt settings pair.access_token now ≡ err authentication_failed)
          × (verify_token jwt settings pair.access_token now ≡ err authentication_failed)
          × (verify_token jwt settings pair.refresh_token now ≡ err authentication_failed)
    session_tokens-rejected now =
        let issued_pair = create_session_tokens-Issued made in
        (
          ap (λ t. verify_access_token jwt settings t now) issued_pair.refresh
              ∙ verify_access_token-Holds jwt settings is_jwt _ i "refresh" pair.session_id issued
                  pair.refresh_expires_at refresh-Holds issued_pair.named now,
          ap (λ t. verify_refresh_token jwt settings t now) issued_pair.access
              ∙ verify_refresh_token-unnamed jwt settings is_jwt _ i "access" pair.session_id issued
                  pair.access_expires_at access-Holds issued_pair.named now
                  (no_jti_of i pair.session_id issued pair.access_expires_at),
          ap (λ t. verify_token jwt settings t now) issued_pair.access
              ∙ verify_token-Holds jwt settings is_jwt _ i "access" pair.session_id issued
                  pair.access_expires_at access-Holds issued_pair.named now,
          ap (λ t. verify_token jwt settings t now) issued_pair.refresh
              ∙ verify_token-Holds jwt settings is_jwt _ i "refresh" pair.session_id issued
                  pair.refresh_expires_at refresh-Holds issued_pair.named now,
        )
