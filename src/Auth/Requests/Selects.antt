-- ===== src/Auth/Requests/Selects.antt =====
-- Exactly one credential of a request decides.
use networkops_ai_agent.Audit.Redaction.{lower_plain}
use networkops_ai_agent.Auth.Identity.Access.{
  Authenticates, authenticate_access_token-Authenticates,
}
use networkops_ai_agent.Auth.Identity.Service.{
  IdentityState, authenticate_api_key, authenticate_access_token,
}
use networkops_ai_agent.Auth.Models.{UserIdentity, role_eq, permission_eq}
use networkops_ai_agent.Auth.Requests.{
  RequestHeaders, bearer_of, bearer_token, authenticate_token, authenticate_bearer,
  authenticate_key, authenticate,
}
use networkops_ai_agent.Auth.Token.{
  authentication_failed, Jwt, TokenSettings, verify_access_token, AuthError,
}
use networkops_ai_agent.Base.{
  String, ◌≡◌, some, none, words, ◌∷◌, [], is_blank, false, List, ok, Bool-cases, ◌==◌, ◌&&◌, not,
  is_empty, inl, ok_injective, ap, eq_iff, arith, inr, Option, or_raise, >>=-eq-ok, ℕ, ◌⊎◌, strip,
  Result, err, refl, Option-cases, nat_eq, string_eq,
}

-- A request with a bearer token and no key.
pub record WithBearer (request : RequestHeaders) (token : String) : Type 0 where
  pub header : String
  pub scheme : String
  pub given : request.authorization ≡ some header
  pub no_key : request.x_api_key ≡ none
  pub parts : words header ≡ scheme ∷ token ∷ []
  pub is_bearer : lower_plain scheme ≡ "bearer"

-- A request with a key that is not blank and no other credential.
pub record WithKey (request : RequestHeaders) (api_key : String) : Type 0 where
  pub given : request.x_api_key ≡ some api_key
  pub no_bearer : request.authorization ≡ none
  pub not_blank : is_blank api_key ≡ false

bearer_of-ok :
    (parts : List String) (token : String)
    → bearer_of parts ≡ ok token
    → (scheme : String) × (parts ≡ scheme ∷ token ∷ []) × (lower_plain scheme ≡ "bearer")
unfolding bearer_of
bearer_of-ok [] token h = cc
bearer_of-ok (a ∷ []) token h = cc
bearer_of-ok (a ∷ b ∷ c ∷ rest) token h = cc
bearer_of-ok (scheme ∷ word ∷ []) token h =
    elim (Bool-cases (lower_plain scheme == "bearer" && not (is_empty word))) [
      | inl passes ↦
          let same : word ≡ token = ok_injective (rw passes at h) in
          (
            scheme,
            ap (λ w. scheme ∷ w ∷ []) same,
            (eq_iff (lower_plain scheme) "bearer").0 (ground (arith, passes)),
          )
      | inr fails ↦ cc (rw fails at h)
    ]

or_raise-some :
    (header : Option String) (text : String)
    → or_raise header authentication_failed ≡ ok text
    → header ≡ some text
or_raise-some (some header) text h = ap some (ok_injective h)
or_raise-some none text h = cc

bearer_token-ok :
    (request : RequestHeaders) (token : String)
    → request.x_api_key ≡ none
    → bearer_token request ≡ ok token
    → WithBearer request token
unfolding bearer_token
bearer_token-ok request token no_key h =
    let (header, given, split) =
      >>=-eq-ok (or_raise request.authorization authentication_failed) _ h in
    let (scheme, parts, is_bearer) = bearer_of-ok (words header) token split in
    record {
      header = header;
      scheme = scheme;
      given = or_raise-some request.authorization header given;
      no_key = no_key;
      parts = parts;
      is_bearer = is_bearer;
    }

module _ {Token : Type 0} (jwt : Jwt Token) (settings : TokenSettings) (digest : String → String)
    (as_token : String → Token) (state : IdentityState) (request : RequestHeaders) (now : ℕ)
    (identity : UserIdentity) where
  -- Who vouches for the identity of a request.
  abbrev pub Vouched : Type 0
  Vouched =
      ((token : String) × WithBearer request token
        × (session_id : String) × (verify_access_token jwt settings (as_token token) now
            ≡ ok (identity, session_id))
        × Authenticates state identity session_id now)
      ⊎ ((api_key : String) × WithKey request api_key
          × ((authenticate_api_key digest state (strip api_key) now).0 ≡ ok identity))

  by_token :
      (r : Result AuthError String)
      → (authenticate_token jwt settings digest as_token state now r).0 ≡ ok identity
      → (token : String) × (r ≡ ok token)
        × ((authenticate_access_token jwt settings digest state (as_token token) now).0
            ≡ ok identity)
  unfolding authenticate_token
  by_token (err e) h = cc
  by_token (ok token) h = (token, refl, h)

  by_bearer :
      request.x_api_key ≡ none
      → (authenticate_bearer jwt settings digest as_token state request now).0 ≡ ok identity
      → Vouched
  unfolding authenticate_bearer
  by_bearer no_key h =
      let (token, read, accepted) = by_token (bearer_token request) h in
      let (session_id, proved, a) =
        authenticate_access_token-Authenticates jwt settings digest state (as_token token) now
          identity accepted in
      inl (token, bearer_token-ok request token no_key read, session_id, proved, a)

  by_key :
      (api_key : String)
      → request.x_api_key ≡ some api_key
      → request.authorization ≡ none
      → (authenticate_key jwt settings digest as_token state (some api_key) now).0 ≡ ok identity
      → Vouched
  unfolding authenticate_key
  by_key api_key given no_bearer h = elim (Bool-cases (is_blank api_key)) [
    | inl blank ↦ cc (rw blank at h)
    | inr filled ↦ inr (
      api_key,
      record { given = given; no_bearer = no_bearer; not_blank = filled },
      rw filled at h,
    )
  ]

  -- A request that is authenticated has exactly one credential: a header of two words of which
  -- the first is "bearer" in any case, whose token proves the identity in a stored and active
  -- session of the same identity that is not over, or a key that is not blank and that the
  -- service accepts for the identity.
  pub authenticate-Vouched :
      (authenticate jwt settings digest as_token state request now).0 ≡ ok identity → Vouched
  unfolding authenticate
  authenticate-Vouched h = elim (Option-cases request.authorization) [
    | inl no_bearer ↦ elim (Option-cases request.x_api_key) [
      | inl no_key ↦ cc (rw (no_bearer, no_key, authenticate) at h)
      | inr (api_key, given) ↦
          by_key api_key given no_bearer (rw (no_bearer, given, authenticate) at h)
    ]
    | inr (header, present) ↦ elim (Option-cases request.x_api_key) [
      | inl no_key ↦ by_bearer no_key (rw (present, no_key, authenticate) at h)
      | inr (api_key, given) ↦ cc (rw (present, given, authenticate) at h)
    ]
  ]
