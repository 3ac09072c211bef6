-- ===== src/Auth/Requests.antt =====
-- src/network_agent_rag/auth/authentication.py: which credential of a request is asked for, and who
-- answers for it. A request is its two headers; that a text is a token of the JWT library is a
-- parameter.
pub mod Selects
use networkops_ai_agent.Audit.Redaction.{lower_plain}
use networkops_ai_agent.Auth.Identity.Service.{
  IdentityState, Outcome, authenticate_access_token, authenticate_api_key,
}
use networkops_ai_agent.Auth.Models.{UserIdentity, role_eq, permission_eq}
use networkops_ai_agent.Auth.Token.{
  AuthError, authentication_failed, Jwt, TokenSettings, verify_token,
}
use networkops_ai_agent.Base.{
  Option, String, List, Result, ◌∷◌, [], if◌then◌else◌, ◌==◌, ◌&&◌, not, is_empty, ok, err, words,
  or_raise, ℕ, is_blank, strip, none, some, ◌>>=◌, ◌>>◌, nat_eq, string_eq,
}

pub record RequestHeaders : Type 0 where
  pub authorization : Option String
  pub x_api_key : Option String

-- The two parts of `Authorization: Bearer <token>`. A word is never empty.
unfoldable pub bearer_of : List String → Result AuthError String
unfolding lower_plain
bearer_of (scheme ∷ token ∷ []) =
    if lower_plain scheme == "bearer" && not (is_empty token)
    then ok token
    else err authentication_failed
bearer_of _ = err authentication_failed

unfoldable pub bearer_token : RequestHeaders → Result AuthError String
unfolding bearer_of words
bearer_token request = do
  authorization ← or_raise request.authorization authentication_failed
  bearer_of (words authorization)

module _ {Token : Type 0} (jwt : Jwt Token) (settings : TokenSettings) (digest : String → String)
    (as_token : String → Token) where
  -- `JWTProvider.authenticate` without an identity service
  unfoldable pub authenticate_jwt : RequestHeaders → ℕ → Result AuthError UserIdentity
  unfolding bearer_token verify_token
  authenticate_jwt request now = do
    token ← bearer_token request
    verify_token jwt settings (as_token token) now

  unfoldable pub authenticate_token :
      IdentityState → ℕ → Result AuthError String → Outcome UserIdentity
  unfolding authenticate_access_token
  authenticate_token state now (err e) = (err e, state)
  authenticate_token state now (ok token) =
      authenticate_access_token jwt settings digest state (as_token token) now

  -- `JWTProvider.authenticate` with an identity service
  unfoldable pub authenticate_bearer : IdentityState → RequestHeaders → ℕ → Outcome UserIdentity
  unfolding bearer_token authenticate_token
  authenticate_bearer state request now = authenticate_token state now (bearer_token request)

  -- `APIKeyProvider.authenticate`
  unfoldable pub authenticate_key : IdentityState → Option String → ℕ → Outcome UserIdentity
  unfolding authenticate_api_key is_blank strip
  authenticate_key state none now = (err authentication_failed, state)
  authenticate_key state (some api_key) now =
      if is_blank api_key
      then (err authentication_failed, state)
      else authenticate_api_key digest state (strip api_key) now

  -- `CompositeAuthenticationProvider.authenticate`, over one identity service
  unfoldable pub authenticate : IdentityState → RequestHeaders → ℕ → Outcome UserIdentity
  unfolding authenticate_bearer authenticate_key
  authenticate state request now = elim request.authorization [
    | none ↦ elim request.x_api_key [
      | none ↦ (err authentication_failed, state)
      | some api_key ↦ authenticate_key state (some api_key) now
    ]
    | some authorization ↦ elim request.x_api_key [
      | none ↦ authenticate_bearer state request now
      | some api_key ↦ (err authentication_failed, state)
    ]
  ]
