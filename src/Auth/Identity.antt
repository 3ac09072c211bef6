-- ===== src/Auth/Identity.antt =====
-- src/network_agent_rag/auth/identity.py: sessions, API keys and the in-memory store. Each operation
-- reads the clock once; new ids, random parts and the digest of a text are parameters.
pub mod Service
pub mod Sessions
pub mod Lifecycle
pub mod Revocation
pub mod Access
pub mod Replay
pub mod ApiKeys
use networkops_ai_agent.Base.Dict
use networkops_ai_agent.Auth.Models.{UserIdentity, role_eq, permission_eq}
use networkops_ai_agent.Auth.Token.{AuthError, value_error, key_error}
use networkops_ai_agent.Base.{
  ℕ, ◌≡◌, arith, Eq, eq_by_rank, String, Result, is_blank, strip, raise_if, leb, ok, Option, Bool,
  none, false, some, or_raise, if◌then◌else◌, not, ◌==◌, true, ◌>>=◌, ◌>>◌, nat_eq, string_eq,
}
use networkops_ai_agent.Base.Dict.{Dict}

pub data SessionStatus : Type 0 where
  active revoked expired : SessionStatus

abbrev pub status_rank : SessionStatus → ℕ
status_rank active = 0
status_rank revoked = 1
status_rank expired = 2

pub status_rank_injective : (a b : SessionStatus) → status_rank a ≡ status_rank b → a ≡ b
status_rank_injective a b h = ground arith

instance abbrev pub status_eq : Eq SessionStatus
status_eq = eq_by_rank status_rank status_rank_injective

pub record IdentitySession : Type 0 where
  pub session_id : String
  pub identity : UserIdentity
  pub created_at : ℕ
  pub expires_at : ℕ
  pub status : SessionStatus

-- A new session: `NonEmptyString` and `validate_lifetime`.
unfoldable pub make_session : String → UserIdentity → ℕ → ℕ → Result AuthError IdentitySession
unfolding is_blank strip
make_session session_id identity created_at expires_at = do
  raise_if (is_blank session_id) value_error
  raise_if (leb expires_at created_at) value_error
  ok (record {
    session_id = strip session_id;
    identity = identity;
    created_at = created_at;
    expires_at = expires_at;
    status = active;
  })

pub record ApiKeyCredential : Type 0 where
  pub key_id : String
  pub identity : UserIdentity
  pub created_at : ℕ
  pub expires_at : Option ℕ
  pub status : SessionStatus

abbrev pub is_past : Option ℕ → ℕ → Bool
is_past none instant = false
is_past (some expires_at) instant = leb expires_at instant

unfoldable pub make_credential :
    String → UserIdentity → ℕ → Option ℕ → Result AuthError ApiKeyCredential
unfolding is_blank strip
make_credential key_id identity created_at expires_at = do
  raise_if (is_blank key_id) value_error
  raise_if (is_past expires_at created_at) value_error
  ok (record {
    key_id = strip key_id;
    identity = identity;
    created_at = created_at;
    expires_at = expires_at;
    status = active;
  })

-- `InMemoryIdentityStore`: each session with the digest of its refresh token, each key with its own.
pub record IdentityStore : Type 0 where
  pub sessions : Dict String (IdentitySession × String)
  pub api_keys : Dict String (ApiKeyCredential × String)

-- `_required`
unfoldable pub required : String → Result AuthError String
unfolding is_blank strip
required value = do raise_if (is_blank value) value_error; ok (strip value)

unfoldable pub put_session : IdentityStore → String → IdentitySession → String → IdentityStore
unfolding Dict.put
put_session store key session refresh_hash = record store {
  sessions = Dict.put store.sessions key (session, refresh_hash);
}

unfoldable pub create_session :
    IdentityStore → IdentitySession → String → Result AuthError IdentityStore
unfolding Dict.has put_session
create_session store session refresh_hash = do
  raise_if (Dict.has store.sessions session.session_id) value_error
  ok (put_session store session.session_id session refresh_hash)

unfoldable pub get_session : IdentityStore → String → Result AuthError IdentitySession
unfolding required Dict.get
get_session store session_id = do
  key ← required session_id
  entry ← or_raise (Dict.get store.sessions key) key_error
  ok entry.0

-- `rotate_refresh` of what is stored: a digest that is not the expected one revokes the session.
unfoldable pub rotate_entry :
    IdentityStore
    → String
    → Option (IdentitySession × String)
    → String
    → String
    → ℕ
    → Bool × IdentityStore
unfolding put_session
rotate_entry store key none expected_hash new_hash expires_at = (false, store)
rotate_entry store key (some (session, current_hash)) expected_hash new_hash expires_at =
    if not (session.status == active)
    then (false, store)
    else if not (current_hash == expected_hash)
    then (false, put_session store key (record session { status = revoked }) "")
    else (true, put_session store key (record session { expires_at = expires_at }) new_hash)

unfoldable pub rotate_refresh :
    IdentityStore → String → String → String → ℕ → Result AuthError (Bool × IdentityStore)
unfolding required rotate_entry Dict.get
rotate_refresh store session_id expected_hash new_hash expires_at = do
  key ← required session_id
  ok (rotate_entry store key (Dict.get store.sessions key) expected_hash new_hash expires_at)

unfoldable pub set_session_status :
    IdentityStore → String → SessionStatus → Result AuthError (IdentitySession × IdentityStore)
unfolding required Dict.get put_session
set_session_status store session_id status = do
  key ← required session_id
  entry ← or_raise (Dict.get store.sessions key) key_error
  let updated = record entry.0 { status = status }
  ok (updated, put_session store key updated entry.1)

unfoldable pub put_api_key : IdentityStore → String → ApiKeyCredential → String → IdentityStore
unfolding Dict.put
put_api_key store key credential key_hash = record store {
  api_keys = Dict.put store.api_keys key (credential, key_hash);
}

unfoldable pub store_api_key :
    IdentityStore → ApiKeyCredential → String → Result AuthError IdentityStore
unfolding Dict.has put_api_key
store_api_key store credential key_hash = do
  raise_if (Dict.has store.api_keys credential.key_id) value_error
  ok (put_api_key store credential.key_id credential key_hash)

unfoldable pub get_api_key : IdentityStore → String → Result AuthError (ApiKeyCredential × String)
unfolding required Dict.get
get_api_key store key_id = do
  key ← required key_id
  or_raise (Dict.get store.api_keys key) key_error

unfoldable pub set_api_key_status :
    IdentityStore → String → SessionStatus → Result AuthError (ApiKeyCredential × IdentityStore)
unfolding required Dict.get put_api_key
set_api_key_status store key_id status = do
  key ← required key_id
  entry ← or_raise (Dict.get store.api_keys key) key_error
  let updated = record entry.0 { status = status }
  ok (updated, put_api_key store key updated entry.1)
