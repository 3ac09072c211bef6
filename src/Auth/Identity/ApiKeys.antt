-- ===== src/Auth/Identity/ApiKeys.antt =====
-- An API key authenticates the identity that it was created for, until it expires.
use networkops_ai_agent.Base.Dict
use networkops_ai_agent.Auth.Identity.{
  ApiKeyCredential, active, IdentityStore, store_api_key, put_api_key, make_credential, is_past,
  get_api_key, required, status_eq,
}
use networkops_ai_agent.Auth.Identity.Service.{
  api_key_id, key_of_parts, IdentityState, commit, create_api_key, new_api_key, is_allowed,
  check_api_key, is_over, authenticate_api_key, authenticate_key_id,
}
use networkops_ai_agent.Auth.Models.{UserIdentity, role_eq, permission_eq}
use networkops_ai_agent.Auth.Token.{value_error, AuthError, authentication_failed}
use networkops_ai_agent.Base.{
  String, count_char, ◌≡◌, split_on, ◌<>◌, ◌∷◌, nil-append, cons-append, refl, arith, [], is_empty,
  false, ok, ap, append_assoc, ◌∙◌, Option, ℕ, strip, some, is_blank, raise_if-eq-ok, sym,
  ok_injective, subst, Result, err, >>=-eq-ok, Bool, not, if◌then◌else◌, true, eq_refl, nat_eq,
  string_eq,
}
use networkops_ai_agent.Base.Dict.{Dict, put}

split_on-append :
    (s t : String) → count_char "." s ≡ 0 → split_on "." (s <> ("." <> t)) ≡ s ∷ split_on "." t
unfolding split_on count_char
split_on-append String.[] t h = rw (nil-append, cons-append, nil-append) refl
split_on-append (String.◌∷◌ c s) t h = rw cons-append (ground (arith, split_on-append s t))

split_on-whole : (s : String) → count_char "." s ≡ 0 → split_on "." s ≡ s ∷ []
unfolding split_on count_char
split_on-whole String.[] h = refl
split_on-whole (String.◌∷◌ c s) h = ground (arith, split_on-whole s)

api_key_id-parts :
    (key_id random : String)
    → count_char "." key_id ≡ 0
    → count_char "." random ≡ 0
    → is_empty key_id ≡ false
    → is_empty random ≡ false
    → api_key_id ("nops." <> (key_id <> ("." <> random))) ≡ ok key_id
unfolding api_key_id
api_key_id-parts key_id random h k some_id some_random =
    let parts : split_on "." ("nops." <> (key_id <> ("." <> random)))
        ≡ "nops" ∷ key_id ∷ random ∷ [] =
      ap (split_on ".") (append_assoc "nops" "." (key_id <> ("." <> random)))
      ∙ split_on-append "nops" (key_id <> ("." <> random)) (unfold count_char in refl)
      ∙ ap (λ l. "nops" ∷ l) (split_on-append key_id random h)
      ∙ ap (λ l. "nops" ∷ key_id ∷ l) (split_on-whole random k) in
    ap key_of_parts parts ∙ rw (some_id, some_random) refl

-- What a new key leaves in the store.
record Created (digest : String → String) (identity : UserIdentity) (expires_at : Option ℕ)
    (key_id raw_key : String) (after : IdentityState) : Type 0 where
  credential : ApiKeyCredential
  stored : Dict.get after.store.api_keys (strip key_id) ≡ some (credential, digest raw_key)
  is_active : credential.status ≡ active
  until : credential.expires_at ≡ expires_at
  owner : credential.identity ≡ identity
  named : is_blank key_id ≡ false

stored_key :
    (store : IdentityStore) (credential : ApiKeyCredential) (hash : String) (after : IdentityStore)
    → store_api_key store credential hash ≡ ok after
    → Dict.get after.api_keys credential.key_id ≡ some (credential, hash)
unfolding store_api_key put_api_key
stored_key store credential hash after h =
    let (_, made) = raise_if-eq-ok (Dict.has store.api_keys credential.key_id) value_error _ h in
    ap (λ s. Dict.get s.api_keys credential.key_id) (sym (ok_injective made))
    ∙ Dict.get-put_self store.api_keys credential.key_id (credential, hash)

record IsNew (c : ApiKeyCredential) (identity : UserIdentity) (expires_at : Option ℕ)
    (key_id : String) : Type 0 where
  id : c.key_id ≡ strip key_id
  is_active : c.status ≡ active
  until : c.expires_at ≡ expires_at
  owner : c.identity ≡ identity
  named : is_blank key_id ≡ false

make_credential-IsNew :
    (key_id : String) (identity : UserIdentity) (now : ℕ) (expires_at : Option ℕ)
    (c : ApiKeyCredential)
    → make_credential key_id identity now expires_at ≡ ok c
    → IsNew c identity expires_at key_id
unfolding make_credential
make_credential-IsNew key_id identity now expires_at c h =
    let (named, h1) = raise_if-eq-ok (is_blank key_id) value_error _ h in
    let (_, made) = raise_if-eq-ok (is_past expires_at now) value_error _ h1 in
    subst (λ x. IsNew x identity expires_at key_id) (ok_injective made)
      (record { id = refl; is_active = refl; until = refl; owner = refl; named = named })

commit-eq-ok :
    {A : Type 0} (state after : IdentityState) (r : Result AuthError (A × IdentityStore)) (a : A)
    → commit state r ≡ (ok a, after)
    → (store : IdentityStore) × (r ≡ ok (a, store)) × (store ≡ after.store)
unfolding commit
commit-eq-ok state after (ok (b, store)) a h =
    (store, ap (λ x. ok (x, store)) (ok_injective (ap (λ p. p.0) h)), ap (λ p. p.1.store) h)
commit-eq-ok state after (err e) a h = cc

create_api_key-Created :
    (digest : String → String) (state after : IdentityState) (identity : UserIdentity)
    (expires_at : Option ℕ) (key_id random : String) (now : ℕ) (made : ApiKeyCredential × String)
    → create_api_key digest state identity expires_at key_id random now ≡ (ok made, after)
    → Created digest identity expires_at key_id ("nops." <> (key_id <> ("." <> random))) after
unfolding create_api_key new_api_key
create_api_key-Created digest state after identity expires_at key_id random now made h =
    let (store, built, kept) =
      commit-eq-ok state after
        (new_api_key digest state.store identity expires_at key_id random now) made h in
    let (c, valid, h1) = >>=-eq-ok (make_credential key_id identity now expires_at) _ built in
    let raw = "nops." <> (key_id <> ("." <> random)) in
    let (final, put, e) = >>=-eq-ok (store_api_key state.store c (digest raw)) _ h1 in
    let is_new = make_credential-IsNew key_id identity now expires_at c valid in
    record {
      credential = c;
      stored =
          ap (λ s. Dict.get s.api_keys (strip key_id))
            (sym kept ∙ ap (λ p. p.1) (sym (ok_injective e)))
          ∙ ap (λ k. Dict.get final.api_keys k) (sym is_new.id)
          ∙ stored_key state.store c (digest raw) final put;
      is_active = is_new.is_active;
      until = is_new.until;
      owner = is_new.owner;
      named = is_new.named;
    }

get_api_key-stored :
    (store : IdentityStore) (key_id : String) (entry : ApiKeyCredential × String)
    → is_blank key_id ≡ false
    → Dict.get store.api_keys (strip key_id) ≡ some entry
    → get_api_key store key_id ≡ ok entry
unfolding get_api_key required
get_api_key-stored store key_id entry named h = rw (named, h) refl

check_api_key-answer :
    (digest : String → String) (state : IdentityState) (key_id api_key : String) (now : ℕ)
    (entry : ApiKeyCredential × String) (over : Bool)
    → is_allowed digest entry api_key now ≡ not over
    → (check_api_key digest state key_id api_key now (ok entry)).0
      ≡ (if over then err authentication_failed else ok entry.0.identity)
unfolding check_api_key
check_api_key-answer digest state key_id api_key now entry true h = rw h refl
check_api_key-answer digest state key_id api_key now entry false h = rw h refl

allowed_by :
    (digest : String → String) (raw_key : String) (c : ApiKeyCredential) (expires_at : Option ℕ)
    (now : ℕ)
    → c.status ≡ active
    → c.expires_at ≡ expires_at
    → is_allowed digest (c, digest raw_key) raw_key now ≡ not (is_over expires_at now)
unfolding is_allowed
allowed_by digest raw_key c expires_at now is_active until =
    rw (is_active, until, eq_refl (digest raw_key)) (ground arith)

-- An API key that was created authenticates its identity until the instant of its expiry, and
-- always where it has none, for an id and a random part without dots.
pub create_api_key-authenticates :
    (digest : String → String) (state after : IdentityState) (identity : UserIdentity)
    (expires_at : Option ℕ) (key_id random : String) (now later : ℕ)
    (made : ApiKeyCredential × String)
    → create_api_key digest state identity expires_at key_id random now ≡ (ok made, after)
    → count_char "." key_id ≡ 0
    → count_char "." random ≡ 0
    → is_empty key_id ≡ false
    → is_empty random ≡ false
    → (authenticate_api_key digest after ("nops." <> (key_id <> ("." <> random))) later).0
      ≡ (if is_over expires_at later then err authentication_failed else ok identity)
unfolding authenticate_api_key authenticate_key_id
create_api_key-authenticates digest state after identity expires_at key_id random now later made h
      no_dot also some_id some_random =
    let c =
      create_api_key-Created digest state after identity expires_at key_id random now made h in
    let raw = "nops." <> (key_id <> ("." <> random)) in
    ap (λ r. (authenticate_key_id digest after raw later r).0)
      (api_key_id-parts key_id random no_dot also some_id some_random)
    ∙ ap (λ r. (check_api_key digest after key_id raw later r).0)
        (get_api_key-stored after.store key_id (c.credential, digest raw) c.named c.stored)
    ∙ check_api_key-answer digest after key_id raw later (c.credential, digest raw)
        (is_over expires_at later)
        (allowed_by digest raw c.credential expires_at later c.is_active c.until)
    ∙ ap (λ o. if is_over expires_at later then err authentication_failed else ok o) c.owner
