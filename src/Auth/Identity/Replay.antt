-- ===== src/Auth/Identity/Replay.antt =====
-- A refresh token serves once.
use networkops_ai_agent.Base.Dict
use networkops_ai_agent.Auth.Identity.{
  IdentityStore, rotate_refresh, revoked, required, rotate_entry, status_eq,
}
use networkops_ai_agent.Auth.Identity.Access.{required-eq-ok}
use networkops_ai_agent.Auth.Identity.Sessions.{status_at, rotate_entry-replay}
use networkops_ai_agent.Base.{
  String, ℕ, ◌≡◌, ok, true, ◌==◌, false, strip, some, >>=-eq-ok, ok_injective, ap, Bool, ◌∙◌,
  nat_eq, string_eq,
}
use networkops_ai_agent.Base.Dict.{Dict}

-- A refresh that succeeded exchanges the digest of the token: showing the same token again is
-- refused and revokes the session, provided that the new digest is another.
pub rotate_refresh-replay :
    (store after : IdentityStore) (session_id hash new other : String) (expires_at expires : ℕ)
    → rotate_refresh store session_id hash new expires_at ≡ ok (true, after)
    → (new == hash) ≡ false
    → (final : IdentityStore) × (rotate_refresh after session_id hash other expires
        ≡ ok (false, final))
      × (status_at final (strip session_id) ≡ some revoked)
unfolding rotate_refresh
rotate_refresh-replay store after session_id hash new other expires_at expires h differs =
    let (key, named, made) = >>=-eq-ok (required session_id) _ h in
    let (refused, ends) =
      rotate_entry-replay store key hash new other expires_at expires after (ok_injective made)
        differs in
    let final = (rotate_entry after key (Dict.get after.sessions key) hash other expires).1 in
    (
      final,
      rw named (ap (λ (b : Bool). ok (b, final)) refused),
      ap (λ k. status_at final k) (required-eq-ok session_id key named).1 ∙ ends,
    )
