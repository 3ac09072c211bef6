-- ===== src/Capability/Resolver/Results.antt =====
-- What a goal resolves to.
use networkops_ai_agent.Base.Dict
use networkops_ai_agent.Base.{
  ℕ, if◌then◌else◌, nat_beq, ◌≡◌, true, arith, List, All, [], ◌∷◌, Returns, Returns-err, Returns-ok,
  filter, All-filter, raise_if, not, ◌>>◌, ok, raise_if-eq-ok, subst, ok_injective, String, Option,
  none, some, Returns-after, or_raise, length, Result, refl, err, ◌≤◌, suc, le_refl, Bool, ◌++◌,
  false, length-append, leb, contains, Bool-cases, ◌&&◌, inl, inr, le_trans, nat_eq, string_eq,
}
use networkops_ai_agent.Base.Dict.{Dict}
use networkops_ai_agent.Capability.{
  Capability, better, highest, latest, no_enabled_version, capability_disabled, get_version,
  unknown_capability, CapabilityRegistry, get_capability, versions_of, CapabilityError,
  list_capabilities,
}
use networkops_ai_agent.Capability.Resolver.{
  prepend_ok, get_all, CapabilityQuery, match_names, metadata_matches, fits, resolve, tokenize,
}
use networkops_ai_agent.Values.{Value}

-- The most results of a query.
abbrev pub bound : ℕ → ℕ
bound max_results = if nat_beq max_results 0 then 1 else max_results

better-enabled :
    (best c : Capability) → best.enabled ≡ true → c.enabled ≡ true → (better best c).enabled ≡ true
unfolding better
better-enabled best c h k = ground arith

highest-enabled :
    (best : Capability) (cs : List Capability)
    → best.enabled ≡ true
    → All (λ (c : Capability). c.enabled ≡ true) cs
    → (highest best cs).enabled ≡ true
unfolding highest
highest-enabled best [] h hs = h
highest-enabled best (c ∷ cs) h hs =
    highest-enabled (better best c) cs (better-enabled best c h hs.0) hs.1

latest-enabled :
    (cs : List Capability)
    → All (λ (c : Capability). c.enabled ≡ true) cs
    → Returns (λ (c : Capability). c.enabled ≡ true) (latest cs)
latest-enabled [] h = Returns-err no_enabled_version
latest-enabled (c ∷ cs) h = Returns-ok (highest-enabled c cs h.0 h.1)

filter-enabled :
    (cs : List Capability)
    → All (λ (c : Capability). c.enabled ≡ true) (filter (λ (c : Capability). c.enabled) cs)
filter-enabled cs = All-filter (λ (c : Capability). c.enabled) cs

passed-enabled :
    (c : Capability)
    → Returns
        (λ (x : Capability). x.enabled ≡ true)
        (raise_if (not c.enabled) capability_disabled >> ok c)
passed-enabled c = record {
  at = λ x h.
      let (allowed, same) = raise_if-eq-ok (not c.enabled) capability_disabled (ok c) h in
      subst (λ (y : Capability). y.enabled ≡ true) (ok_injective same) (ground arith);
}

get_version-enabled :
    (versions : Dict String Capability) (version : Option String)
    → Returns (λ (c : Capability). c.enabled ≡ true) (get_version versions version)
unfolding get_version
get_version-enabled versions none = latest-enabled _ (filter-enabled (Dict.values versions))
get_version-enabled versions (some version) =
    Returns-after (or_raise (Dict.get versions version) unknown_capability) _
      (λ c. passed-enabled c)

get_capability-enabled :
    (registry : CapabilityRegistry) (name : String) (version : Option String)
    → Returns (λ (c : Capability). c.enabled ≡ true) (get_capability registry name version)
unfolding get_capability
get_capability-enabled registry name version =
    Returns-after (raise_if (nat_beq (length (versions_of registry name)) 0) unknown_capability) _
      (λ _. get_version-enabled (versions_of registry name) version)

prepend_ok-enabled :
    (r : Result CapabilityError Capability) (cs : List Capability)
    → Returns (λ (c : Capability). c.enabled ≡ true) r
    → All (λ (c : Capability). c.enabled ≡ true) cs
    → All (λ (c : Capability). c.enabled ≡ true) (prepend_ok r cs)
prepend_ok-enabled (ok c) cs h hs = (h.at c refl, hs)
prepend_ok-enabled (err e) cs h hs = hs

get_all-enabled :
    (registry : CapabilityRegistry) (version : Option String) (names : List String)
    → All (λ (c : Capability). c.enabled ≡ true) (get_all registry version names)
unfolding get_all
get_all-enabled registry version [] = tt
get_all-enabled registry version (name ∷ names) =
    prepend_ok-enabled (get_capability registry name version) (get_all registry version names)
      (get_capability-enabled registry name version) (get_all-enabled registry version names)

prepend_ok-length :
    (r : Result CapabilityError Capability) (cs : List Capability)
    → length (prepend_ok r cs) ≤ suc (length cs)
prepend_ok-length (ok c) cs = le_refl (suc (length cs))
prepend_ok-length (err e) cs = omega arith

get_all-length :
    (registry : CapabilityRegistry) (version : Option String) (names : List String)
    → length (get_all registry version names) ≤ length names
unfolding get_all
get_all-length registry version [] = omega arith
get_all-length registry version (name ∷ names) = omega (
  arith,
  prepend_ok-length (get_capability registry name version) (get_all registry version names),
  get_all-length registry version names,
)

grown-length :
    (known : Bool) (names : List String) (name : String)
    → length (if known then names else names ++ name ∷ []) ≤ suc (length names)
grown-length true names name = omega arith
grown-length false names name = omega (arith, length-append names (name ∷ []))

below : (n max_results : ℕ) → leb max_results n ≡ false → suc n ≤ bound max_results
below n max_results h = ground arith

module _ (render : Value → String) (lower : String → String) (query : CapabilityQuery) where
  match_names-length :
      (tokens names : List String) (cs : List Capability)
      → suc (length names) ≤ bound query.max_results
      → length (match_names render lower query tokens names cs) ≤ bound query.max_results
  unfolding match_names
  match_names-length tokens names [] h = omega arith
  match_names-length tokens names (c ∷ cs) h =
      let grown = if contains names c.name then names else names ++ c.name ∷ [] in
      let longer = grown-length (contains names c.name) names c.name in
      elim (Bool-cases (
        metadata_matches render lower c.metadata query.constraints && fits render lower tokens c)) [
          | inl meets ↦ elim (Bool-cases (leb query.max_results (length grown))) [
            | inl full ↦ rw (meets, full) (omega arith)
            | inr room ↦
                rw (meets, room)
                  (match_names-length tokens grown cs (below (length grown) query.max_results room))
          ]
          | inr misses ↦ rw misses (match_names-length tokens names cs h)
        ]

one_fits : (max_results : ℕ) → suc (length {A = String} []) ≤ bound max_results
one_fits max_results = ground arith

-- A goal resolves to no more capabilities than the limit of its query (and to one at most for a
-- limit of 0), each of them enabled.
pub resolve-bounded :
    (render : Value → String) (lower : String → String) (registry : CapabilityRegistry)
    (goal : String) (query : CapabilityQuery)
    → (length (resolve render lower registry goal query) ≤ bound query.max_results)
      × All (λ (c : Capability). c.enabled ≡ true) (resolve render lower registry goal query)
unfolding resolve
resolve-bounded render lower registry goal query =
    let names =
      match_names render lower query (tokenize goal) []
        (list_capabilities registry query.kind query.permission (some true)) in
    (
      le_trans (get_all-length registry query.version names) (
          match_names-length render lower query (tokenize goal) []
            (list_capabilities registry query.kind query.permission (some true))
            (one_fits query.max_results)),
      get_all-enabled registry query.version names,
    )
