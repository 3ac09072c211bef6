-- ===== src/Packs/Gates.antt =====
-- What a registration that succeeds has checked, and what every registration keeps.
use networkops_ai_agent.Base.Dict
use networkops_ai_agent.Base.{
  Bool, List, ◌≡◌, ok, all, true, [], refl, ◌∷◌, Bool-cases, inl, raise_if-eq-ok, not, inr, arith,
  ◌&&◌, false, String, contains, ◌==◌, subst, eq_iff, Result, ◌>>◌, err, Option, nat_eq, string_eq,
}
use networkops_ai_agent.Base.Dict.{Dict}
use networkops_ai_agent.Capability.{Capability}
use networkops_ai_agent.Packs.{
  PackRegistrationError, for_each, is_known, DomainPackSpec, permission_names, RoleSpec,
  permission_value, validate_governance, unknown_permission, role_outside_catalog,
  capability_outside_catalog, ImportOutcome, PackRegistry, after_gates, register_pack, validate,
  validate_dependencies, validate_no_conflict, unregistered_dependency,
}
use networkops_ai_agent.Policy.Registry.{PolicyRegistry}

for_each-ok :
    {A : Type 0} (test : A → Bool) (error : PackRegistrationError) (xs : List A)
    → for_each test error xs ≡ ok tt
    → all test xs ≡ true
unfolding all
for_each-ok test error [] h = refl
for_each-ok test error (x ∷ xs) h = elim (Bool-cases (test x)) [
  | inl e ↦
      rw e (
        for_each-ok test error xs (let (_, rest) = raise_if-eq-ok (not (test x)) error _ h in rest))
  | inr e ↦ ground arith
]

and-true : (a b : Bool) → (a && b) ≡ true → (a ≡ true) × (b ≡ true)
and-true true b h = (refl, h)
and-true false b h = cc

pub all_mono :
    {A : Type 0} (p q : A → Bool)
    → ((x : A) → p x ≡ true → q x ≡ true)
    → (xs : List A) → all p xs ≡ true
    → all q xs ≡ true
unfolding all
all_mono p q f [] h = refl
all_mono p q f (x ∷ xs) h = ground (arith, f x, all_mono p q f xs)

all-contains :
    (p : String → Bool) (xs : List String) (n : String)
    → all p xs ≡ true
    → contains xs n ≡ true
    → p n ≡ true
unfolding all contains
all-contains p [] n h k = ground arith
all-contains p (x ∷ xs) n h k =
    let (here, rest) = and-true (p x) (all p xs) h in
    elim (Bool-cases (x == n)) [
      | inl e ↦ subst (λ y. p y ≡ true) ((eq_iff x n).0 e) here
      | inr e ↦ all-contains p xs n rest (ground (arith, e))
    ]

-- A known name is in the catalog where all the declared ones are.
is_known-catalog :
    (declared platform : List String) (n : String)
    → all (contains platform) declared ≡ true
    → is_known declared platform n ≡ true
    → contains platform n ≡ true
is_known-catalog declared platform n h k =
    ground (arith, all-contains (contains platform) declared n h)

-- Each permission that a pack declares, gives to a role or requires for a capability is in the
-- catalog.
abbrev pub within_catalog : List String → DomainPackSpec → Bool
within_catalog platform spec =
    all (contains platform) (permission_names spec)
    && (all (λ (role : RoleSpec). all (contains platform) role.permissions) spec.roles
        && all (λ (c : Capability). contains platform (permission_value c.permission))
            spec.capabilities)

abbrev pub has_dependencies : Dict String DomainPackSpec → DomainPackSpec → Bool
has_dependencies packs spec = all (λ dependency. Dict.has packs dependency) spec.depends_on

then-ok : {E : Type 0} (r s : Result E (Unit {0})) → (r >> s) ≡ ok tt → (r ≡ ok tt) × (s ≡ ok tt)
then-ok (ok tt) s h = (refl, h)
then-ok (err e) s h = cc

validate_governance-catalog :
    (platform : List String) (policy : Option PolicyRegistry) (spec : DomainPackSpec)
    → validate_governance platform policy spec ≡ ok tt
    → within_catalog platform spec ≡ true
unfolding validate_governance
validate_governance-catalog platform policy spec h =
    let (declares, h1) =
      then-ok (for_each (contains platform) unknown_permission (permission_names spec)) _ h in
    let (roles, h2) =
      then-ok
        (for_each
          (λ (role : RoleSpec). all (is_known (permission_names spec) platform) role.permissions)
          role_outside_catalog spec.roles)
        _ h1 in
    let (needs, _) =
      then-ok
        (for_each
          (λ (c : Capability).
            is_known (permission_names spec) platform (permission_value c.permission))
          capability_outside_catalog spec.capabilities)
        _ h2 in
    let declared =
      for_each-ok (contains platform) unknown_permission (permission_names spec) declares in
    rw
      (
        declared,
        all_mono
            (λ (role : RoleSpec). all (is_known (permission_names spec) platform) role.permissions)
            (λ (role : RoleSpec). all (contains platform) role.permissions)
            (λ role.
              all_mono (is_known (permission_names spec) platform) (contains platform)
                (λ n. is_known-catalog (permission_names spec) platform n declared)
                role.permissions)
            spec.roles (for_each-ok _ role_outside_catalog spec.roles roles),
        all_mono
            (λ (c : Capability).
              is_known (permission_names spec) platform (permission_value c.permission))
            (λ (c : Capability). contains platform (permission_value c.permission))
            (λ c.
              is_known-catalog (permission_names spec) platform (permission_value c.permission)
                declared)
            spec.capabilities (for_each-ok _ capability_outside_catalog spec.capabilities needs),
      )
      refl

module _ (import_path : String → ImportOutcome) (registry : PackRegistry)
    (spec : DomainPackSpec) where
  after_gates-ok :
      (gates : Result PackRegistrationError (Unit {0}))
      → (after_gates registry spec gates).0 ≡ ok tt
      → gates ≡ ok tt
  after_gates-ok (ok tt) h = refl
  after_gates-ok (err e) h = cc

  register_pack-validate :
      (register_pack import_path registry spec).0 ≡ ok tt
      → validate import_path registry spec ≡ ok tt
  unfolding register_pack
  register_pack-validate h = after_gates-ok (validate import_path registry spec) h

-- The gates check the dependencies.
pub validate-dependencies :
    (import_path : String → ImportOutcome) (registry : PackRegistry) (spec : DomainPackSpec)
    → validate import_path registry spec ≡ ok tt
    → has_dependencies registry.packs spec ≡ true
unfolding validate validate_dependencies
validate-dependencies import_path registry spec gates =
    let (_, h1) = then-ok (validate_no_conflict registry.packs spec) _ gates in
    let (depends, _) = then-ok (validate_dependencies registry.packs spec) _ h1 in
    for_each-ok _ unregistered_dependency spec.depends_on depends

-- The gates check the permissions.
validate-catalog :
    (import_path : String → ImportOutcome) (registry : PackRegistry) (spec : DomainPackSpec)
    → validate import_path registry spec ≡ ok tt
    → within_catalog registry.platform_permissions spec ≡ true
unfolding validate
validate-catalog import_path registry spec gates =
    let (_, h1) = then-ok (validate_no_conflict registry.packs spec) _ gates in
    let (_, h2) = then-ok (validate_dependencies registry.packs spec) _ h1 in
    let (governed, _) =
      then-ok (validate_governance registry.platform_permissions registry.policy_registry spec) _
        h2 in
    validate_governance-catalog registry.platform_permissions registry.policy_registry spec governed

-- A pack whose registration succeeds depends on registered packs only, and each permission that
-- it declares, gives to a role or requires for a capability is in the platform's catalog.
pub register_pack-gates :
    (import_path : String → ImportOutcome) (registry : PackRegistry) (spec : DomainPackSpec)
    → (register_pack import_path registry spec).0 ≡ ok tt
    → (has_dependencies registry.packs spec ≡ true)
      × (within_catalog registry.platform_permissions spec ≡ true)
register_pack-gates import_path registry spec h =
    let gates = register_pack-validate import_path registry spec h in
    (
      validate-dependencies import_path registry spec gates,
      validate-catalog import_path registry spec gates,
    )
