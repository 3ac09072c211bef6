-- ===== src/Packs/Closed.antt =====
-- What every registration keeps of the packs that are there.
use networkops_ai_agent.Base.Dict
use networkops_ai_agent.Base.{
  String, Bool, all, ◌≡◌, true, arith, [], refl, ◌∷◌, Bool-cases, ◌==◌, inl, inr, err, ok, Result,
  some, if◌then◌else◌, ap, ◌∙◌, nat_eq, string_eq,
}
use networkops_ai_agent.Base.Dict.{Dict}
use networkops_ai_agent.Packs.{
  DomainPackSpec, PackRegistry, CapabilitiesOutcome, store_pack, PackRegistrationError, after_gates,
  register_capabilities, ImportOutcome, register_pack, validate, pack_already_registered,
  other_version_registered, validate_no_conflict, get_pack,
}
use networkops_ai_agent.Packs.Gates.{has_dependencies, all_mono, validate-dependencies}

-- Each registered pack depends on registered packs only.
abbrev pub is_closed : Dict String DomainPackSpec → Bool
is_closed packs = all (has_dependencies packs) (Dict.values packs)

has-put :
    (packs : Dict String DomainPackSpec) (k : String) (spec : DomainPackSpec) (j : String)
    → Dict.has packs j ≡ true
    → Dict.has (Dict.put packs k spec) j ≡ true
unfolding Dict.has
has-put packs k spec j h = ground (arith, Dict.get-put packs k spec j)

all-values-put :
    (p : DomainPackSpec → Bool) (packs : Dict String DomainPackSpec) (k : String)
    (spec : DomainPackSpec)
    → p spec ≡ true
    → all p (Dict.values packs) ≡ true
    → all p (Dict.values (Dict.put packs k spec)) ≡ true
unfolding all Dict.values Dict.put
all-values-put p [] k spec here h = rw here refl
all-values-put p ((j, w) ∷ packs) k spec here h = elim (Bool-cases (j == k)) [
  | inl e ↦ rw e (ground (arith, here))
  | inr e ↦ rw e (ground (arith, all-values-put p packs k spec here))
]

is_closed-put :
    (packs : Dict String DomainPackSpec) (k : String) (spec : DomainPackSpec)
    → has_dependencies packs spec ≡ true
    → is_closed packs ≡ true
    → is_closed (Dict.put packs k spec) ≡ true
is_closed-put packs k spec needs h =
    let more = λ (pack : DomainPackSpec).
      all_mono (λ d. Dict.has packs d) (λ d. Dict.has (Dict.put packs k spec) d)
        (has-put packs k spec) pack.depends_on in
    all-values-put (has_dependencies (Dict.put packs k spec)) packs k spec (more spec needs) (
      all_mono (has_dependencies packs) (has_dependencies (Dict.put packs k spec)) more
        (Dict.values packs) h)

store_pack-is_closed :
    (registry : PackRegistry) (spec : DomainPackSpec) (outcome : CapabilitiesOutcome)
    → has_dependencies registry.packs spec ≡ true
    → is_closed registry.packs ≡ true
    → is_closed (store_pack registry spec outcome).1.packs ≡ true
store_pack-is_closed registry spec (err e, capabilities) needs h = h
store_pack-is_closed registry spec (ok tt, capabilities) needs h =
    is_closed-put registry.packs spec.name spec needs h

after_gates-is_closed :
    (registry : PackRegistry) (spec : DomainPackSpec)
    (gates : Result PackRegistrationError (Unit {0}))
    → (gates ≡ ok tt → has_dependencies registry.packs spec ≡ true)
    → is_closed registry.packs ≡ true
    → is_closed (after_gates registry spec gates).1.packs ≡ true
after_gates-is_closed registry spec (err e) needs h = h
after_gates-is_closed registry spec (ok tt) needs h =
    store_pack-is_closed registry spec
      (register_capabilities registry.capability_registry spec.capabilities) (needs refl) h

-- Where each registered pack depends on registered packs only, this holds after every
-- registration, whether it succeeds or fails at any gate.
pub register_pack-is_closed :
    (import_path : String → ImportOutcome) (registry : PackRegistry) (spec : DomainPackSpec)
    → is_closed registry.packs ≡ true
    → is_closed (register_pack import_path registry spec).1.packs ≡ true
unfolding register_pack
register_pack-is_closed import_path registry spec h =
    after_gates-is_closed registry spec (validate import_path registry spec)
      (λ gates. validate-dependencies import_path registry spec gates) h

stored-spec :
    (registry : PackRegistry) (spec : DomainPackSpec) (outcome : CapabilitiesOutcome)
    → (store_pack registry spec outcome).0 ≡ ok tt
    → Dict.get (store_pack registry spec outcome).1.packs spec.name ≡ some spec
stored-spec registry spec (err e, capabilities) h = cc
stored-spec registry spec (ok tt, capabilities) h = Dict.get-put_self registry.packs spec.name spec

passed-spec :
    (registry : PackRegistry) (spec : DomainPackSpec)
    (gates : Result PackRegistrationError (Unit {0}))
    → (after_gates registry spec gates).0 ≡ ok tt
    → Dict.get (after_gates registry spec gates).1.packs spec.name ≡ some spec
passed-spec registry spec (err e) h = cc
passed-spec registry spec (ok tt) h =
    stored-spec registry spec (register_capabilities registry.capability_registry spec.capabilities)
      h

found_after :
    (import_path : String → ImportOutcome) (registry : PackRegistry) (spec : DomainPackSpec)
    → (register_pack import_path registry spec).0 ≡ ok tt
    → Dict.get (register_pack import_path registry spec).1.packs spec.name ≡ some spec
unfolding register_pack
found_after import_path registry spec h =
    passed-spec registry spec (validate import_path registry spec) h

refused :
    (import_path : String → ImportOutcome) (registry : PackRegistry)
    (other existing : DomainPackSpec)
    → Dict.get registry.packs other.name ≡ some existing
    → register_pack import_path registry other ≡ (
      err (
          if existing.version == other.version
          then pack_already_registered
          else other_version_registered),
      registry,
    )
unfolding register_pack validate validate_no_conflict
refused import_path registry other existing h =
    elim (Bool-cases (existing.version == other.version)) [
      | inl e ↦ rw (h, e) refl
      | inr e ↦ rw (h, e) refl
    ]

-- After a registration that succeeds, its name finds its pack, and another registration of the
-- name is refused with nothing changed, whatever its version and its capabilities are.
register_pack-once :
    (import_path : String → ImportOutcome) (registry : PackRegistry) (spec other : DomainPackSpec)
    → (register_pack import_path registry spec).0 ≡ ok tt
    → other.name ≡ spec.name
    → (get_pack (register_pack import_path registry spec).1 spec.name ≡ some spec)
      × (register_pack import_path (register_pack import_path registry spec).1 other ≡ (
        err (
            if spec.version == other.version
            then pack_already_registered
            else other_version_registered),
        (register_pack import_path registry spec).1,
      ))
unfolding get_pack
register_pack-once import_path registry spec other h same =
    let found = found_after import_path registry spec h in
    (
      found,
      refused import_path (register_pack import_path registry spec).1 other spec
          (ap (Dict.get (register_pack import_path registry spec).1.packs) same ∙ found),
    )
