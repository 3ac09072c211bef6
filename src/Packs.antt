-- ===== src/Packs.antt =====
-- src/network_agent_rag/packs/registry.py and models.py: the registration of domain packs and its
-- gates. What an import of a factory's path finds is a parameter.
pub mod Gates
pub mod Closed
pub mod Tests
use networkops_ai_agent.Base.Dict
use networkops_ai_agent.Auth.Models.{
  Permission, view_incident, view_trace, create_repair_plan, execute_repair, approve_repair,
  manage_system, embedded_read, embedded_generate, embedded_simulate, all_permissions, role_eq,
  permission_eq,
}
use networkops_ai_agent.Base.{
  String, List, map, Option, Result, none, ok, some, if◌then◌else◌, ◌==◌, err, Bool, [], ◌∷◌,
  raise_if, not, ◌>>◌, contains, ◌||◌, Eq, true, ◌&&◌, any, all, ◌++◌, filter, sorted, text_le,
  nat_eq, string_eq,
}
use networkops_ai_agent.Base.Dict.{Dict}
use networkops_ai_agent.Capability.{Capability, CapabilityError, CapabilityRegistry, register}
use networkops_ai_agent.Policy.Models.{
  PolicyOperation, PolicyRule, unknown, effect_eq, operation_eq, risk_eq,
}
use networkops_ai_agent.Policy.Registry.{PolicyRegistry}

pub record PermissionSpec : Type 0 where
  pub name : String

pub record RoleSpec : Type 0 where
  pub name : String
  pub permissions : List String

pub data LifecycleStatus : Type 0 where
  pack_enabled pack_disabled : LifecycleStatus

-- The fields that the registry reads; the routers by their factories.
pub record DomainPackSpec : Type 0 where
  pub name : String
  pub version : String
  pub status : LifecycleStatus
  pub capabilities : List Capability
  pub agent_factories : List String
  pub workflow_factories : List String
  pub permissions : List PermissionSpec
  pub roles : List RoleSpec
  pub router_factories : List String
  pub depends_on : List String

-- `permission_names`
abbrev pub permission_names : DomainPackSpec → List String
permission_names spec = map (λ (p : PermissionSpec). p.name) spec.permissions

pub data PackRegistrationError : Type 0 where
  pack_already_registered other_version_registered unregistered_dependency : PackRegistrationError
  unknown_permission role_outside_catalog capability_outside_catalog : PackRegistrationError
  not_covered factory_not_importable factory_not_callable : PackRegistrationError
  capability_failed : CapabilityError → PackRegistrationError

-- What the import of a factory's path finds.
pub data ImportOutcome : Type 0 where
  no_module no_callable found_callable : ImportOutcome

abbrev pub permission_value : Permission → String
permission_value view_incident = "VIEW_INCIDENT"
permission_value view_trace = "VIEW_TRACE"
permission_value create_repair_plan = "CREATE_REPAIR_PLAN"
permission_value execute_repair = "EXECUTE_REPAIR"
permission_value approve_repair = "APPROVE_REPAIR"
permission_value manage_system = "MANAGE_SYSTEM"
permission_value embedded_read = "EMBEDDED_READ"
permission_value embedded_generate = "EMBEDDED_GENERATE"
permission_value embedded_simulate = "EMBEDDED_SIMULATE"

-- `_default_platform_permissions`
abbrev pub default_platform_permissions : List String
default_platform_permissions = map permission_value all_permissions

pub record PackRegistry : Type 0 where
  pub packs : Dict String DomainPackSpec
  pub capability_registry : CapabilityRegistry
  pub policy_registry : Option PolicyRegistry
  pub platform_permissions : List String

abbrev conflict_with :
    DomainPackSpec → Option DomainPackSpec → Result PackRegistrationError (Unit {0})
conflict_with spec none = ok tt
conflict_with spec (some existing) =
    if existing.version == spec.version
    then err pack_already_registered
    else err other_version_registered

-- `_validate_no_conflict`
unfoldable pub validate_no_conflict :
    Dict String DomainPackSpec → DomainPackSpec → Result PackRegistrationError (Unit {0})
unfolding Dict.get
validate_no_conflict packs spec = conflict_with spec (Dict.get packs spec.name)

-- A loop that raises at the first item that fails a test.
abbrev pub for_each {ℓ} :
    {A : Type ℓ}
    → (A → Bool)
    → PackRegistrationError
    → List A
    → Result PackRegistrationError (Unit {0})
for_each test error [] = ok tt
for_each test error (x ∷ xs) = raise_if (not (test x)) error >> for_each test error xs

-- `_validate_dependencies`
unfoldable pub validate_dependencies :
    Dict String DomainPackSpec → DomainPackSpec → Result PackRegistrationError (Unit {0})
unfolding Dict.has Dict.get
validate_dependencies packs spec =
    for_each (λ dependency. Dict.has packs dependency) unregistered_dependency spec.depends_on

-- `name in declared or name in self._platform_permissions`
abbrev pub is_known : List String → List String → String → Bool
is_known declared platform name = contains declared name || contains platform name

abbrev set_has : {A : Type 0} ⦃e : Eq A⦄ → Option (List A) → A → Bool
set_has none x = true
set_has (some xs) x = contains xs x

-- A rule covers the operation and the permission.
unfoldable pub covers : PolicyOperation → Permission → PolicyRule → Bool
unfolding contains
covers operation permission rule =
    set_has rule.condition.operation operation && set_has rule.condition.permission permission

-- The body of the loop of `_validate_policy_consistency`.
abbrev pub is_covered : List PolicyRule → Permission → Option PolicyOperation → Bool
is_covered rules permission none = true
is_covered rules permission (some operation) =
    operation == unknown || any (covers operation permission) rules

unfoldable pub validate_policy_consistency :
    Option PolicyRegistry → DomainPackSpec → Result PackRegistrationError (Unit {0})
unfolding covers any Dict.get
validate_policy_consistency none spec = ok tt
validate_policy_consistency (some registry) spec =
    for_each
      (λ (c : Capability).
        is_covered registry.rules c.permission (Dict.get registry.tool_operations c.name))
      not_covered spec.capabilities

-- `_validate_governance`
unfoldable pub validate_governance :
    List String → Option PolicyRegistry → DomainPackSpec → Result PackRegistrationError (Unit {0})
unfolding contains all validate_policy_consistency
validate_governance platform policy spec = do
  let declared = permission_names spec
  for_each (contains platform) unknown_permission declared
  for_each (λ (role : RoleSpec). all (is_known declared platform) role.permissions)
      role_outside_catalog spec.roles
  for_each (λ (c : Capability). is_known declared platform (permission_value c.permission))
      capability_outside_catalog spec.capabilities
  validate_policy_consistency policy spec

module _ (import_path : String → ImportOutcome) where
  -- `_resolve_callable`
  unfoldable pub resolve_callable : String → Result PackRegistrationError (Unit {0})
  resolve_callable path = elim (import_path path) [
    | no_module ↦ err factory_not_importable
    | no_callable ↦ err factory_not_callable
    | found_callable ↦ ok tt
  ]

  abbrev resolve_all : List String → Result PackRegistrationError (Unit {0})
  unfolding resolve_callable
  resolve_all [] = ok tt
  resolve_all (path ∷ paths) = resolve_callable path >> resolve_all paths

  -- `_validate_factories`
  unfoldable pub validate_factories : DomainPackSpec → Result PackRegistrationError (Unit {0})
  unfolding resolve_callable
  validate_factories spec =
      resolve_all (spec.agent_factories ++ (spec.workflow_factories ++ spec.router_factories))

  -- The gates of `register`, in their order.
  unfoldable pub validate : PackRegistry → DomainPackSpec → Result PackRegistrationError (Unit {0})
  unfolding validate_no_conflict validate_dependencies validate_governance validate_factories
  validate registry spec = do
    validate_no_conflict registry.packs spec
    validate_dependencies registry.packs spec
    validate_governance registry.platform_permissions registry.policy_registry spec
    validate_factories spec

abbrev pub CapabilitiesOutcome : Type 0
CapabilitiesOutcome = Result PackRegistrationError (Unit {0}) × CapabilityRegistry

-- `_register_capabilities`: those before one that fails stay registered.
unfoldable pub register_capabilities : CapabilityRegistry → List Capability → CapabilitiesOutcome
unfolding register
register_capabilities registry [] = (ok tt, registry)
register_capabilities registry (c ∷ cs) = elim (register registry c none) [
  | err e ↦ (err (capability_failed e), registry)
  | ok after ↦ register_capabilities after cs
]

abbrev pub PackOutcome : Type 0
PackOutcome = Result PackRegistrationError (Unit {0}) × PackRegistry

abbrev pub store_pack : PackRegistry → DomainPackSpec → CapabilitiesOutcome → PackOutcome
store_pack registry spec (err e, capabilities) =
    (err e, record registry { capability_registry = capabilities })
store_pack registry spec (ok _, capabilities) = (
  ok tt,
  record registry {
    capability_registry = capabilities;
    packs = Dict.put registry.packs spec.name spec;
  },
)

abbrev pub after_gates :
    PackRegistry → DomainPackSpec → Result PackRegistrationError (Unit {0}) → PackOutcome
after_gates registry spec (err e) = (err e, registry)
after_gates registry spec (ok _) =
    store_pack registry spec (register_capabilities registry.capability_registry spec.capabilities)

-- `PackRegistry.register`
unfoldable pub register_pack :
    (String → ImportOutcome) → PackRegistry → DomainPackSpec → PackOutcome
unfolding validate register_capabilities Dict.put
register_pack import_path registry spec =
    after_gates registry spec (validate import_path registry spec)

-- `PackRegistry.get`, where none is its `KeyError`
unfoldable pub get_pack : PackRegistry → String → Option DomainPackSpec
unfolding Dict.get
get_pack registry name = Dict.get registry.packs name

abbrev has_status : Option Bool → DomainPackSpec → Bool
has_status none pack = true
has_status (some wanted) pack = elim pack.status [
  | pack_enabled ↦ wanted
  | pack_disabled ↦ not wanted
]

-- `PackRegistry.list`
unfoldable pub list_packs : PackRegistry → Option Bool → List DomainPackSpec
unfolding filter sorted Dict.values
list_packs registry enabled =
    sorted (λ (p q : DomainPackSpec). text_le p.name q.name)
      (filter (has_status enabled) (Dict.values registry.packs))
