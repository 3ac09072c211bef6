-- ===== src/Capability.antt =====
-- src/network_agent_rag/capability/registry.py and models.py: versioned capabilities, the highest
-- enabled version, and the handlers that are bound to them. A handler is known by a name.
pub mod Versions
pub mod Resolver
pub mod Tests
use networkops_ai_agent.Base.Dict
use networkops_ai_agent.Auth.Models.{Permission, role_eq, permission_eq}
use networkops_ai_agent.Base.{
  String, Bool, ◌<>◌, ℕ, ◌*◌, ◌+◌, code, ◌-◌, List, split_on, map, [], false, ◌∷◌, true,
  if◌then◌else◌, nat_beq, ltb, or_else, Option, none, some, Result, raise_if, ok, err, filter,
  or_raise, not, length, ◌++◌, ◌&&◌, ◌==◌, text_le, ◌||◌, sorted, ◌>>=◌, ◌>>◌, nat_eq, string_eq,
}
use networkops_ai_agent.Base.Dict.{Dict}
use networkops_ai_agent.Values.{Fields}

pub data CapabilityType : Type 0 where
  cap_firmware cap_simulation cap_hardware cap_operations cap_knowledge : CapabilityType

-- The fields that the registry reads.
pub record Capability : Type 0 where
  pub name : String
  pub version : String
  pub capability_type : CapabilityType
  pub permission : Permission
  pub enabled : Bool
  pub metadata : Fields

-- `Capability.key`
unfoldable pub key_of : Capability → String
key_of capability = capability.name <> ("@" <> capability.version)

-- `int(part)` of decimal digits
abbrev pub digits_value : ℕ → String → ℕ
digits_value n String.[] = n
digits_value n (String.◌∷◌ c text) = digits_value (n * 10 + (code c - 48)) text

-- `_version_sort_key`
unfoldable pub version_sort_key : String → List ℕ
unfolding split_on
version_sort_key version = map (digits_value 0) (split_on "." version)

-- Python's order of tuples of numbers: the first difference decides, and a prefix is less.
unfoldable pub key_lt : List ℕ → List ℕ → Bool
key_lt xs [] = false
key_lt [] (y ∷ ys) = true
key_lt (x ∷ xs) (y ∷ ys) = let rest = key_lt xs ys in if nat_beq x y then rest else ltb x y

-- The one of two that `max` keeps: the later one only where its version is above.
unfoldable pub better : Capability → Capability → Capability
unfolding version_sort_key key_lt
better best c =
    if key_lt (version_sort_key best.version) (version_sort_key c.version) then c else best

-- `max(enabled, key=...)`: the first of the greatest.
unfoldable pub highest : Capability → List Capability → Capability
unfolding better
highest best [] = best
highest best (c ∷ rest) = highest (better best c) rest

pub record CapabilityRegistry : Type 0 where
  pub capabilities : Dict String (Dict String Capability)
  pub handlers : Dict String String

pub data CapabilityError : Type 0 where
  already_registered unknown_capability capability_disabled no_enabled_version : CapabilityError
  no_handler handler_bound : CapabilityError

-- `self._capabilities.setdefault(name, {})`
abbrev pub versions_of : CapabilityRegistry → String → Dict String Capability
versions_of registry name = or_else (Dict.get registry.capabilities name) []

abbrev bind : Dict String String → String → Option String → Dict String String
bind handlers key none = handlers
bind handlers key (some handler) = Dict.put handlers key handler

unfoldable pub register :
    CapabilityRegistry → Capability → Option String → Result CapabilityError CapabilityRegistry
unfolding Dict.get Dict.has Dict.put key_of
register registry capability handler = do
  let versions = versions_of registry capability.name
  raise_if (Dict.has versions capability.version) already_registered
  ok (record {
    capabilities =
        Dict.put registry.capabilities capability.name
          (Dict.put versions capability.version capability);
    handlers = bind registry.handlers (key_of capability) handler;
  })

-- `get` without a version
abbrev pub latest : List Capability → Result CapabilityError Capability
latest [] = err no_enabled_version
latest (c ∷ cs) = ok (highest c cs)

unfoldable pub get_version :
    Dict String Capability → Option String → Result CapabilityError Capability
unfolding filter highest Dict.get Dict.values
get_version versions (some version) = do
  capability ← or_raise (Dict.get versions version) unknown_capability
  raise_if (not capability.enabled) capability_disabled
  ok capability
get_version versions none = latest (filter (λ (c : Capability). c.enabled) (Dict.values versions))

-- `get`
unfoldable pub get_capability :
    CapabilityRegistry → String → Option String → Result CapabilityError Capability
unfolding get_version Dict.get
get_capability registry name version = do
  raise_if (nat_beq (length (versions_of registry name)) 0) unknown_capability
  get_version (versions_of registry name) version

unfoldable pub handler_for :
    CapabilityRegistry → String → Option String → Result CapabilityError String
unfolding get_capability key_of Dict.get
handler_for registry name version = do
  capability ← get_capability registry name version
  or_raise (Dict.get registry.handlers (key_of capability)) no_handler

unfoldable pub bind_handler :
    CapabilityRegistry → String → String → Option String → Result CapabilityError CapabilityRegistry
unfolding get_capability key_of Dict.has Dict.put
bind_handler registry name handler version = do
  capability ← get_capability registry name version
  raise_if (Dict.has registry.handlers (key_of capability)) handler_bound
  ok (record registry { handlers = Dict.put registry.handlers (key_of capability) handler })

abbrev in_all : Dict String (Dict String Capability) → List Capability
in_all [] = []
in_all ((name, versions) ∷ rest) = Dict.values versions ++ in_all rest

abbrev pub type_rank : CapabilityType → ℕ
type_rank cap_firmware = 0
type_rank cap_simulation = 1
type_rank cap_hardware = 2
type_rank cap_operations = 3
type_rank cap_knowledge = 4

abbrev selected {ℓ} : {A : Type ℓ} → Option A → (A → Bool) → Bool
selected none test = true
selected (some a) test = test a

abbrev pub lists : Option CapabilityType → Option Permission → Option Bool → Capability → Bool
lists kind permission enabled c =
    selected kind (λ k. nat_beq (type_rank c.capability_type) (type_rank k))
    && selected permission (λ p. c.permission == p)
    && selected enabled (λ (e : Bool). if e then c.enabled else not c.enabled)

-- The order of the list: by the name, then by the version.
abbrev listed_le : Capability → Capability → Bool
listed_le a b =
    text_le a.name b.name
    && (not (a.name == b.name)
        || not (key_lt (version_sort_key b.version) (version_sort_key a.version)))

-- `list`
unfoldable pub list_capabilities :
    CapabilityRegistry → Option CapabilityType → Option Permission → Option Bool → List Capability
unfolding filter sorted Dict.values key_lt version_sort_key
list_capabilities registry kind permission enabled =
    sorted listed_le (filter (lists kind permission enabled) (in_all registry.capabilities))
