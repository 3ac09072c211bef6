-- ===== src/Packs/Tests.antt =====
-- The theorems of the pack registry at a concrete pack.
use networkops_ai_agent.Base.Dict
use networkops_ai_agent.Auth.Models.{embedded_generate, role_eq, permission_eq}
use networkops_ai_agent.Base.{
  true, ◌∷◌, [], String, none, ◌≡◌, ok, refl, err, all, some, nat_eq, string_eq,
}
use networkops_ai_agent.Base.Dict.{Dict}
use networkops_ai_agent.Capability.{Capability, cap_firmware}
use networkops_ai_agent.Packs.{
  DomainPackSpec, pack_enabled, ImportOutcome, found_callable, PackRegistry,
  default_platform_permissions, register_pack, unregistered_dependency, list_packs,
}
use networkops_ai_agent.Packs.Closed.{is_closed, register_pack-is_closed}
use networkops_ai_agent.Packs.Gates.{has_dependencies, within_catalog, register_pack-gates}
use networkops_ai_agent.Values.{end}

abbrev blink : Capability
blink = record {
  name = "esp32_compile";
  version = "1.0";
  capability_type = cap_firmware;
  permission = embedded_generate;
  enabled = true;
  metadata = end;
}

abbrev embedded_pack : DomainPackSpec
embedded_pack = record {
  name = "embeddedops";
  version = "0.16.0";
  status = pack_enabled;
  capabilities = blink ∷ [];
  agent_factories = "agents.debug:make" ∷ [];
  workflow_factories = [];
  permissions = record { name = "EMBEDDED_GENERATE" } ∷ [];
  roles = record { name = "embedded"; permissions = "EMBEDDED_GENERATE" ∷ "VIEW_TRACE" ∷ [] } ∷ [];
  router_factories = [];
  depends_on = [];
}

abbrev lab_pack : DomainPackSpec
lab_pack = record embedded_pack { name = "lab"; capabilities = []; depends_on = "embeddedops" ∷ [] }

abbrev all_found : String → ImportOutcome
all_found path = found_callable

abbrev no_packs : PackRegistry
no_packs = record {
  packs = [];
  capability_registry = record { capabilities = []; handlers = [] };
  policy_registry = none;
  platform_permissions = default_platform_permissions;
}

abbrev with_pack : PackRegistry
with_pack = record no_packs {
  packs = ("embeddedops", embedded_pack) ∷ [];
  capability_registry = record {
    capabilities = ("esp32_compile", ("1.0", blink) ∷ []) ∷ [];
    handlers = [];
  };
}

register_pack-empty : register_pack all_found no_packs embedded_pack ≡ (ok tt, with_pack)
unfolding register_pack
register_pack-empty = refl

register_pack-missing :
    register_pack all_found no_packs lab_pack ≡ (err unregistered_dependency, no_packs)
unfolding register_pack
register_pack-missing = refl

register_pack-dependent : (register_pack all_found with_pack lab_pack).0 ≡ ok tt
unfolding register_pack
register_pack-dependent = refl

register_pack-gates_example :
    (has_dependencies with_pack.packs lab_pack ≡ true)
    × (within_catalog with_pack.platform_permissions lab_pack ≡ true)
register_pack-gates_example =
    register_pack-gates all_found with_pack lab_pack register_pack-dependent

register_pack-is_closed_example :
    is_closed (register_pack all_found with_pack lab_pack).1.packs ≡ true
unfolding all Dict.values
register_pack-is_closed_example = register_pack-is_closed all_found with_pack lab_pack refl

list_packs-enabled :
    list_packs
      (record with_pack { packs = ("lab", lab_pack) ∷ ("embeddedops", embedded_pack) ∷ [] })
      (some true)
    ≡ embedded_pack ∷ lab_pack ∷ []
unfolding list_packs
list_packs-enabled = refl
