-- ===== src/Capability/Tests.antt =====
-- The theorems of the registry at a concrete capability.
use networkops_ai_agent.Auth.Models.{embedded_generate, role_eq, permission_eq}
use networkops_ai_agent.Base.{
  String, true, [], ◌∷◌, some, ◌≡◌, ok, refl, none, if◌then◌else◌, err, length, ◌≤◌, All, nat_eq,
  string_eq,
}
use networkops_ai_agent.Capability.{
  Capability, cap_firmware, CapabilityRegistry, register, get_capability, capability_disabled,
}
use networkops_ai_agent.Capability.Resolver.{CapabilityQuery, resolve}
use networkops_ai_agent.Capability.Resolver.Results.{bound, resolve-bounded}
use networkops_ai_agent.Capability.Versions.{
  IsIn, enabled_versions, none_above, get_capability-latest, get_capability-register,
}
use networkops_ai_agent.Values.{end, Value}

abbrev compile_at : String → Capability
compile_at version = record {
  name = "esp32_compile";
  version = version;
  capability_type = cap_firmware;
  permission = embedded_generate;
  enabled = true;
  metadata = end;
}

abbrev no_capabilities : CapabilityRegistry
no_capabilities = record { capabilities = []; handlers = [] }

abbrev with_one : CapabilityRegistry
with_one = record {
  capabilities = ("esp32_compile", ("1.9", compile_at "1.9") ∷ []) ∷ [];
  handlers = ("esp32_compile@1.9", "arduino") ∷ [];
}

abbrev with_two : CapabilityRegistry
with_two = record with_one {
  capabilities =
      ("esp32_compile", ("1.9", compile_at "1.9") ∷ ("1.10", compile_at "1.10") ∷ []) ∷ [];
}

register-one : register no_capabilities (compile_at "1.9") (some "arduino") ≡ ok with_one
unfolding register
register-one = refl

get_capability-two : get_capability with_two "esp32_compile" none ≡ ok (compile_at "1.10")
unfolding get_capability
get_capability-two = refl

get_capability-latest_example :
    IsIn (compile_at "1.10") (enabled_versions with_two "esp32_compile")
    × (none_above (compile_at "1.10") (enabled_versions with_two "esp32_compile") ≡ true)
get_capability-latest_example =
    get_capability-latest with_two "esp32_compile" (compile_at "1.10") get_capability-two

get_capability-register_example :
    get_capability with_one (compile_at "1.9").name (some (compile_at "1.9").version)
    ≡ (if (compile_at "1.9").enabled then ok (compile_at "1.9") else err capability_disabled)
get_capability-register_example =
    get_capability-register no_capabilities with_one (compile_at "1.9") (some "arduino")
      register-one

abbrev same_text : String → String
same_text text = text

abbrev no_text : Value → String
no_text v = "None"

abbrev one_query : CapabilityQuery
one_query = record {
  kind = some cap_firmware;
  permission = none;
  version = none;
  constraints = [];
  max_results = 1;
}

abbrev stored_two : CapabilityRegistry
stored_two = record with_two {
  capabilities =
      ("esp32_compile", ("1.9", compile_at "1.9") ∷ ("1.10", compile_at "1.10") ∷ [])
      ∷ ("led", ("1.0", record (compile_at "1.0") { name = "led" }) ∷ [])
      ∷ [];
}

resolve-esp :
    resolve no_text same_text stored_two "Compile my ESP32 project" one_query
    ≡ compile_at "1.10" ∷ []
unfolding resolve
resolve-esp = refl

-- A limit of no results still lets one through.
resolve-no_limit :
    length (resolve no_text same_text stored_two "firmware" (record one_query { max_results = 0 }))
    ≡ 1
unfolding resolve
resolve-no_limit = refl

resolve-bounded_example :
    (length (resolve no_text same_text stored_two "firmware" one_query) ≤ bound 1)
    × All
        (λ (c : Capability). c.enabled ≡ true)
        (resolve no_text same_text stored_two "firmware" one_query)
resolve-bounded_example = resolve-bounded no_text same_text stored_two "firmware" one_query
