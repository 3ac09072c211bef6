-- ===== src/Policy/Rules/Defaults.antt =====
-- The decisions of the default policy, for every context.
use networkops_ai_agent.Auth.Models.{execute_repair, role_eq, permission_eq}
use networkops_ai_agent.Base.{
  if◌then◌else◌, ◌==◌, ◌&&◌, ◌||◌, ◌≡◌, any, filter, contains, arith, sorted, ok, refl, ◌∙◌, nat_eq,
  string_eq,
}
use networkops_ai_agent.Policy.Engine.{matches, DecisionHash, evaluate}
use networkops_ai_agent.Policy.Engine.Decision.{decision_by_rules}
use networkops_ai_agent.Policy.Models.{
  PolicyContext, PolicyEffect, view_device_status, low, allow, restart_device,
  batch_configuration_change, high, critical, require_approval, deny, effect_eq, operation_eq,
  risk_eq,
}
use networkops_ai_agent.Policy.Registry.{PolicyRegistry, rule_le, item_le, make_registry}
use networkops_ai_agent.Policy.Registry.Resolution.{evaluate-make_registry}
use networkops_ai_agent.Policy.Rules.{default_rules, default_tools, default_policy_registry}

-- What a tool may do under the default policy, as a table.
abbrev pub default_table : PolicyContext → PolicyEffect
default_table c =
    if c.permission == execute_repair
    then (if c.operation == view_device_status && c.risk_level == low
        then allow
        else if (c.operation == restart_device || c.operation == batch_configuration_change)
            && (c.risk_level == high || c.risk_level == critical)
        then require_approval
        else deny)
    else deny

decision_by_default_rules :
    (c : PolicyContext) → decision_by_rules default_rules c ≡ default_table c
unfolding default_rules matches any filter contains
decision_by_default_rules c = ground arith

abbrev built_registry : PolicyRegistry
built_registry = record {
  rules = sorted rule_le default_rules;
  tool_operations = sorted item_le default_tools;
}

make_registry-default : make_registry default_rules default_tools ≡ ok built_registry
unfolding default_policy_registry
make_registry-default = refl

default_policy_registry-eq : default_policy_registry ≡ ok built_registry
unfolding default_policy_registry
default_policy_registry-eq = refl

-- The default rules pass the checks of the registry and decide as the table does: EXECUTE_REPAIR
-- is allowed for reading a status at low risk, waits for approval for a restart or a batch change
-- at high or critical risk, and all else is denied.
pub default_policy_registry-decision :
    (h : DecisionHash) (c : PolicyContext)
    → (registry : PolicyRegistry) × (default_policy_registry ≡ ok registry)
      × ((evaluate h registry c).decision ≡ default_table c)
default_policy_registry-decision h c = (
  built_registry,
  default_policy_registry-eq,
  evaluate-make_registry h default_rules default_tools built_registry c make_registry-default
      ∙ decision_by_default_rules c,
)

pub default_registry-decision :
    (h : DecisionHash) (registry : PolicyRegistry) (c : PolicyContext)
    → default_policy_registry ≡ ok registry
    → (evaluate h registry c).decision ≡ default_table c
unfolding default_policy_registry
default_registry-decision h registry c built =
    evaluate-make_registry h default_rules default_tools registry c built
    ∙ decision_by_default_rules c

-- The table allows one thing only.
pub default_table-allow :
    (c : PolicyContext)
    → default_table c ≡ allow
    → (c.operation ≡ view_device_status) × (c.risk_level ≡ low)
default_table-allow c h = ground arith
