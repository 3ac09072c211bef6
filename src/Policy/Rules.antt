-- ===== src/Policy/Rules.antt =====
-- src/network_agent_rag/policy/rules.py: the default rules and tool classes.
pub mod Defaults
use networkops_ai_agent.Auth.Models.{
  Permission, execute_repair, all_permissions, role_eq, permission_eq,
}
use networkops_ai_agent.Base.{
  none, List, filter, not, ◌==◌, some, ◌∷◌, [], String, Result, nat_eq, string_eq,
}
use networkops_ai_agent.Policy.Models.{
  PolicyCondition, PolicyRule, view_device_status, low, allow, batch_configuration_change, deny,
  restart_device, high, critical, require_approval, PolicyOperation, PolicyError, effect_eq,
  operation_eq, risk_eq,
}
use networkops_ai_agent.Policy.Registry.{PolicyRegistry, make_registry}

abbrev unconstrained : PolicyCondition
unconstrained = record {
  operation = none;
  risk_level = none;
  permission = none;
  role = none;
  min_devices = none;
  max_devices = none;
}

-- Every permission but EXECUTE_REPAIR.
unfoldable pub unprivileged : List Permission
unfolding filter
unprivileged = filter (λ p. not (p == execute_repair)) all_permissions

unfoldable pub allow_device_status : PolicyRule
allow_device_status = record {
  rule_id = "allow-low-risk-device-status";
  name = "Allow low-risk device status";
  condition = record unconstrained {
    operation = some (view_device_status ∷ []);
    risk_level = some (low ∷ []);
    permission = some (execute_repair ∷ []);
  };
  effect = allow;
}

unfoldable pub deny_batch_change : PolicyRule
unfolding unprivileged
deny_batch_change = record {
  rule_id = "deny-unprivileged-batch-change";
  name = "Deny unprivileged batch changes";
  condition = record unconstrained {
    operation = some (batch_configuration_change ∷ []);
    permission = some unprivileged;
  };
  effect = deny;
}

unfoldable pub approve_high_risk : PolicyRule
approve_high_risk = record {
  rule_id = "require-approval-high-risk-change";
  name = "Require approval for high-risk changes";
  condition = record unconstrained {
    operation = some (restart_device ∷ batch_configuration_change ∷ []);
    risk_level = some (high ∷ critical ∷ []);
    permission = some (execute_repair ∷ []);
  };
  effect = require_approval;
}

unfoldable pub default_rules : List PolicyRule
unfolding allow_device_status deny_batch_change approve_high_risk
default_rules = allow_device_status ∷ deny_batch_change ∷ approve_high_risk ∷ []

unfoldable pub default_tools : List (String × PolicyOperation)
default_tools =
    ("network.view_device_status", view_device_status)
    ∷ ("network.restart_device", restart_device)
    ∷ ("network.batch_configuration_change", batch_configuration_change)
    ∷ []

unfoldable pub default_policy_registry : Result PolicyError PolicyRegistry
unfolding default_rules default_tools make_registry
default_policy_registry = make_registry default_rules default_tools
