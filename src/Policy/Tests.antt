-- ===== src/Policy/Tests.antt =====
-- The theorems of the policy at concrete rules, contexts and plans.
use networkops_ai_agent.Audit.Store.{event_type_eq}
use networkops_ai_agent.Auth.Models.{engineer, execute_repair, role_eq, permission_eq}
use networkops_ai_agent.Auth.Rbac.{UserContext}
use networkops_ai_agent.Base.{
  ◌∷◌, [], sorted, ◌≡◌, ok, refl, ◌++◌, true, ◌≤◌, if◌then◌else◌, nat_beq, length, any, ◌==◌, some,
  String, All, or_else, nat_eq, string_eq,
}
use networkops_ai_agent.Policy.Engine.{DecisionHash, evaluate, precedence, matches}
use networkops_ai_agent.Policy.Engine.Decision.{
  decision_by_rules, evaluate-decision, is_matched, with_rules, evaluate-more_rules,
}
use networkops_ai_agent.Policy.Engine.Strongest.{by_occurrence}
use networkops_ai_agent.Policy.Evaluator.{
  PolicyEvaluation, aggregate_effect, ActionView, evaluate_actions, evaluate_action,
}
use networkops_ai_agent.Policy.Evaluator.DefaultPlans.{default_policy-allow}
use networkops_ai_agent.Policy.Evaluator.Effects.{aggregate_effect_lem}
use networkops_ai_agent.Policy.Models.{
  PolicyRiskLevel, PolicyContext, view_device_status, low, high, deny, require_approval, allow,
  effect_eq, operation_eq, risk_eq,
}
use networkops_ai_agent.Policy.Registry.{
  PolicyRegistry, rule_le, item_le, make_registry, resolve_operation,
}
use networkops_ai_agent.Policy.Rules.{
  default_rules, default_tools, default_policy_registry, deny_batch_change, allow_device_status,
  approve_high_risk, unprivileged,
}
use networkops_ai_agent.Policy.Rules.Defaults.{default_table, default_policy_registry-decision}

-- A digest that tells contexts apart by their actor.
abbrev actor_hash : DecisionHash
actor_hash context matched decision = context.actor_id

abbrev context_at : PolicyRiskLevel → PolicyContext
context_at level = record {
  actor_id = "u1";
  roles = engineer ∷ [];
  permission = execute_repair;
  operation = view_device_status;
  tool_name = "network.view_device_status";
  devices = "r1" ∷ [];
  risk_level = level;
  timestamp = 7;
}

abbrev none_registry : PolicyRegistry
none_registry = record { rules = default_rules; tool_operations = default_tools }

abbrev sorted_registry : PolicyRegistry
sorted_registry = record {
  rules = sorted rule_le default_rules;
  tool_operations = sorted item_le default_tools;
}

make_registry-sorted : make_registry default_rules default_tools ≡ ok sorted_registry
unfolding make_registry default_rules default_tools
make_registry-sorted = refl

default-sorted : default_policy_registry ≡ ok sorted_registry
unfolding default_policy_registry
default-sorted = refl

evaluate-decision_example :
    (evaluate actor_hash none_registry (context_at low)).decision
    ≡ decision_by_rules default_rules (context_at low)
evaluate-decision_example = evaluate-decision actor_hash none_registry (context_at low)

evaluate-deny_batch :
    (is_matched (default_rules ++ []) (context_at low) ≡ true
      → precedence
          (evaluate actor_hash
            (with_rules none_registry (default_rules ++ []))
            (context_at low)).decision
        ≤ precedence
            (evaluate actor_hash
              (with_rules none_registry (default_rules ++ deny_batch_change ∷ []))
              (context_at low)).decision)
    × (matches deny_batch_change.condition (context_at low) ≡ true
        → precedence deny_batch_change.effect
          ≤ precedence
              (evaluate actor_hash
                (with_rules none_registry (default_rules ++ deny_batch_change ∷ []))
                (context_at low)).decision)
evaluate-deny_batch =
    evaluate-more_rules actor_hash none_registry default_rules [] deny_batch_change (context_at low)

default_decision-low :
    (registry : PolicyRegistry) × (default_policy_registry ≡ ok registry)
    × ((evaluate actor_hash registry (context_at low)).decision ≡ default_table (context_at low))
default_decision-low = default_policy_registry-decision actor_hash (context_at low)

abbrev evaluation_at : PolicyRiskLevel → PolicyEvaluation
evaluation_at level = record {
  action_id = "a1";
  context = context_at level;
  decision = evaluate actor_hash sorted_registry (context_at level);
}

aggregate_effect-two : aggregate_effect (evaluation_at low ∷ evaluation_at high ∷ []) ≡ (
    if nat_beq (length (evaluation_at low ∷ evaluation_at high ∷ [])) 0
    then deny
    else by_occurrence
        (any (λ e. e.decision.decision == deny) (evaluation_at low ∷ evaluation_at high ∷ []))
        (any
          (λ e. e.decision.decision == require_approval)
          (evaluation_at low ∷ evaluation_at high ∷ [])))
aggregate_effect-two = aggregate_effect_lem (evaluation_at low ∷ evaluation_at high ∷ [])

one_allowed : aggregate_effect (evaluation_at low ∷ []) ≡ allow
unfolding aggregate_effect evaluate default_rules allow_device_status deny_batch_change
    approve_high_risk unprivileged sorted
one_allowed = refl

abbrev status_action : ActionView
status_action = record {
  action_id = some " a1 ";
  tool_name = some "network.view_device_status";
  target = "r1 ";
}

abbrev lead_context : UserContext
lead_context = record { user = record { user_id = "u1"; username = "lead"; roles = engineer ∷ [] } }

evaluate_actions-status :
    evaluate_actions actor_hash sorted_registry lead_context (status_action ∷ []) "low" 7
    ≡ ok (evaluation_at low ∷ [])
unfolding evaluate_actions resolve_operation evaluate default_rules default_tools evaluate_action
    sorted
evaluate_actions-status = refl

abbrev low_text : String
low_text = "low"

default_policy-status :
    (low_text ≡ "low")
    × All
        (λ (a : ActionView).
          resolve_operation sorted_registry (or_else a.tool_name "") ≡ view_device_status)
        (status_action ∷ [])
default_policy-status =
    default_policy-allow actor_hash sorted_registry lead_context (status_action ∷ []) "low" 7
      (evaluation_at low ∷ []) default-sorted evaluate_actions-status one_allowed
