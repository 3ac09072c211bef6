-- ===== src/Policy/Evaluator.antt =====
-- src/network_agent_rag/policy/evaluator.py: the evaluation of the actions of a repair plan.
pub mod Effects
pub mod Instants
pub mod DefaultPlans
use networkops_ai_agent.Auth.Models.{execute_repair, role_eq, permission_eq}
use networkops_ai_agent.Auth.Rbac.{UserContext}
use networkops_ai_agent.Base.{
  Option, String, List, dedup, filter, strip, not, is_empty, map, Result, is_blank, none, err, some,
  if◌then◌else◌, ok, ℕ, [], ◌∷◌, raise_if, nat_beq, length, max_by, ◌>>=◌, ◌>>◌, nat_eq, string_eq,
}
use networkops_ai_agent.Policy.Engine.{DecisionHash, evaluate, precedence}
use networkops_ai_agent.Policy.Models.{
  PolicyContext, PolicyDecision, PolicyError, PolicyRiskLevel, make_context, no_action_id,
  no_tool_name, parse_risk_level, no_action_targets, PolicyEffect, deny, effect_eq, operation_eq,
  risk_eq,
}
use networkops_ai_agent.Policy.Registry.{PolicyRegistry, resolve_operation}

-- What the evaluation reads of an action: `action_id` and `tool_name` are none where the key is
-- missing or holds no text; `target` is `str(action.get("target", ""))`.
pub record ActionView : Type 0 where
  pub action_id : Option String
  pub tool_name : Option String
  pub target : String

pub record PolicyEvaluation : Type 0 where
  pub action_id : String
  pub context : PolicyContext
  pub decision : PolicyDecision

-- `tuple(dict.fromkeys(...))` over the stripped targets that are not blank.
unfoldable pub targets_of : List ActionView → List String
unfolding dedup filter strip
targets_of actions =
    dedup (filter (λ t. not (is_empty t)) (map (λ action. strip action.target) actions))

-- `not isinstance(value, str) or not value.strip()` raises.
unfoldable pub required_text : Option String → PolicyError → Result PolicyError String
unfolding is_blank
required_text none e = err e
required_text (some value) e = if is_blank value then err e else ok value

module _ (decision_hash : DecisionHash) (registry : PolicyRegistry) (user_context : UserContext)
    (targets : List String) (level : PolicyRiskLevel) (timestamp : ℕ) where
  unfoldable pub evaluate_action : ActionView → Result PolicyError PolicyEvaluation
  unfolding required_text make_context resolve_operation strip
  evaluate_action action = do
    action_id ← required_text action.action_id no_action_id
    tool_name ← required_text action.tool_name no_tool_name
    context ← make_context (record {
      actor_id = user_context.user.user_id;
      roles = user_context.user.roles;
      permission = execute_repair;
      operation = resolve_operation registry tool_name;
      tool_name = tool_name;
      devices = targets;
      risk_level = level;
      timestamp = timestamp;
    })
    ok (record {
      action_id = strip action_id;
      context = context;
      decision = evaluate decision_hash registry context;
    })

  -- The loop over the actions: the first error ends it.
  unfoldable pub evaluate_each : List ActionView → Result PolicyError (List PolicyEvaluation)
  evaluate_each [] = ok []
  evaluate_each (action ∷ actions) = do
    evaluation ← evaluate_action action
    rest ← evaluate_each actions
    ok (evaluation ∷ rest)

-- `risk_level` is given as text; a member of the enumeration is a text of its value.
unfoldable pub evaluate_actions :
    DecisionHash
    → PolicyRegistry
    → UserContext
    → List ActionView
    → String
    → ℕ
    → Result PolicyError (List PolicyEvaluation)
unfolding targets_of parse_risk_level evaluate_each
evaluate_actions decision_hash registry user_context actions risk_level timestamp = do
  let targets = targets_of actions
  raise_if (nat_beq (length targets) 0) no_action_targets
  level ← parse_risk_level risk_level
  evaluate_each decision_hash registry user_context targets level timestamp actions

unfoldable pub aggregate_effect : List PolicyEvaluation → PolicyEffect
unfolding max_by precedence
aggregate_effect [] = deny
aggregate_effect (e ∷ evaluations) =
    max_by precedence e.decision.decision (map (λ x. x.decision.decision) evaluations)
