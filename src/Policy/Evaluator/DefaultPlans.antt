-- ===== src/Policy/Evaluator/DefaultPlans.antt =====
-- Repair plans under the default policy.
use networkops_ai_agent.Auth.Rbac.{UserContext}
use networkops_ai_agent.Base.{
  ◌≡◌, ok, List, String, ℕ, or_else, sym, ◌∙◌, ap, All, [], ◌∷◌, subst, arith, eq_iff, nat_beq,
  length, false, All-map, nat_eq, string_eq,
}
use networkops_ai_agent.Policy.Engine.{DecisionHash}
use networkops_ai_agent.Policy.Evaluator.{
  ActionView, PolicyEvaluation, evaluate_action, evaluate_each, targets_of, evaluate_actions,
  aggregate_effect,
}
use networkops_ai_agent.Policy.Evaluator.Effects.{
  evaluate_action-eq_ok, evaluate_each-cons, evaluate_actions-eq_ok, aggregate_effect-allow,
}
use networkops_ai_agent.Policy.Models.{
  PolicyRiskLevel, allow, view_device_status, low, parse_risk_level, effect_eq, operation_eq,
  risk_eq,
}
use networkops_ai_agent.Policy.Registry.{PolicyRegistry, resolve_operation}
use networkops_ai_agent.Policy.Rules.{default_policy_registry}
use networkops_ai_agent.Policy.Rules.Defaults.{default_table-allow, default_registry-decision}

module _ (h : DecisionHash) (registry : PolicyRegistry)
    (built : default_policy_registry ≡ ok registry) (user : UserContext) (targets : List String)
    (level : PolicyRiskLevel) (timestamp : ℕ) where
  allowed_action :
      (action : ActionView) (e : PolicyEvaluation)
      → evaluate_action h registry user targets level timestamp action ≡ ok e
      → e.decision.decision ≡ allow
      → (resolve_operation registry (or_else action.tool_name "") ≡ view_device_status)
        × (level ≡ low)
  allowed_action action e made allowed =
      let (decided, _, at_level, operation) =
        evaluate_action-eq_ok h registry user targets level timestamp action e made in
      let (status, is_low) = default_table-allow e.context (
        sym (default_registry-decision h registry e.context built)
        ∙ ap (λ d. d.decision) (sym decided)
        ∙ allowed) in
      (sym operation ∙ status, sym at_level ∙ is_low)

  allowed_each :
      (actions : List ActionView) (evaluations : List PolicyEvaluation)
      → evaluate_each h registry user targets level timestamp actions ≡ ok evaluations
      → All (λ e. e.decision.decision ≡ allow) evaluations
      → All
          (λ a.
            (resolve_operation registry (or_else a.tool_name "") ≡ view_device_status)
            × (level ≡ low))
          actions
  allowed_each [] evaluations made allowed = tt
  allowed_each (action ∷ actions) evaluations made allowed =
      let (e, rest, first, others, both) =
        evaluate_each-cons h registry user targets level timestamp action actions evaluations
          made in
      let allowed' = subst (All (λ x. x.decision.decision ≡ allow)) both allowed in
      (allowed_action action e first allowed'.0, allowed_each actions rest others allowed'.1)

-- The level that is written "low" is the only one that is read as LOW.
parse_risk_level-low : (text : String) → parse_risk_level text ≡ ok low → text ≡ "low"
unfolding parse_risk_level
parse_risk_level-low text p = ground (arith, eq_iff text "low")

no_targets : nat_beq (length (targets_of [])) 0 ≡ false → ⊥
unfolding targets_of
no_targets p = ground arith

-- Under the default policy a plan whose actions evaluate to ALLOW has the level low, and the tool
-- of each of its actions is classified as the reading of a device's status.
pub default_policy-allow :
    (h : DecisionHash) (registry : PolicyRegistry) (user : UserContext) (actions : List ActionView)
    (risk_level : String) (timestamp : ℕ) (evaluations : List PolicyEvaluation)
    → default_policy_registry ≡ ok registry
    → evaluate_actions h registry user actions risk_level timestamp ≡ ok evaluations
    → aggregate_effect evaluations ≡ allow
    → (risk_level ≡ "low")
      × All (λ a. resolve_operation registry (or_else a.tool_name "") ≡ view_device_status) actions
default_policy-allow h registry user [] risk_level timestamp evaluations built made allowed =
    absurd (
      no_targets
        (evaluate_actions-eq_ok h registry user [] risk_level timestamp evaluations made).2)
default_policy-allow h registry user (a ∷ actions) risk_level timestamp evaluations built made
      allowed =
    let (level, parsed, _, each) =
      evaluate_actions-eq_ok h registry user (a ∷ actions) risk_level timestamp evaluations made in
    let found =
      allowed_each h registry built user (targets_of (a ∷ actions)) level timestamp (a ∷ actions)
        evaluations each (aggregate_effect-allow evaluations allowed) in
    (
      parse_risk_level-low risk_level (parsed ∙ ap ok found.0.1),
      All-map
          {P = λ x.
            (resolve_operation registry (or_else x.tool_name "") ≡ view_device_status)
            × (level ≡ low)}
          (λ x both. both.0) (a ∷ actions) found,
    )
