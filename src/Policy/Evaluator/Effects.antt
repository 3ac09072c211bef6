-- ===== src/Policy/Evaluator/Effects.antt =====
-- What the evaluation of a plan's actions guarantees.
use networkops_ai_agent.Auth.Models.{execute_repair, role_eq, permission_eq}
use networkops_ai_agent.Auth.Rbac.{UserContext}
use networkops_ai_agent.Base.{
  List, ◌≡◌, if◌then◌else◌, nat_beq, length, any, ◌==◌, contains, [], refl, ◌∷◌, arith, map, false,
  All, String, ℕ, ok, or_else, >>=-eq-ok, sym, ok_injective, ap, ◌∙◌, suc, raise_if, nat_eq,
  string_eq,
}
use networkops_ai_agent.Policy.Engine.{DecisionHash, evaluate}
use networkops_ai_agent.Policy.Engine.Strongest.{by_occurrence, max_by-precedence, contains-map}
use networkops_ai_agent.Policy.Evaluator.{
  PolicyEvaluation, aggregate_effect, ActionView, evaluate_action, required_text, evaluate_each,
  evaluate_actions, targets_of,
}
use networkops_ai_agent.Policy.Models.{
  deny, require_approval, allow, PolicyRiskLevel, make_context, parse_risk_level, no_action_targets,
  effect_eq, operation_eq, risk_eq,
}
use networkops_ai_agent.Policy.Registry.{PolicyRegistry, resolve_operation}

-- The effect of a plan is that of its strictest action, and DENY for a plan with no action.
pub aggregate_effect_lem :
    (evaluations : List PolicyEvaluation)
    → aggregate_effect evaluations ≡ (
        if nat_beq (length evaluations) 0
        then deny
        else by_occurrence
            (any (λ e. e.decision.decision == deny) evaluations)
            (any (λ e. e.decision.decision == require_approval) evaluations))
unfolding aggregate_effect any contains
aggregate_effect_lem [] = refl
aggregate_effect_lem (e ∷ evaluations) = ground (
  arith,
  max_by-precedence e.decision.decision (map (λ x. x.decision.decision) evaluations),
  contains-map (λ (x : PolicyEvaluation). x.decision.decision) evaluations deny,
  contains-map (λ (x : PolicyEvaluation). x.decision.decision) evaluations require_approval,
)

none_other :
    (evaluations : List PolicyEvaluation)
    → any (λ e. e.decision.decision == deny) evaluations ≡ false
    → any (λ e. e.decision.decision == require_approval) evaluations ≡ false
    → All (λ e. e.decision.decision ≡ allow) evaluations
unfolding any
none_other [] h k = tt
none_other (e ∷ evaluations) h k =
    (ground arith, none_other evaluations (ground arith) (ground arith))

-- A plan is allowed only if each of its actions is.
pub aggregate_effect-allow :
    (evaluations : List PolicyEvaluation)
    → aggregate_effect evaluations ≡ allow
    → All (λ e. e.decision.decision ≡ allow) evaluations
aggregate_effect-allow evaluations h =
    none_other evaluations (ground (arith, aggregate_effect_lem evaluations))
      (ground (arith, aggregate_effect_lem evaluations))

module _ (h : DecisionHash) (registry : PolicyRegistry) (user : UserContext) (targets : List String)
    (level : PolicyRiskLevel) (timestamp : ℕ) where
  -- An evaluation is for the permission, the tool and the level that were asked about.
  pub evaluate_action-eq_ok :
      (action : ActionView) (e : PolicyEvaluation)
      → evaluate_action h registry user targets level timestamp action ≡ ok e
      → (e.decision ≡ evaluate h registry e.context)
        × (e.context.permission ≡ execute_repair)
        × (e.context.risk_level ≡ level)
        × (e.context.operation ≡ resolve_operation registry (or_else action.tool_name ""))
  unfolding evaluate_action required_text make_context
  evaluate_action-eq_ok action e p = ground arith

  pub evaluate_each-cons :
      (action : ActionView) (actions : List ActionView) (evaluations : List PolicyEvaluation)
      → evaluate_each h registry user targets level timestamp (action ∷ actions) ≡ ok evaluations
      → (e : PolicyEvaluation) × (rest : List PolicyEvaluation) × (evaluate_action h registry user
            targets level timestamp action
          ≡ ok e)
        × (evaluate_each h registry user targets level timestamp actions ≡ ok rest)
        × (evaluations ≡ e ∷ rest)
  unfolding evaluate_each
  evaluate_each-cons action actions evaluations p =
      let (e, first, p') =
        >>=-eq-ok (evaluate_action h registry user targets level timestamp action) _ p in
      let (rest, others, both) =
        >>=-eq-ok (evaluate_each h registry user targets level timestamp actions) _ p' in
      (e, rest, first, others, sym (ok_injective both))

  evaluate_each-nil :
      (evaluations : List PolicyEvaluation)
      → evaluate_each h registry user targets level timestamp [] ≡ ok evaluations
      → [] ≡ evaluations
  unfolding evaluate_each
  evaluate_each-nil evaluations p = ok_injective p

  -- One evaluation for each action.
  pub length-evaluate_each :
      (actions : List ActionView) (evaluations : List PolicyEvaluation)
      → evaluate_each h registry user targets level timestamp actions ≡ ok evaluations
      → length evaluations ≡ length actions
  length-evaluate_each [] evaluations p = ap length (sym (evaluate_each-nil evaluations p))
  length-evaluate_each (action ∷ actions) evaluations p =
      let (e, rest, _, others, both) = evaluate_each-cons action actions evaluations p in
      ap length both ∙ ap suc (length-evaluate_each actions rest others)

-- What a successful evaluation of a plan has checked.
pub evaluate_actions-eq_ok :
    (h : DecisionHash) (registry : PolicyRegistry) (user : UserContext) (actions : List ActionView)
    (risk_level : String) (timestamp : ℕ) (evaluations : List PolicyEvaluation)
    → evaluate_actions h registry user actions risk_level timestamp ≡ ok evaluations
    → (level : PolicyRiskLevel) × (parse_risk_level risk_level ≡ ok level)
      × (nat_beq (length (targets_of actions)) 0 ≡ false)
      × (evaluate_each h registry user (targets_of actions) level timestamp actions
          ≡ ok evaluations)
unfolding evaluate_actions
evaluate_actions-eq_ok h registry user actions risk_level timestamp evaluations p =
    let (_, some_target, p') =
      >>=-eq-ok (raise_if (nat_beq (length (targets_of actions)) 0) no_action_targets) _ p in
    let (level, parsed, each) = >>=-eq-ok (parse_risk_level risk_level) _ p' in
    (level, parsed, ground arith, each)
