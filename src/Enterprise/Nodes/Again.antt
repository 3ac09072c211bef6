-- ===== src/Enterprise/Nodes/Again.antt =====
-- A plan that the policy denied at RiskCheck is denied at Execute too.
use networkops_ai_agent.Auth.Rbac.{UserContext}
use networkops_ai_agent.Base.{
  Result, ◌≡◌, ok, ap, ok_injective, err, or_raise, refl, String, ℕ, List, >>=-eq-ok, ◌∙◌, Option,
  false, nat_eq, string_eq,
}
use networkops_ai_agent.Enterprise.Approval.{as_dict, as_list}
use networkops_ai_agent.Enterprise.Nodes.{evaluations_of}
use networkops_ai_agent.Enterprise.Nodes.Judged.{Denied}
use networkops_ai_agent.Enterprise.Workflow.{
  lift_policy, risk_required, PolicyEngine, Contexts, policy_execution_context, effect_of,
  bad_action_list, views_of, level_text,
}
use networkops_ai_agent.Enterprise.Workflow.Permitted.{policy_admits}
use networkops_ai_agent.Policy.Evaluator.{PolicyEvaluation, aggregate_effect}
use networkops_ai_agent.Policy.Evaluator.Instants.{evaluate_actions-effect}
use networkops_ai_agent.Policy.Models.{PolicyError, effect_eq, operation_eq, risk_eq}
use networkops_ai_agent.Values.{Value, Fields, dict, get_field}

lift_policy-ok {ℓ} :
    {A : Type ℓ} (step : Result PolicyError A) (a : A) → lift_policy step ≡ ok a → step ≡ ok a
lift_policy-ok (ok b) a h = ap ok (ok_injective h)
lift_policy-ok (err e) a h = cc

risk_of : {v : Value} {risk : Fields} → v ≡ dict risk → or_raise (as_dict v) risk_required ≡ ok risk
risk_of h = rw h refl

effect_of-evaluations :
    (render : Value → String) (e : PolicyEngine) (contexts : Contexts) (state after risk : Fields)
    (context : UserContext) (t u : ℕ) (evaluations : List PolicyEvaluation)
    → policy_execution_context contexts ≡ ok context
    → evaluations_of render e context state (get_field risk "risk_level") t ≡ ok evaluations
    → get_field after "risk_decision" ≡ dict risk
    → get_field after "proposed_actions" ≡ get_field state "proposed_actions"
    → effect_of render e contexts after u ≡ ok (aggregate_effect evaluations)
unfolding evaluations_of effect_of
effect_of-evaluations render e contexts state after risk context t u evaluations is_context
      evaluated stored kept =
    let (items, listed, h₁) =
      >>=-eq-ok (or_raise (as_list (get_field state "proposed_actions")) bad_action_list) _
        evaluated in
    let (views, viewed, h₂) = >>=-eq-ok (views_of render items) _ h₁ in
    let level = level_text (get_field risk "risk_level") in
    let (later, evaluated_later, same) =
      evaluate_actions-effect e.decision_hash e.registry context views level t u evaluations
        (lift_policy-ok _ evaluations h₂) in
    let listed_after = ap (λ v. or_raise (as_list v) bad_action_list) kept ∙ listed in
    rw (is_context, risk_of stored, listed_after, viewed, evaluated_later, same, effect_of) refl

pub Denied-blocked :
    (render : Value → String) (engine : Option PolicyEngine) (contexts : Contexts)
    (state after risk : Fields) (t u : ℕ)
    → Denied render engine contexts state (get_field risk "risk_level") t
    → get_field after "risk_decision" ≡ dict risk
    → get_field after "proposed_actions" ≡ get_field state "proposed_actions"
    → policy_admits render engine contexts after u ≡ false
Denied-blocked render engine contexts state after risk t u
      (e, context, evaluations, present, is_context, evaluated, denied) stored kept =
    let effect =
      effect_of-evaluations render e contexts state after risk context t u evaluations is_context
        evaluated stored kept in
    rw (present, effect, denied) refl
