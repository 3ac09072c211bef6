-- ===== src/Policy/Evaluator/Instants.antt =====
-- The effect of the actions of a plan at two instants.
use networkops_ai_agent.Auth.Rbac.{UserContext}
use networkops_ai_agent.Base.{
  Result, ◌>>=◌, ok, ℕ, ◌≡◌, refl, List, String, >>=-assoc, map, ◌∷◌, err, [], max_by, ◌∙◌, ap, sym,
  ok_injective, nat_eq, string_eq,
}
use networkops_ai_agent.Policy.Engine.{matches, DecisionHash, evaluate, precedence}
use networkops_ai_agent.Policy.Evaluator.{
  PolicyEvaluation, ActionView, evaluate_action, aggregate_effect, evaluate_each, evaluate_actions,
}
use networkops_ai_agent.Policy.Models.{
  PolicyEffect, PolicyCondition, PolicyContext, PolicyRiskLevel, deny, effect_eq, operation_eq,
  risk_eq,
}
use networkops_ai_agent.Policy.Registry.{PolicyRegistry}

abbrev decided {ℓ} : {E : Type ℓ} → Result E PolicyEvaluation → Result E PolicyEffect
decided step = step >>= λ (e : PolicyEvaluation). ok e.decision.decision

matches_instant :
    (condition : PolicyCondition) (context : PolicyContext) (t : ℕ)
    → matches condition (record context { timestamp = t }) ≡ matches condition context
unfolding matches
matches_instant condition context t = refl

evaluate_instant :
    (decision_hash : DecisionHash) (registry : PolicyRegistry) (context : PolicyContext) (t : ℕ)
    → (evaluate decision_hash registry (record context { timestamp = t })).decision
      ≡ (evaluate decision_hash registry context).decision
unfolding evaluate
evaluate_instant decision_hash registry context t = refl

module _ (decision_hash : DecisionHash) (registry : PolicyRegistry) (user : UserContext)
    (targets : List String) (level : PolicyRiskLevel) (t u : ℕ) where
  evaluate_action_instant :
      (action : ActionView)
      → decided (evaluate_action decision_hash registry user targets level t action)
        ≡ decided (evaluate_action decision_hash registry user targets level u action)
  unfolding evaluate_action evaluate
  evaluate_action_instant action = simp >>=-assoc

abbrev decisions : List PolicyEvaluation → List PolicyEffect
decisions evaluations = map (λ x. x.decision.decision) evaluations

abbrev decided_all {ℓ} :
    {E : Type ℓ} → Result E (List PolicyEvaluation) → Result E (List PolicyEffect)
decided_all step = step >>= λ evaluations. ok (decisions evaluations)

both {ℓ} :
    {E : Type ℓ} (first : Result E PolicyEvaluation) (rest : Result E (List PolicyEvaluation))
    → decided_all (first >>= λ e. rest >>= λ es. ok (e ∷ es))
      ≡ (decided first >>= λ d. decided_all rest >>= λ ds. ok (d ∷ ds))
both (err e) rest = refl
both (ok e) (err x) = refl
both (ok e) (ok es) = refl

strictest : List PolicyEffect → PolicyEffect
strictest [] = deny
strictest (d ∷ ds) = max_by precedence d ds

aggregate_effect-decisions :
    (evaluations : List PolicyEvaluation)
    → aggregate_effect evaluations ≡ strictest (decisions evaluations)
unfolding aggregate_effect strictest
aggregate_effect-decisions [] = refl
aggregate_effect-decisions (e ∷ evaluations) = refl

module _ (decision_hash : DecisionHash) (registry : PolicyRegistry) (user : UserContext)
    (t u : ℕ) where
  evaluate_each_instant :
      (targets : List String) (level : PolicyRiskLevel) (actions : List ActionView)
      → decided_all (evaluate_each decision_hash registry user targets level t actions)
        ≡ decided_all (evaluate_each decision_hash registry user targets level u actions)
  unfolding evaluate_each
  evaluate_each_instant targets level [] = refl
  evaluate_each_instant targets level (action ∷ actions) =
      both (evaluate_action decision_hash registry user targets level t action)
        (evaluate_each decision_hash registry user targets level t actions)
      ∙ (ap
            (λ step. step >>= λ d.
              decided_all (evaluate_each decision_hash registry user targets level t actions)
              >>= λ ds. ok (d ∷ ds))
            (evaluate_action_instant decision_hash registry user targets level t u action)
          ∙ (ap
                (λ step.
                  decided (evaluate_action decision_hash registry user targets level u action)
                  >>= λ d. step >>= λ ds. ok (d ∷ ds))
                (evaluate_each_instant targets level actions)
              ∙ sym (
                  both (evaluate_action decision_hash registry user targets level u action)
                    (evaluate_each decision_hash registry user targets level u actions))))

  evaluate_actions_instant :
      (actions : List ActionView) (level : String)
      → decided_all (evaluate_actions decision_hash registry user actions level t)
        ≡ decided_all (evaluate_actions decision_hash registry user actions level u)
  unfolding evaluate_actions
  evaluate_actions_instant actions level = simp (>>=-assoc, evaluate_each_instant)

decided_all-ok {ℓ} :
    {E : Type ℓ} (step : Result E (List PolicyEvaluation)) (ds : List PolicyEffect)
    → decided_all step ≡ ok ds
    → (evaluations : List PolicyEvaluation) × (step ≡ ok evaluations) × (decisions evaluations ≡ ds)
decided_all-ok (ok evaluations) ds h = (evaluations, refl, ok_injective h)
decided_all-ok (err e) ds h = cc

-- What the actions come to at one instant they come to at every other.
pub evaluate_actions-effect :
    (decision_hash : DecisionHash) (registry : PolicyRegistry) (user : UserContext)
    (actions : List ActionView) (level : String) (t u : ℕ) (evaluations : List PolicyEvaluation)
    → evaluate_actions decision_hash registry user actions level t ≡ ok evaluations
    → (later : List PolicyEvaluation) × (evaluate_actions decision_hash registry user actions level
          u
        ≡ ok later)
      × (aggregate_effect later ≡ aggregate_effect evaluations)
evaluate_actions-effect decision_hash registry user actions level t u evaluations h =
    let (later, evaluated, same) =
      decided_all-ok (evaluate_actions decision_hash registry user actions level u)
        (decisions evaluations)
        (evaluate_actions_instant decision_hash registry user u t actions level
          ∙ ap decided_all h) in
    (
      later,
      evaluated,
      aggregate_effect-decisions later
          ∙ (ap strictest same ∙ sym (aggregate_effect-decisions evaluations)),
    )
