-- ===== src/Enterprise/Nodes/Judged.antt =====
-- What the node RiskCheck leaves in the state.
use networkops_ai_agent.Audit.Store.{NewEvent, event_type_eq}
use networkops_ai_agent.Auth.Rbac.{UserContext}
use networkops_ai_agent.Base.{
  String, ◌≡◌, contains, false, Option, ℕ, List, some, ok, ◌==◌, Bool, refl, ap, ◌∙◌, true, ◌⊎◌,
  inl, sym, inr, none, >>=-eq-ok, subst, nat_eq, string_eq,
}
use networkops_ai_agent.Enterprise.Approval.{high_levels}
use networkops_ai_agent.Enterprise.Nodes.{
  evaluations_of, revised, requires_approval, as_truth, revised_by, judged_by_policy,
}
use networkops_ai_agent.Enterprise.Workflow.{PolicyEngine, Contexts, policy_execution_context}
use networkops_ai_agent.Policy.Evaluator.{PolicyEvaluation, aggregate_effect}
use networkops_ai_agent.Policy.Models.{
  deny, PolicyEffect, require_approval, allow, effect_eq, operation_eq, risk_eq,
}
use networkops_ai_agent.Values.{
  Fields, get_field, dict, str, bool, Value, put_field, get_field-put_field, Items,
}

-- The plan is neither of a high level nor demands a person.
abbrev pub Harmless : Fields → Type 0
Harmless state =
    (plan : Fields) × (level : String) × (get_field state "repair_plan" ≡ dict plan)
    × (get_field plan "risk_level" ≡ str level)
    × (contains high_levels level ≡ false)
    × (get_field plan "requires_human_approval" ≡ bool false)

-- The policy denies the proposed actions.
abbrev pub Denied : (Value → String) → Option PolicyEngine → Contexts → Fields → Value → ℕ → Type 0
Denied render engine contexts state level timestamp =
    (e : PolicyEngine) × (context : UserContext) × (evaluations : List PolicyEvaluation) × (engine
      ≡ some e)
    × (policy_execution_context contexts ≡ ok context)
    × (evaluations_of render e context state level timestamp ≡ ok evaluations)
    × (aggregate_effect evaluations ≡ deny)

kept_by_put :
    (fields : Fields) (name : String)
    → ("approval_required" == name) ≡ false
    → ("reasons" == name) ≡ false
    → (b : Bool) (w : Value)
    → get_field (put_field (put_field fields "approval_required" (bool b)) "reasons" w) name
      ≡ get_field fields name
kept_by_put fields name other different b w =
    rw
      (
        get_field-put_field (put_field fields "approval_required" (bool b)) "reasons" w name,
        different,
        get_field-put_field fields "approval_required" (bool b) name,
        other,
      )
      refl

revised-kept :
    (risk : Fields) (needed : Bool) (reason name : String)
    → ("approval_required" == name) ≡ false
    → ("reasons" == name) ≡ false
    → get_field (revised risk needed reason) name ≡ get_field risk name
unfolding revised
revised-kept risk needed reason name other different =
    kept_by_put risk name other different needed _

revised-required :
    (risk : Fields) (needed : Bool) (reason : String)
    → requires_approval (revised risk needed reason) ≡ needed
unfolding revised
revised-required risk needed reason = ap as_truth (
    get_field-put_field (put_field risk "approval_required" (bool needed)) "reasons" _
      "approval_required"
    ∙ get_field-put_field risk "approval_required" (bool needed) "approval_required")

-- A decision that the policy revised keeps the digest and the expiry of the first.
pub record Revises (before after : Fields) : Type 0 where
  pub same_digest : get_field after "plan_digest" ≡ get_field before "plan_digest"
  pub same_level : get_field after "risk_level" ≡ get_field before "risk_level"
  pub same_expiry : get_field after "expires_at" ≡ get_field before "expires_at"

revised-Revises :
    (risk : Fields) (needed : Bool) (reason : String) → Revises risk (revised risk needed reason)
revised-Revises risk needed reason = record {
  same_digest = revised-kept risk needed reason "plan_digest" refl refl;
  same_level = revised-kept risk needed reason "risk_level" refl refl;
  same_expiry = revised-kept risk needed reason "expires_at" refl refl;
}

revised_by-Revises : (effect : PolicyEffect) (risk : Fields) → Revises risk (revised_by effect risk)
unfolding revised_by
revised_by-Revises deny risk = revised-Revises risk false "policy denied execution"
revised_by-Revises require_approval risk = revised-Revises risk true "policy requires approval"
revised_by-Revises allow risk = record { same_digest = refl; same_level = refl; same_expiry = refl }

-- Only a denial takes the request for an approval back.
revised_by-required :
    (effect : PolicyEffect) (risk : Fields)
    → requires_approval (revised_by effect risk) ≡ false
    → (effect ≡ deny) ⊎ (requires_approval risk ≡ false)
unfolding revised_by
revised_by-required deny risk h = inl refl
revised_by-required require_approval risk h =
    cc (sym (revised-required risk true "policy requires approval") ∙ h)
revised_by-required allow risk h = inr h

pub judged_by_policy-Revises :
    (plan_digest : Items → String) (render : Value → String) (engine : Option PolicyEngine)
    (contexts : Contexts) (state judged risk : Fields) (timestamp : ℕ) (events : List NewEvent)
    → judged_by_policy plan_digest render engine contexts state judged timestamp ≡ ok (risk, events)
    → Revises judged risk
      × (requires_approval risk ≡ false
          → Denied render engine contexts state (get_field judged "risk_level") timestamp
            ⊎ (requires_approval judged ≡ false))
unfolding judged_by_policy
judged_by_policy-Revises plan_digest render none contexts state judged risk timestamp events h =
    let same : judged ≡ risk = cc h in
    (
      record {
        same_digest = ap (λ r. get_field r "plan_digest") (sym same);
        same_level = ap (λ r. get_field r "risk_level") (sym same);
        same_expiry = ap (λ r. get_field r "expires_at") (sym same);
      },
      λ unneeded. inr (ap (λ (r : Fields). requires_approval r) same ∙ unneeded),
    )
judged_by_policy-Revises plan_digest render (some e) contexts state judged risk timestamp events h =
    let (context, is_context, h₁) = >>=-eq-ok (policy_execution_context contexts) _ h in
    let level = get_field judged "risk_level" in
    let (evaluations, evaluated, h₂) =
      >>=-eq-ok (evaluations_of render e context state level timestamp) _ h₁ in
    let same : revised_by (aggregate_effect evaluations) judged ≡ risk = cc h₂ in
    (
      subst (Revises judged) same (revised_by-Revises (aggregate_effect evaluations) judged),
      λ unneeded.
          elim (revised_by-required (aggregate_effect evaluations) judged
            (ap (λ (r : Fields). requires_approval r) same ∙ unneeded)) [
              | inl denied ↦ inl (e, context, evaluations, refl, is_context, evaluated, denied)
              | inr unasked ↦ inr unasked
            ],
    )
