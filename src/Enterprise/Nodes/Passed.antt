-- ===== src/Enterprise/Nodes/Passed.antt =====
-- What the nodes RiskCheck and Approval passed when they return.
use networkops_ai_agent.Audit.Store.{NewEvent, event_type_eq}
use networkops_ai_agent.Auth.Models.{approve_repair, role_eq, permission_eq}
use networkops_ai_agent.Base.{
  Result, ◌≡◌, ok, ap, ok_injective, err, Bool, ◌||◌, false, arith, String, ℕ, sym, ◌∙◌, Option,
  ◌⊎◌, List, >>=-eq-ok, some, if◌then◌else◌, none, inl, refl, inr, true, Bool-cases, nat_eq,
  string_eq,
}
use networkops_ai_agent.Embedded.Models.{state_eq, category_eq}
use networkops_ai_agent.Enterprise.Approval.{Error, evaluate_risk, as_dict, validate_approval}
use networkops_ai_agent.Enterprise.Approval.Outcomes.{Judges, evaluate_risk-Judges}
use networkops_ai_agent.Enterprise.Nodes.{
  lift_judgement, requires_approval, as_truth, risk_check, judged_by_policy, Step, approval_node,
  with_result, decide_approval, after_approval, goes_to_execute, approves,
}
use networkops_ai_agent.Enterprise.Nodes.Judged.{
  Harmless, Revises, Denied, judged_by_policy-Revises,
}
use networkops_ai_agent.Enterprise.Workflow.{
  PolicyEngine, Contexts, AuditLog, authorize, WorkflowError,
}
use networkops_ai_agent.Governance.Authorization.{validated}
use networkops_ai_agent.Values.{
  Items, Fields, bool, Value, get_field, dict, put_field, get_field-put_field, aware, str, null,
  number, datetime, list, Datetime, value_eq,
}

lift_judgement-ok {ℓ} :
    {A : Type ℓ} (step : Result Error A) (a : A) → lift_judgement step ≡ ok a → step ≡ ok a
lift_judgement-ok (ok b) a h = ap ok (ok_injective h)
lift_judgement-ok (err e) a h = cc

both_false : (a b : Bool) → (a || b) ≡ false → (a ≡ false) × (b ≡ false)
both_false a b h = ground arith

-- A plan whose judgement asks for no approval is harmless.
pub unasked-Harmless :
    (plan_digest : Items → String) (state judged : Fields) (requested ttl : ℕ)
    → Judges plan_digest state judged requested ttl
    → requires_approval judged ≡ false
    → Harmless state
unasked-Harmless plan_digest state judged requested ttl j unasked =
    let (low, unforced) = both_false _ _ (sym (ap as_truth j.required) ∙ unasked) in
    (j.plan, j.level, j.planned, j.level_of_plan, low, j.forced_of_plan ∙ ap bool unforced)

-- The state after the risk decision.
pub record RiskChecked (plan_digest : Items → String) (render : Value → String)
    (engine : Option PolicyEngine) (contexts : Contexts) (state after : Fields)
    (requested timestamp ttl : ℕ) : Type 0 where
  pub judged : Fields
  pub risk : Fields
  pub judges : Judges plan_digest state judged requested ttl
  pub revises : Revises judged risk
  pub unneeded :
      requires_approval risk ≡ false
      → Denied render engine contexts state (get_field judged "risk_level") timestamp
        ⊎ (requires_approval judged ≡ false)
  pub stored : get_field after "risk_decision" ≡ dict risk
  pub kept : get_field after "proposed_actions" ≡ get_field state "proposed_actions"

stored_field :
    (state : Fields) (v w : Value)
    → (get_field
          (put_field (put_field state "risk_decision" v) "enterprise_status" w)
          "risk_decision"
        ≡ v)
      × (get_field
            (put_field (put_field state "risk_decision" v) "enterprise_status" w)
            "proposed_actions"
          ≡ get_field state "proposed_actions")
stored_field state v w = (
  get_field-put_field (put_field state "risk_decision" v) "enterprise_status" w "risk_decision"
      ∙ get_field-put_field state "risk_decision" v "risk_decision",
  get_field-put_field (put_field state "risk_decision" v) "enterprise_status" w "proposed_actions"
      ∙ get_field-put_field state "risk_decision" v "proposed_actions",
)

pub risk_check-RiskChecked :
    (plan_digest : Items → String) (render : Value → String) (engine : Option PolicyEngine)
    (contexts : Contexts) (state after : Fields) (requested timestamp ttl : ℕ)
    (events : List NewEvent)
    → risk_check plan_digest render engine contexts state (aware requested) timestamp ttl
      ≡ ok (after, events)
    → RiskChecked plan_digest render engine contexts state after requested timestamp ttl
unfolding risk_check
risk_check-RiskChecked plan_digest render engine contexts state after requested timestamp ttl events
      h =
    let (judged, is_judged, h₁) =
      >>=-eq-ok
        (lift_judgement
          (evaluate_risk plan_digest state (some (aware requested)) (aware requested) ttl))
        _ h in
    let ((risk, policy), by_policy, h₂) =
      >>=-eq-ok (judged_by_policy plan_digest render engine contexts state judged timestamp) _ h₁ in
    let (revises, unneeded) =
      judged_by_policy-Revises plan_digest render engine contexts state judged risk timestamp policy
        by_policy in
    let status = str (if requires_approval risk then "pending_approval" else "running") in
    let same : put_field (put_field state "risk_decision" (dict risk)) "enterprise_status" status
        ≡ after =
      cc h₂ in
    let (stored, kept) = stored_field state (dict risk) status in
    record {
      judged = judged;
      risk = risk;
      judges =
          evaluate_risk-Judges plan_digest state (aware requested) ttl requested judged
            (lift_judgement-ok _ judged is_judged);
      revises = revises;
      unneeded = unneeded;
      stored = ap (λ s. get_field s "risk_decision") (sym same) ∙ stored;
      kept = ap (λ s. get_field s "proposed_actions") (sym same) ∙ kept;
    }

as_dict-cases : (v : Value) → (as_dict v ≡ none) ⊎ ((fields : Fields) × (v ≡ dict fields))
as_dict-cases null = inl refl
as_dict-cases (bool b) = inl refl
as_dict-cases (str s) = inl refl
as_dict-cases (number n) = inl refl
as_dict-cases (datetime t) = inl refl
as_dict-cases (list items) = inl refl
as_dict-cases (dict fields) = inr (fields, refl)

module _ (render : Value → String) (contexts : Contexts) (log : AuditLog) (mid : Fields)
    (answered : Datetime) where
  pub approval_node-ok :
      (risk : Fields) (answer : Value) (step : Step)
      → get_field mid "risk_decision" ≡ dict risk
      → (approval_node render contexts log mid answer answered).0 ≡ ok step
      → (payload : Fields) × (answer ≡ dict payload)
        × ((authorize contexts "approval" approve_repair "authorize_approval" log).0 ≡ ok tt)
        × (result : Fields) × (validate_approval render mid payload (some answered) answered
            ≡ ok result)
        × (step.0 ≡ with_result mid result)
  unfolding approval_node decide_approval
  approval_node-ok risk answer step stored h = elim (as_dict-cases answer) [
    | inl other ↦ cc (rw (stored, other, approval_node) at h)
    | inr (payload, is_dict) ↦
        let h₁ : decide_approval render
              (authorize contexts "approval" approve_repair "authorize_approval" log).0 mid payload
              answered
            ≡ ok step =
          rw (stored, is_dict, approval_node) at h in
        let (_, is_passed, h₂) =
          >>=-eq-ok (authorize contexts "approval" approve_repair "authorize_approval" log).0 _
            h₁ in
        let (result, validated, h₃) =
          >>=-eq-ok (lift_judgement (validate_approval render mid payload (some answered) answered))
            _ h₂ in
        (payload, is_dict, is_passed, result, lift_judgement-ok _ result validated, cc h₃)
  ]

pub after_approval-some :
    (step : Result WorkflowError Step) (after : Fields)
    → after_approval step ≡ ok (some after)
    → (events : List NewEvent) × (step ≡ ok (after, events)) × (goes_to_execute after ≡ true)
unfolding after_approval
after_approval-some (err e) after h = cc
after_approval-some (ok (state, events)) after h = elim (Bool-cases (goes_to_execute state)) [
  | inl goes ↦
      let h' : ◌≡◌ {A = Result WorkflowError (Option Fields)} (ok (some state)) (ok (some after)) =
        rw goes at h in
      let same : state ≡ after = cc h' in
      (events, ap (λ s. ok (s, events)) same, ap goes_to_execute (sym same) ∙ goes)
  | inr ends ↦ cc (rw ends at h)
]

pub with_result-fields :
    (state result : Fields)
    → (goes_to_execute (with_result state result)
        ≡ value_eq (get_field result "decision") (str "approve"))
      × (get_field (with_result state result) "proposed_actions"
          ≡ get_field state "proposed_actions")
unfolding with_result goes_to_execute
with_result-fields state result = (
  ap approves (
      get_field-put_field (put_field state "approval_result" (dict result)) "enterprise_status" _
        "approval_result"
      ∙ get_field-put_field state "approval_result" (dict result) "approval_result"),
  get_field-put_field (put_field state "approval_result" (dict result)) "enterprise_status" _
        "proposed_actions"
      ∙ get_field-put_field state "approval_result" (dict result) "proposed_actions",
)
