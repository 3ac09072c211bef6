-- ===== src/Enterprise/Nodes.antt =====
-- .../enterprise/workflow.py: the nodes RiskCheck and Approval, and the edges after them. A node
-- gives the state after it and the events that it records where there is a log. Instants are
-- arguments, as is the answer with which a person resumes the run.
pub mod Judged
pub mod Passed
pub mod Again
pub mod Run
pub mod Cleared
pub mod Executed
use networkops_ai_agent.Audit.Store.{NewEvent, decision, approval, event_type_eq}
use networkops_ai_agent.Auth.Models.{approve_repair, role_eq, permission_eq}
use networkops_ai_agent.Auth.Rbac.{UserContext}
use networkops_ai_agent.Base.{
  Result, ok, err, Bool, String, false, true, ℕ, List, or_raise, some, [], ◌∷◌, ◌<>◌, ◌++◌,
  if◌then◌else◌, none, Option, ◌>>=◌, ◌>>◌, nat_eq, string_eq,
}
use networkops_ai_agent.Enterprise.Actions.{text_of}
use networkops_ai_agent.Enterprise.Approval.{
  Error, as_list, evaluate_risk, python_str, validate_approval, as_dict,
}
use networkops_ai_agent.Enterprise.Workflow.{
  WorkflowError, judgement_error, PolicyEngine, views_of, bad_action_list, lift_policy, level_text,
  Contexts, policy_execution_context, AuditLog, authorize, risk_required, answer_not_dict,
}
use networkops_ai_agent.Policy.Evaluator.{PolicyEvaluation, evaluate_actions, aggregate_effect}
use networkops_ai_agent.Policy.Models.{
  PolicyEffect, deny, require_approval, allow, PolicyOperation, view_device_status,
  create_repair_plan, restart_device, batch_configuration_change, unknown, PolicyRiskLevel, low,
  medium, high, critical, effect_value, effect_eq, operation_eq, risk_eq,
}
use networkops_ai_agent.Values.{
  Items, Value, nil, cons, list, Fields, get_field, put_field, bool, str, field, end, Datetime,
  dict, value_eq,
}

abbrev pub lift_judgement {ℓ} : {A : Type ℓ} → Result Error A → Result WorkflowError A
lift_judgement (ok a) = ok a
lift_judgement (err e) = err (judgement_error e)

abbrev pub append_item : Items → Value → Items
append_item nil v = cons v nil
append_item (cons w items) v = cons w (append_item items v)

abbrev pub items_or_none : Value → Items
items_or_none (list items) = items
items_or_none _ = nil

-- The decision with another answer to whether approval is required, and one reason more.
unfoldable pub revised : Fields → Bool → String → Fields
unfolding get_field put_field
revised risk needed reason =
    put_field (put_field risk "approval_required" (bool needed)) "reasons"
      (list (append_item (items_or_none (get_field risk "reasons")) (str reason)))

unfoldable pub revised_by : PolicyEffect → Fields → Fields
unfolding revised
revised_by deny risk = revised risk false "policy denied execution"
revised_by require_approval risk = revised risk true "policy requires approval"
revised_by allow risk = risk

-- The evaluations of the proposed actions for a risk level.
unfoldable pub evaluations_of :
    (Value → String)
    → PolicyEngine
    → UserContext
    → Fields
    → Value
    → ℕ
    → Result WorkflowError (List PolicyEvaluation)
unfolding views_of evaluate_actions get_field
evaluations_of render engine context state level timestamp = do
  items ← or_raise (as_list (get_field state "proposed_actions")) bad_action_list
  views ← views_of render items
  lift_policy (
      evaluate_actions engine.decision_hash engine.registry context views (level_text level)
        timestamp)

abbrev operation_text : PolicyOperation → String
operation_text view_device_status = "view_device_status"
operation_text create_repair_plan = "create_repair_plan"
operation_text restart_device = "restart_device"
operation_text batch_configuration_change = "batch_configuration_change"
operation_text unknown = "unknown"

abbrev risk_text : PolicyRiskLevel → String
risk_text low = "low"
risk_text medium = "medium"
risk_text high = "high"
risk_text critical = "critical"

abbrev policy_event : String → UserContext → PolicyEvaluation → String → String → String → NewEvent
policy_event incident context evaluation action outcome key = record {
  incident_id = incident;
  event_type = decision;
  actor = context.user.user_id;
  action = action;
  outcome = outcome;
  details = field "policy_id" (str evaluation.decision.decision_id) (
      field "decision" (str (effect_value evaluation.decision.decision)) (
        field "operation" (str (operation_text evaluation.context.operation))
          (field "risk_level" (str (risk_text evaluation.context.risk_level)) end)));
  idempotency_key = some key;
}

-- `_audit_policy_evaluations`
unfoldable pub policy_events : String → String → UserContext → List PolicyEvaluation → List NewEvent
unfolding effect_value
policy_events incident digest context [] = []
policy_events incident digest context (evaluation ∷ evaluations) =
    let key = "policy:" <> (digest <> (":" <> evaluation.action_id)) in
    let evaluated =
      policy_event incident context evaluation "policy_evaluation" "evaluated"
        (key <> ":evaluation") in
    let denied =
      policy_event incident context evaluation "policy_denied" "denied" (key <> ":denied") in
    let asked =
      policy_event incident context evaluation "policy_approval_required" "approval_required"
        (key <> ":approval") in
    let by_effect : List NewEvent = elim evaluation.decision.decision [
      | deny ↦ denied ∷ []
      | require_approval ↦ asked ∷ []
      | allow ↦ []
    ] in
    (evaluated ∷ by_effect) ++ policy_events incident digest context evaluations

abbrev pub as_truth : Value → Bool
as_truth (bool b) = b
as_truth _ = false

abbrev pub requires_approval : Fields → Bool
requires_approval risk = as_truth (get_field risk "approval_required")

unfoldable pub risk_event : String → Fields → NewEvent
unfolding get_field
risk_event incident risk = record {
  incident_id = incident;
  event_type = decision;
  actor = "RiskCheck";
  action = "evaluate_risk";
  outcome = if requires_approval risk then "approval_required" else "proceed";
  details =
      field "risk_level" (get_field risk "risk_level")
        (field "plan_digest" (get_field risk "plan_digest") end);
  idempotency_key = none;
}

-- A state with the events that were recorded on the way to it.
abbrev pub Step : Type 0
Step = Fields × List NewEvent

abbrev pub incident_of : Fields → String
incident_of state = text_of (get_field state "incident_id")

module _ (plan_digest : Items → String) (render : Value → String) (engine : Option PolicyEngine)
    (contexts : Contexts) where
  -- What the policy makes of a risk decision.
  unfoldable pub judged_by_policy : Fields → Fields → ℕ → Result WorkflowError Step
  unfolding policy_execution_context evaluations_of policy_events revised_by aggregate_effect
  judged_by_policy state risk timestamp = elim engine [
    | none ↦ ok (risk, [])
    | some e ↦ (do
      context ← policy_execution_context contexts
      evaluations ← evaluations_of render e context state (get_field risk "risk_level") timestamp
      ok (
        revised_by (aggregate_effect evaluations) risk,
        policy_events (incident_of state) (text_of (get_field risk "plan_digest")) context
            evaluations,
      ))
  ]

  -- `_risk_check`, which reads the clock twice.
  unfoldable pub risk_check : Fields → Datetime → ℕ → ℕ → Result WorkflowError Step
  unfolding evaluate_risk judged_by_policy risk_event put_field get_field
  risk_check state now timestamp ttl = do
    judged ← lift_judgement (evaluate_risk plan_digest state (some now) now ttl)
    (risk, events) ← judged_by_policy state judged timestamp
    let status = if requires_approval risk then "pending_approval" else "running"
    ok (
      put_field (put_field state "risk_decision" (dict risk)) "enterprise_status" (str status),
      events ++ risk_event (incident_of state) risk ∷ [],
    )

-- The state after an answer that was validated.
unfoldable pub with_result : Fields → Fields → Fields
unfolding get_field put_field value_eq
with_result state result =
    let status =
      if value_eq (get_field result "decision") (str "approve") then "approved" else "rejected" in
    put_field (put_field state "approval_result" (dict result)) "enterprise_status" (str status)

unfoldable pub request_event : (Value → String) → String → Fields → NewEvent
unfolding get_field
request_event render incident risk = record {
  incident_id = incident;
  event_type = approval;
  actor = "system";
  action = "request";
  outcome = "pending";
  details = field "plan_digest" (get_field risk "plan_digest") end;
  idempotency_key = some ("approval-request:" <> python_str render (get_field risk "plan_digest"));
}

unfoldable pub decide_event : (Value → String) → String → Fields → NewEvent
unfolding get_field
decide_event render incident result = record {
  incident_id = incident;
  event_type = approval;
  actor = text_of (get_field result "actor");
  action = "decide";
  outcome = text_of (get_field result "decision");
  details =
      field "plan_digest" (get_field result "plan_digest")
        (field "comment" (get_field result "comment") end);
  idempotency_key = some ("approval-result:" <> python_str render (get_field result "plan_digest"));
}

module _ (render : Value → String) where
  -- The end of `_approval`, once the user is authorized or not.
  unfoldable pub decide_approval :
      Result WorkflowError (Unit {0}) → Fields → Fields → Datetime → Result WorkflowError Step
  unfolding validate_approval with_result decide_event get_field
  decide_approval authorized state payload now = do
    authorized
    result ← lift_judgement (validate_approval render state payload (some now) now)
    ok (with_result state result, decide_event render (incident_of state) result ∷ [])

  -- `_approval`, with the log of authorizations and the request that was recorded before.
  unfoldable pub approval_node :
      Contexts
      → AuditLog
      → Fields
      → Value
      → Datetime
      → Result WorkflowError Step × AuditLog × List NewEvent
  unfolding authorize decide_approval request_event get_field
  approval_node contexts log state answer now = elim (as_dict (get_field state "risk_decision")) [
    | none ↦ (err risk_required, log, [])
    | some risk ↦
        let requested = request_event render (incident_of state) risk ∷ [] in
        elim (as_dict answer) [
          | none ↦ (err answer_not_dict, log, requested)
          | some payload ↦
              let (authorized, log') =
                authorize contexts "approval" approve_repair "authorize_approval" log in
              (decide_approval authorized state payload now, log', requested)
        ]
  ]

abbrev pub asks : Value → Bool
asks (dict risk) = requires_approval risk
asks _ = false

-- The edge after RiskCheck: whether the run goes to Approval.
unfoldable pub goes_to_approval : Fields → Bool
unfolding get_field
goes_to_approval state = asks (get_field state "risk_decision")

abbrev pub approves : Value → Bool
approves (dict result) = value_eq (get_field result "decision") (str "approve")
approves _ = false

-- The edge after Approval: whether the run goes to Execute.
unfoldable pub goes_to_execute : Fields → Bool
unfolding get_field value_eq
goes_to_execute state = approves (get_field state "approval_result")

-- After Approval: the state at Execute, or none where the run goes to its report instead.
unfoldable pub after_approval : Result WorkflowError Step → Result WorkflowError (Option Fields)
unfolding goes_to_execute
after_approval (err e) = err e
after_approval (ok (state, events)) = ok (if goes_to_execute state then some state else none)
