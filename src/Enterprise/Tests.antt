-- ===== src/Enterprise/Tests.antt =====
-- The theorems of the approval and the execution at concrete plans.
use networkops_ai_agent.Audit.Store.{NewEvent, event_type_eq}
use networkops_ai_agent.Auth.Models.{engineer, admin, role_eq, permission_eq}
use networkops_ai_agent.Auth.Rbac.{UserContext}
use networkops_ai_agent.Base.{
  String, false, true, some, ◌≡◌, ok, refl, none, is_blank, if◌then◌else◌, ◌==◌, ◌&&◌, ltb, ◌+◌,
  ◌*◌, err, contains, All, ◌∷◌, [], length, Result, List, map, nat_eq, string_eq,
}
use networkops_ai_agent.Enterprise.Actions.{validate_actions}
use networkops_ai_agent.Enterprise.Actions.Checked.{AreActions, validate_actions-AreActions}
use networkops_ai_agent.Enterprise.Approval.{
  risk_decision, evaluate_risk, approval_result, validate_approval, expired,
}
use networkops_ai_agent.Enterprise.Approval.Once.{Accepts, validate_approval-Accepts}
use networkops_ai_agent.Enterprise.Approval.Outcomes.{Judges, evaluate_risk-Judges}
use networkops_ai_agent.Enterprise.Approval.Window.{
  pending_state, Answers, answered, approval_window,
}
use networkops_ai_agent.Enterprise.Execution.{
  Handler, execute_actions, ExecutionResult, completed, succeeded,
}
use networkops_ai_agent.Enterprise.Execution.Gate.{
  Authorized, is_refused, execute_actions-Authorized,
}
use networkops_ai_agent.Enterprise.Execution.Order.{InOrder, execute_actions-InOrder}
use networkops_ai_agent.Enterprise.Nodes.{Step}
use networkops_ai_agent.Enterprise.Nodes.Cleared.{MayRun, run_plan-MayRun}
use networkops_ai_agent.Enterprise.Nodes.Executed.{execute_step}
use networkops_ai_agent.Enterprise.Nodes.Run.{run_plan}
use networkops_ai_agent.Enterprise.Workflow.{PolicyEngine, Contexts, execute_node, WorkflowError}
use networkops_ai_agent.Enterprise.Workflow.Permitted.{
  may_execute, policy_admits, execute_node-Permitted,
}
use networkops_ai_agent.Policy.Engine.{evaluate}
use networkops_ai_agent.Policy.Evaluator.{evaluate_action}
use networkops_ai_agent.Policy.Models.{unknown, require_approval, effect_eq, operation_eq, risk_eq}
use networkops_ai_agent.Values.{
  Value, Items, nil, cons, Fields, field, str, end, dict, bool, list, aware, null, put_field,
  get_field,
}

abbrev render_none : Value → String
render_none v = "None"

abbrev digest_of : Items → String
digest_of nil = "d0"
digest_of (cons v vs) = "d1"

abbrev action_of : String → Fields
action_of tool = field "action_id" (str "a1") (field "tool_name" (str tool) end)

abbrev plan_state : Fields
plan_state =
    field "repair_plan"
      (dict (field "risk_level" (str "high") (field "requires_human_approval" (bool false) end)))
      (field "proposed_actions" (list (cons (dict (action_of "reload")) nil)) end)

abbrev judged : Fields
judged =
    risk_decision digest_of (str "high") true false (cons (dict (action_of "reload")) nil) (aware 5)
      900

evaluate_risk-plan : evaluate_risk digest_of plan_state (some (aware 5)) (aware 0) 900 ≡ ok judged
unfolding evaluate_risk
evaluate_risk-plan = refl

evaluate_risk-plan_example : Judges digest_of plan_state judged 5 900
evaluate_risk-plan_example =
    evaluate_risk-Judges digest_of plan_state (aware 0) 900 5 judged evaluate_risk-plan

abbrev approve_payload : Fields
approve_payload =
    field "decision" (str "approve")
      (field "actor" (str " boss ") (field "plan_digest" (str "d1") end))

abbrev approved : Fields
approved = approval_result render_none (str "approve") " boss " (str "d1") null (aware 6)

validate_approval-plan :
    validate_approval render_none
      (pending_state plan_state judged)
      approve_payload
      (some (aware 6))
      (aware 0)
    ≡ ok approved
unfolding validate_approval risk_decision approval_result put_field
validate_approval-plan = refl

validate_approval-example :
    Accepts (pending_state plan_state judged) approve_payload approved (aware 6)
validate_approval-example =
    validate_approval-Accepts render_none (pending_state plan_state judged) approve_payload
      (aware 6) (aware 0) approved validate_approval-plan

Answers-plan : Answers approve_payload "approve" " boss " "d1" none
unfolding get_field
Answers-plan = record {
  decided = refl;
  named = refl;
  not_blank = unfold is_blank in refl;
  of_plan = refl;
  commented = refl;
}

abbrev approve_text : String
approve_text = "approve"

approval_window-late :
    validate_approval render_none
      (pending_state plan_state judged)
      approve_payload
      (some (aware 900000006))
      (aware 0)
    ≡ (if approve_text == "approve" && ltb (5 + 900 * 1000000) 900000006
        then err expired
        else answered render_none approve_text " boss " "d1" none 900000006)
approval_window-late =
    approval_window digest_of render_none plan_state judged approve_payload
      (cons (dict (action_of "reload")) nil) " boss " "approve" 5 900 900000006 none (aware 0)
      (unfold get_field in refl) (unfold get_field in refl) evaluate_risk-plan
      (unfold contains in refl) Answers-plan

-- A handler that answers with success.
abbrev reload : Handler
reload trace action =
    ok (dict (field "status" (str "succeeded") (field "message" (str "done") end)))

abbrev approved_state : Fields
approved_state = field "approval_result" (dict approved) (pending_state plan_state judged)

execute_actions-approved :
    All
      (Authorized (is_refused approved_state) (some (("reload", reload) ∷ [])))
      (execute_actions render_none approved_state (some (("reload", reload) ∷ [])) []).1
execute_actions-approved =
    execute_actions-Authorized render_none approved_state (some (("reload", reload) ∷ []))

abbrev reloaded : ExecutionResult
reloaded = completed (record { action_id = str "a1"; status = succeeded; message = "done" } ∷ [])

execute_actions-reload :
    execute_actions render_none approved_state (some (("reload", reload) ∷ [])) []
    ≡ (ok reloaded, action_of "reload" ∷ [])
unfolding execute_actions approval_result risk_decision put_field
execute_actions-reload = refl

execute_actions-reload_example : InOrder [] reloaded (action_of "reload" ∷ [])
execute_actions-reload_example =
    execute_actions-InOrder render_none approved_state (some (("reload", reload) ∷ [])) [] reloaded
      (action_of "reload" ∷ []) execute_actions-reload

-- A policy that wants an approval for every tool that it does not know.
abbrev careful_engine : PolicyEngine
careful_engine = record {
  decision_hash = λ context matched decision. context.actor_id;
  registry = record {
    rules =
        record {
          rule_id = "unknown-tools";
          name = "Unknown tools";
          condition = record {
            operation = some (unknown ∷ []);
            risk_level = none;
            permission = none;
            role = none;
            min_devices = none;
            max_devices = none;
          };
          effect = require_approval;
        }
        ∷ [];
    tool_operations = [];
  };
}

abbrev engineer_contexts : Contexts
engineer_contexts = some (
    (
      "execution",
      record { user = record { user_id = "u1"; username = "lead"; roles = engineer ∷ [] } },
    )
    ∷ [])

abbrev targeted_state : Fields
targeted_state =
    put_field approved_state "proposed_actions"
      (list (cons (dict (field "target" (str "r1") (action_of "reload"))) nil))

execute_node-example :
    All
      (λ action.
        (may_execute engineer_contexts (some []) ≡ true)
        × (policy_admits render_none (some careful_engine) engineer_contexts targeted_state 7
            ≡ true)
        × Authorized (is_refused targeted_state) (some (("reload", reload) ∷ [])) action)
      (execute_node render_none
        (some (("reload", reload) ∷ []))
        targeted_state
        (some careful_engine)
        engineer_contexts
        (some [])
        7
        []).0.1
execute_node-example =
    execute_node-Permitted render_none (some (("reload", reload) ∷ [])) targeted_state
      (some careful_engine) engineer_contexts (some []) 7

execute_node-calls :
    length
      (execute_node render_none
        (some (("reload", reload) ∷ []))
        targeted_state
        (some careful_engine)
        engineer_contexts
        (some [])
        7
        []).0.1
    ≡ 1
unfolding execute_node put_field risk_decision evaluate_action evaluate approval_result
execute_node-calls = refl

-- The contexts of the call that decides.
abbrev chief_contexts : Contexts
chief_contexts =
    let chief : UserContext = record {
      user = record { user_id = "u2"; username = "chief"; roles = admin ∷ [] };
    } in
    some (("approval", chief) ∷ ("execution", chief) ∷ [])

-- The contexts of the call that creates the incident.
abbrev caller_contexts : Contexts
caller_contexts =
    let caller : UserContext = record {
      user = record { user_id = "u3"; username = "desk"; roles = engineer ∷ [] };
    } in
    some (("repair_plan", caller) ∷ ("execution", caller) ∷ [])

abbrev reload_action : Fields
reload_action = field "target" (str "r1") (action_of "reload")

abbrev proposed_state : Fields
proposed_state =
    field "incident_id" (str "i1")
      (put_field plan_state "proposed_actions" (list (cons (dict reload_action) nil)))

-- A plan of a high level that is approved in time is carried out by an engineer who tries again.
run_plan-reload :
    (run_plan digest_of render_none
      (some careful_engine)
      caller_contexts
      chief_contexts
      engineer_contexts
      (some [])
      (dict approve_payload)
      (aware 6)
      (some (("reload", reload) ∷ []))
      proposed_state
      (aware 5)
      5
      900
      7).1
    ≡ reload_action ∷ []
unfolding run_plan evaluate_action evaluate
run_plan-reload = refl

run_plan-example :
    All
      (λ action.
        MayRun digest_of render_none
          (some careful_engine)
          caller_contexts
          chief_contexts
          engineer_contexts
          (some [])
          proposed_state
          5
          5
          900
          (dict approve_payload)
          (aware 6))
      (run_plan digest_of render_none
        (some careful_engine)
        caller_contexts
        chief_contexts
        engineer_contexts
        (some [])
        (dict approve_payload)
        (aware 6)
        (some (("reload", reload) ∷ []))
        proposed_state
        (aware 5)
        5
        900
        7).1
run_plan-example =
    run_plan-MayRun digest_of render_none (some careful_engine) caller_contexts chief_contexts
      engineer_contexts (some []) proposed_state 5 5 900 (dict approve_payload) (aware 6)
      (some (("reload", reload) ∷ [])) 7

abbrev full_action : Fields
full_action = field "rollback_instructions" (str "boot the old image") (
    field "arguments" (dict end)
      (field "verification_steps" (list (cons (str "ping r1") nil)) reload_action))

validate_actions-full : validate_actions (list (cons (dict full_action) nil)) ≡ ok tt
unfolding validate_actions
validate_actions-full = refl

validate_actions-example :
    (items : Items) × (◌≡◌ {A = Value} (list (cons (dict full_action) nil)) (list items))
    × AreActions [] items
validate_actions-example =
    validate_actions-AreActions (list (cons (dict full_action) nil)) validate_actions-full

-- An execution that succeeds leaves its status in the state, and an event of the policy and one of
-- the call of the handler.
abbrev step_texts : Result WorkflowError Step → Value × List String
step_texts (ok (state, events)) =
    (get_field state "enterprise_status", map (λ (event : NewEvent). event.outcome) events)
step_texts (err e) = (null, [])

execute_step-reload :
    step_texts
      (execute_step render_none
        (some (("reload", reload) ∷ []))
        targeted_state
        (some careful_engine)
        engineer_contexts
        (some [])
        7).0
    ≡ (str "executed", "evaluated" ∷ "approval_required" ∷ "succeeded" ∷ [])
unfolding execute_step put_field risk_decision evaluate_action evaluate approval_result get_field
execute_step-reload = refl
