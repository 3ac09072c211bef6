-- ===== src/Enterprise/Nodes/Executed.antt =====
-- .../enterprise/workflow.py: what the node Execute leaves when it returns: the state after it and
-- the events of the policy and of the actions. `execute_node` is its checks and the calls of
-- handlers.
use networkops_ai_agent.Audit.Store.{NewEvent, tool_call, event_type_eq}
use networkops_ai_agent.Base.{
  String, Option, none, some, code, List, [], ◌∷◌, ◌<>◌, Bool, false, true, Result, ok, raise_if,
  not, ◌&&◌, err, if◌then◌else◌, or_else, ◌==◌, ◌||◌, or_raise, map, ℕ, ◌++◌, ◌>>=◌, ◌>>◌, nat_eq,
  string_eq,
}
use networkops_ai_agent.Enterprise.Actions.{text_of}
use networkops_ai_agent.Enterprise.Approval.{as_list, as_dict}
use networkops_ai_agent.Enterprise.Execution.{
  ActionStatus, succeeded, failed, ExecutionStatus, all_succeeded, some_failed, blocked,
  not_executed, ActionResult, ExecutionResult, Handlers, Trace,
}
use networkops_ai_agent.Enterprise.Nodes.{incident_of, evaluations_of, policy_events, Step}
use networkops_ai_agent.Enterprise.Workflow.{
  WorkflowError, bad_action_list, PolicyEngine, Contexts, policy_execution_context, risk_required,
  AuditLog, execute_node,
}
use networkops_ai_agent.Values.{
  Value, null, str, Items, nil, cons, dict, field, end, Fields, list, get_field, put_field,
  has_field, value_eq,
}

abbrev action_text : ActionStatus → String
action_text succeeded = "succeeded"
action_text failed = "failed"

abbrev execution_text : ExecutionStatus → String
execution_text all_succeeded = "succeeded"
execution_text some_failed = "failed"
execution_text blocked = "blocked"
execution_text not_executed = "not_executed"

abbrev code_value : Option String → Value
code_value none = null
code_value (some code) = str code

abbrev result_items : List ActionResult → Items
result_items [] = nil
result_items (result ∷ results) =
    cons
      (dict (
        field "action_id" result.action_id (
          field "status" (str (action_text result.status))
            (field "message" (str result.message) end))))
      (result_items results)

-- `ExecutionResult` as the dictionary that it is.
abbrev execution_value : ExecutionResult → Fields
execution_value result = field "status" (str (execution_text result.status)) (
    field "actions" (list (result_items result.actions)) (
      field "error_code" (code_value result.error_code) (field "message" (str result.message) end)))

abbrev final_status : ExecutionStatus → String
final_status all_succeeded = "executed"
final_status _ = "failed"

-- The error that the state keeps, or the one of the execution.
abbrev error_after : Fields → ExecutionResult → Value
error_after state result = elim result.error_code [
  | none ↦ get_field state "error"
  | some code ↦ str (code <> (": " <> result.message))
]

-- The update of the state, of `_execute` and of `_policy_blocked` alike.
unfoldable pub executed_state : Fields → ExecutionResult → Fields
unfolding get_field put_field
executed_state state result =
    let stored = put_field state "execution_result" (dict (execution_value result)) in
    let finished = put_field stored "enterprise_status" (str (final_status result.status)) in
    put_field finished "error" (error_after state result)

-- A list and a dictionary have no hash.
abbrev is_key : Value → Bool
is_key (list items) = false
is_key (dict fields) = false
is_key _ = true

-- `{action["action_id"]: action for action in ...}`: the last action under an identifier, and an
-- exception for what has none.
unfoldable pub indexed : Items → Result WorkflowError (List Fields)
unfolding has_field get_field
indexed nil = ok []
indexed (cons (dict action) rest) = do
  raise_if (not (has_field action "action_id" && is_key (get_field action "action_id")))
      bad_action_list
  actions ← indexed rest
  ok (action ∷ actions)
indexed (cons _ rest) = err bad_action_list

unfoldable pub last_action : List Fields → Value → Option Fields
unfolding get_field value_eq
last_action [] id = none
last_action (action ∷ actions) id = elim (last_action actions id) [
  | some later ↦ some later
  | none ↦ if value_eq (get_field action "action_id") id then some action else none
]

abbrev arguments_of : Fields → Value
arguments_of action =
    if has_field action "arguments" then get_field action "arguments" else dict end

unfoldable pub tool_event : String → List Fields → ActionResult → NewEvent
unfolding get_field has_field last_action
tool_event incident actions result =
    let action = or_else (last_action actions result.action_id) end in
    record {
      incident_id = incident;
      event_type = tool_call;
      actor = "Execute";
      action = text_of result.action_id;
      outcome = action_text result.status;
      details = field "tool_name" (get_field action "tool_name") (
          field "target" (get_field action "target")
            (field "arguments" (arguments_of action) (field "message" (str result.message) end)));
      idempotency_key = none;
    }

-- The codes of `_policy_blocked`, which reads no action.
abbrev is_policy_code : Option String → Bool
is_policy_code none = false
is_policy_code (some code) = code == "POLICY_DENIED" || code == "POLICY_APPROVAL_REQUIRED"

unfoldable pub tool_events : Fields → ExecutionResult → Result WorkflowError (List NewEvent)
unfolding indexed tool_event
tool_events state result = if is_policy_code result.error_code then ok [] else (do
  items ← or_raise (as_list (get_field state "proposed_actions")) bad_action_list
  actions ← indexed items
  ok (map (tool_event (incident_of state) actions) result.actions))

-- The events of the evaluations, which are recorded before the policy has its effect.
unfoldable pub evaluation_events :
    (Value → String)
    → Option PolicyEngine
    → Contexts
    → Fields
    → ℕ
    → Result WorkflowError (List NewEvent)
unfolding policy_execution_context evaluations_of policy_events get_field
evaluation_events render none contexts state now = ok []
evaluation_events render (some engine) contexts state now = do
  context ← policy_execution_context contexts
  risk ← or_raise (as_dict (get_field state "risk_decision")) risk_required
  evaluations ← evaluations_of render engine context state (get_field risk "risk_level") now
  ok (
      policy_events (incident_of state) (text_of (get_field risk "plan_digest")) context
        evaluations)

-- The node Execute where it returns, with the calls of handlers and the log of authorizations.
unfoldable pub execute_step :
    (Value → String)
    → Option Handlers
    → Fields
    → Option PolicyEngine
    → Contexts
    → AuditLog
    → ℕ
    → Result WorkflowError Step × Trace × AuditLog
unfolding execute_node evaluation_events tool_events executed_state
execute_step render executor state engine contexts log now =
    let ((outcome, trace), log') = execute_node render executor state engine contexts log now [] in
    (
      do
        result ← outcome
        evaluated ← evaluation_events render engine contexts state now
        called ← tool_events state result
        ok (executed_state state result, evaluated ++ called),
      trace,
      log',
    )
