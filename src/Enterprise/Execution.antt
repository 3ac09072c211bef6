-- ===== src/Enterprise/Execution.antt =====
-- .../enterprise/execution.py: the allowlisted execution of a plan, one action at a time. The
-- handlers are outside code: what a handler answers may depend on the calls made before.
pub mod Gate
pub mod Order
use networkops_ai_agent.Base.{
  String, List, Option, Result, [], none, ◌∷◌, if◌then◌else◌, ◌==◌, some, ok, err, or_raise, strip,
  ◌<>◌, ◌++◌, Bool, false, not, is_empty, nat_beq, true, ◌&&◌, ◌>>=◌, ◌>>◌, nat_eq, string_eq,
}
use networkops_ai_agent.Enterprise.Approval.{as_text, as_dict, python_str}
use networkops_ai_agent.Values.{
  Value, Fields, has_field, get_field, str, list, dict, Items, nil, cons, null, bool, number,
  datetime, end, field, value_eq,
}

pub data ActionStatus : Type 0 where
  succeeded failed : ActionStatus

pub record ActionResult : Type 0 where
  pub action_id : Value
  pub status : ActionStatus
  pub message : String

pub data ExecutionStatus : Type 0 where
  all_succeeded some_failed blocked not_executed : ExecutionStatus

pub record ExecutionResult : Type 0 where
  pub status : ExecutionStatus
  pub actions : List ActionResult
  pub error_code : Option String
  pub message : String

-- The actions handed to handlers so far, the last one first.
abbrev pub Trace : Type 0
Trace = List Fields

-- A handler returns a value or raises an exception, which is known by the name of its type.
abbrev pub Handler : Type 0
Handler = Trace → Fields → Result String Value

-- `AllowlistedExecutor._handlers`
abbrev pub Handlers : Type 0
Handlers = List (String × Handler)

unfoldable pub find_handler : Handlers → String → Option Handler
find_handler [] tool_name = none
find_handler ((name, handler) ∷ handlers) tool_name =
    let rest = find_handler handlers tool_name in if name == tool_name then some handler else rest

-- `action[key]`
abbrev pub item_of : Fields → String → Result String Value
item_of fields key = if has_field fields key then ok (get_field fields key) else err "KeyError"

-- `self._handlers.get(name)`: what is no text is no key, and a list has no hash.
abbrev pub handler_of : Handlers → Value → Result String Handler
handler_of handlers (str name) = or_raise (find_handler handlers name) "ValueError"
handler_of handlers (list items) = err "TypeError"
handler_of handlers (dict fields) = err "TypeError"
handler_of handlers _ = err "ValueError"

abbrev pub status_of : Value → Result String ActionStatus
status_of (str s) =
    if s == "succeeded" then ok succeeded else if s == "failed" then ok failed else err "ValueError"
status_of (list items) = err "TypeError"
status_of (dict fields) = err "TypeError"
status_of _ = err "ValueError"

abbrev pub text_of : Value → Result String String
text_of v = or_raise (as_text v) "ValueError"

-- What `execute` makes of a handler's answer.
unfoldable pub read_answer : Fields → Result String Value → Result String ActionResult
unfolding get_field has_field as_text strip
read_answer action answer = do
  value ← answer
  result ← or_raise (as_dict value) "ValueError"
  status ← status_of (get_field result "status")
  message ← text_of (get_field result "message")
  action_id ← item_of action "action_id"
  ok (record { action_id = action_id; status = status; message = strip message })

-- `AllowlistedExecutor.execute`, with the calls made: the handler is looked up first, and nothing
-- is called where there is none.
unfoldable pub call_handler :
    Fields → Trace → Result String Handler → Result String ActionResult × Trace
unfolding read_answer
call_handler action trace (err e) = (err e, trace)
call_handler action trace (ok handler) = (read_answer action (handler trace action), action ∷ trace)

unfoldable pub execute : Handlers → Fields → Trace → Result String ActionResult × Trace
unfolding call_handler find_handler has_field get_field
execute handlers action trace =
    call_handler action trace (do name ← item_of action "tool_name"; handler_of handlers name)

unfoldable pub stopped : List ActionResult → ExecutionResult
stopped results = record {
  status = some_failed;
  actions = results;
  error_code = some "ACTION_EXECUTION_FAILED";
  message = "Execution stopped after the first failed action.";
}

abbrev pub completed : List ActionResult → ExecutionResult
completed results = record {
  status = all_succeeded;
  actions = results;
  error_code = none;
  message = "All approved actions completed.";
}

-- `str(raw_action.get("action_id", "unknown"))`
unfoldable pub failed_id : (Value → String) → Fields → String
unfolding get_field has_field
failed_id render action =
    if has_field action "action_id"
    then python_str render (get_field action "action_id")
    else "unknown"

-- The result that the loop appends for one action.
unfoldable pub outcome_of : (Value → String) → Fields → Result String ActionResult → ActionResult
unfolding failed_id
outcome_of render action (ok result) = result
outcome_of render action (err error) = record {
  action_id = str (failed_id render action);
  status = failed;
  message = "Action failed with " <> (error <> ".");
}

-- `if result["status"] == "failed": return stop`, and else the loop goes on.
abbrev pub on_status {ℓ} : {A : Type ℓ} → ActionStatus → A → A → A
on_status succeeded go_on stop = go_on
on_status failed go_on stop = stop

-- The loop over the actions. An action that is no dictionary fails in `execute`, and reporting the
-- failure by `raw_action.get` then raises AttributeError.
unfoldable pub run_actions :
    (Value → String)
    → Handlers
    → List ActionResult
    → Items
    → Trace
    → Result String ExecutionResult × Trace
unfolding execute outcome_of stopped
run_actions render handlers results nil trace = (ok (completed results), trace)
run_actions render handlers results (cons (dict action) rest) trace =
    let (answer, trace') = execute handlers action trace in
    let result = outcome_of render action answer in
    let go_on = run_actions render handlers (results ++ result ∷ []) rest trace' in
    on_status result.status go_on (ok (stopped (results ++ result ∷ [])), trace')
run_actions render handlers results (cons _ rest) trace = (err "AttributeError", trace)

-- `bool(value)`
unfoldable pub truthy : Value → Bool
truthy null = false
truthy (bool b) = b
truthy (str s) = not (is_empty s)
truthy (number n) = not (nat_beq n 0)
truthy (datetime t) = true
truthy (list nil) = false
truthy (list (cons v vs)) = true
truthy (dict end) = false
truthy (dict (field k v fields)) = true

-- `isinstance(approval, dict) and approval.get("decision") == decision`
unfoldable pub decided_as : Fields → String → Bool
unfolding get_field value_eq
decided_as state decision = elim (get_field state "approval_result") [
  | dict approval ↦ value_eq (get_field approval "decision") (str decision)
  | _ ↦ false
]

-- `isinstance(risk, dict) and risk.get("approval_required")`
unfoldable pub approval_is_required : Fields → Bool
unfolding get_field truthy
approval_is_required state = elim (get_field state "risk_decision") [
  | dict risk ↦ truthy (get_field risk "approval_required")
  | _ ↦ false
]

abbrev pub held : ExecutionStatus → String → String → ExecutionResult
held status code message = record {
  status = status;
  actions = [];
  error_code = some code;
  message = message;
}

unfoldable pub run_proposed :
    (Value → String) → Handlers → Value → Trace → Result String ExecutionResult × Trace
unfolding run_actions
run_proposed render handlers (list (cons action rest)) trace =
    run_actions render handlers [] (cons action rest) trace
run_proposed render handlers _ trace =
    (ok (held blocked "NO_EXECUTABLE_ACTIONS" "No structured repair actions were provided."), trace)

abbrev pub run_with :
    (Value → String) → Option Handlers → Value → Trace → Result String ExecutionResult × Trace
run_with render none actions trace = (
  ok (
      held blocked "EXECUTOR_NOT_CONFIGURED"
        "No allowlisted executor is configured; no action was executed."),
  trace,
)
run_with render (some handlers) actions trace = run_proposed render handlers actions trace

unfoldable pub execute_actions :
    (Value → String) → Fields → Option Handlers → Trace → Result String ExecutionResult × Trace
unfolding decided_as approval_is_required run_proposed get_field
execute_actions render state executor trace =
    if decided_as state "reject"
    then (
      ok (
          held not_executed "APPROVAL_REJECTED"
            "The repair plan was rejected; no action was executed."),
      trace,
    )
    else if approval_is_required state && not (decided_as state "approve")
    then (
      ok (held not_executed "APPROVAL_REQUIRED" "Human approval is required before execution."),
      trace,
    )
    else run_with render executor (get_field state "proposed_actions") trace
