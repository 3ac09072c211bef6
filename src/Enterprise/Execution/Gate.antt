-- ===== src/Enterprise/Execution/Gate.antt =====
-- Who lets the handlers be called: the approval of the plan and the list of tools.
use networkops_ai_agent.Base.{
  Bool, ◌||◌, ◌&&◌, not, Option, none, false, some, is_none, ◌>>=◌, ◌≡◌, ok, true, arith, String,
  Result, All, err, refl, List, ◌++◌, ◌∷◌, [], if◌then◌else◌, nat_eq, string_eq,
}
use networkops_ai_agent.Enterprise.Execution.{
  decided_as, approval_is_required, Handlers, find_handler, Handler, item_of, handler_of, Trace,
  ActionStatus, on_status, succeeded, failed, call_handler, execute, ActionResult, run_actions,
  outcome_of, run_proposed, run_with, ExecutionResult, execute_actions,
}
use networkops_ai_agent.Values.{Fields, get_field, str, Value, Items, nil, cons, dict, list}

-- A refusal of `execute_actions`: the plan was rejected, or waits for an approval that it needs.
abbrev pub is_refused : Fields → Bool
is_refused state =
    decided_as state "reject" || (approval_is_required state && not (decided_as state "approve"))

-- The tool of the action has a handler.
abbrev pub is_allowlisted : Option Handlers → Fields → Bool
is_allowlisted none action = false
is_allowlisted (some handlers) action = elim (get_field action "tool_name") [
  | str name ↦ not (is_none (find_handler handlers name))
  | _ ↦ false
]

handler_of-some :
    (handlers : Handlers) (action : Fields) (handler : Handler)
    → (item_of action "tool_name" >>= handler_of handlers) ≡ ok handler
    → is_allowlisted (some handlers) action ≡ true
handler_of-some handlers action handler h = ground arith

-- What is shown of each call.
abbrev pub Authorized : Bool → Option Handlers → Fields → Type 0
Authorized refused executor action = (refused ≡ false) × (is_allowlisted executor action ≡ true)

on_status-snd :
    {A : Type 0} (P : Trace → Type 0) (s : ActionStatus) (go_on stop : A × Trace)
    → P go_on.1
    → P stop.1
    → P (on_status s go_on stop).1
on_status-snd P succeeded go_on stop h k = h
on_status-snd P failed go_on stop h k = k

module _ (render : Value → String) (handlers : Handlers) (refused : Bool)
    (open_gate : refused ≡ false) where
  call_handler-Authorized :
      (action : Fields) (trace : Trace) (found : Result String Handler)
      → (item_of action "tool_name" >>= handler_of handlers) ≡ found
      → All (Authorized refused (some handlers)) trace
      → All (Authorized refused (some handlers)) (call_handler action trace found).1
  unfolding call_handler
  call_handler-Authorized action trace (err e) h calls = calls
  call_handler-Authorized action trace (ok handler) h calls =
      ((open_gate, handler_of-some handlers action handler h), calls)

  execute-Authorized :
      (action : Fields) (trace : Trace)
      → All (Authorized refused (some handlers)) trace
      → All (Authorized refused (some handlers)) (execute handlers action trace).1
  unfolding execute
  execute-Authorized action trace calls = call_handler-Authorized action trace _ refl calls

  run_actions-Authorized :
      (actions : Items) (results : List ActionResult) (trace : Trace)
      → All (Authorized refused (some handlers)) trace
      → All
          (Authorized refused (some handlers))
          (run_actions render handlers results actions trace).1
  unfolding run_actions
  run_actions-Authorized nil results trace calls = calls
  run_actions-Authorized (cons (dict action) rest) results trace calls =
      let (answer, trace') = execute handlers action trace in
      let last = outcome_of render action answer in
      on_status-snd (All (Authorized refused (some handlers))) last.status _ _
        (run_actions-Authorized rest (results ++ last ∷ []) trace'
          (execute-Authorized action trace calls))
        (execute-Authorized action trace calls)
  run_actions-Authorized (cons v rest) results trace calls = calls

  run_proposed-Authorized :
      (actions : Value)
      → All (Authorized refused (some handlers)) (run_proposed render handlers actions []).1
  unfolding run_proposed
  run_proposed-Authorized (list (cons action rest)) =
      run_actions-Authorized (cons action rest) [] [] tt
  run_proposed-Authorized _ = tt

run_with-Authorized :
    (render : Value → String) (executor : Option Handlers) (refused : Bool) (actions : Value)
    → refused ≡ false
    → All (Authorized refused executor) (run_with render executor actions []).1
run_with-Authorized render none refused actions e = tt
run_with-Authorized render (some handlers) refused actions e =
    run_proposed-Authorized render handlers refused e actions

-- The two refusals of `execute_actions` call nothing, and the rest stands on neither test.
gate-Authorized :
    (executor : Option Handlers) (rejected waits : Bool)
    (refusal waiting : Result String ExecutionResult) (trace : Trace)
    (rest : Result String ExecutionResult × Trace)
    → ((rejected || waits) ≡ false → All (Authorized (rejected || waits) executor) rest.1)
    → All
        (Authorized (rejected || waits) executor)
        (if rejected then (refusal, []) else if waits then (waiting, []) else rest).1
gate-Authorized executor true waits refusal waiting trace rest h = tt
gate-Authorized executor false true refusal waiting trace rest h = tt
gate-Authorized executor false false refusal waiting trace rest h = h refl

-- Every call of a handler is of a tool that is listed, and is made only for a plan that was not
-- rejected and has its approval where it needs one.
pub execute_actions-Authorized :
    (render : Value → String) (state : Fields) (executor : Option Handlers)
    → All (Authorized (is_refused state) executor) (execute_actions render state executor []).1
unfolding execute_actions
execute_actions-Authorized render state executor =
    gate-Authorized executor (decided_as state "reject") _ _ _ [] _
      (run_with-Authorized render executor (is_refused state) (get_field state "proposed_actions"))
