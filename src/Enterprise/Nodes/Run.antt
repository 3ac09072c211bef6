-- ===== src/Enterprise/Nodes/Run.antt =====
-- .../enterprise/workflow.py: the run over the nodes RiskCheck, Approval and Execute, in the calls of
-- api/enterprise.py that start and resume it.
use networkops_ai_agent.Base.{
  Result, Option, err, ok, none, some, String, if◌then◌else◌, ℕ, [], ◌>>=◌, nat_eq, string_eq,
}
use networkops_ai_agent.Enterprise.Execution.{Handlers, ExecutionResult, Trace}
use networkops_ai_agent.Enterprise.Nodes.{
  Step, goes_to_approval, approval_node, after_approval, risk_check,
}
use networkops_ai_agent.Enterprise.Workflow.{
  Contexts, WorkflowError, PolicyEngine, AuditLog, execute_node,
}
use networkops_ai_agent.Values.{Fields, Items, Value, Datetime}

-- The state at Execute with the contexts of the call that executes it.
abbrev pub under :
    Contexts
    → Result WorkflowError (Option Fields)
    → Result WorkflowError (Option (Fields × Contexts))
under contexts (err e) = err e
under contexts (ok none) = ok none
under contexts (ok (some state)) = ok (some (state, contexts))

-- The run is interrupted before Approval and resumed by other calls, each with contexts of its own:
-- RiskCheck runs in the call that creates the incident, and so does Execute where no approval is
-- asked for; Approval runs in the call of the user who decides; Execute then runs in that call, or
-- in a later one that tries it again.
module _ (plan_digest : Items → String) (render : Value → String) (engine : Option PolicyEngine)
    (judging approving executing : Contexts) (log : AuditLog) (answer : Value)
    (answered : Datetime) where
  unfoldable pub after_risk_check :
      Result WorkflowError Step → Result WorkflowError (Option (Fields × Contexts)) × AuditLog
  unfolding goes_to_approval approval_node after_approval
  after_risk_check (err e) = (err e, log)
  after_risk_check (ok (judged, events)) =
      let (stepped, log', requested) = approval_node render approving log judged answer answered in
      if goes_to_approval judged
      then (under executing (after_approval stepped), log')
      else (ok (some (judged, judging)), log)

  -- The run from RiskCheck to Execute, with the log of authorizations.
  unfoldable pub to_execute :
      Fields → Datetime → ℕ → ℕ → Result WorkflowError (Option (Fields × Contexts)) × AuditLog
  unfolding risk_check after_risk_check
  to_execute state now timestamp ttl =
      after_risk_check (risk_check plan_digest render engine judging state now timestamp ttl)

  unfoldable pub executed :
      Option Handlers
      → ℕ
      → Result WorkflowError (Option (Fields × Contexts)) × AuditLog
      → Result WorkflowError (Option ExecutionResult) × Trace
  unfolding execute_node
  executed executor later (err e, log') = (err e, [])
  executed executor later (ok none, log') = (ok none, [])
  executed executor later (ok (some (state, contexts)), log') =
      let ((result, trace), log'') =
        execute_node render executor state engine contexts log' later [] in
      (result >>= (λ r. ok (some r)), trace)

  -- The run from RiskCheck to its end, with the calls of handlers.
  unfoldable pub run_plan :
      Option Handlers
      → Fields
      → Datetime
      → ℕ
      → ℕ
      → ℕ
      → Result WorkflowError (Option ExecutionResult) × Trace
  unfolding to_execute executed
  run_plan executor state now timestamp ttl later =
      executed executor later (to_execute state now timestamp ttl)
