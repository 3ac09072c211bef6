-- ===== src/Enterprise/Workflow/Permitted.antt =====
-- What stands behind each call of a handler by the node that executes a plan.
use networkops_ai_agent.Auth.Models.{execute_repair, role_eq, permission_eq}
use networkops_ai_agent.Base.{
  Bool, true, false, Result, ok, err, String, Option, ℕ, none, some, ◌≡◌, All, All-map, [], sym,
  Bool-cases, inl, ◌∙◌, inr, refl, nat_eq, string_eq,
}
use networkops_ai_agent.Enterprise.Execution.{
  decided_as, Handlers, ExecutionResult, Trace, execute_actions,
}
use networkops_ai_agent.Enterprise.Execution.Gate.{
  Authorized, is_refused, execute_actions-Authorized,
}
use networkops_ai_agent.Enterprise.Workflow.{
  Contexts, AuditLog, WorkflowError, PolicyEngine, effect_of, lift_execution, execute_allowed,
  policy_gate, execute_by_effect, execute_by_policy, execute_authorized, execute_node,
}
use networkops_ai_agent.Enterprise.Workflow.Authorized.{may_act, authorize-ok}
use networkops_ai_agent.Policy.Models.{
  PolicyEffect, allow, require_approval, deny, effect_eq, operation_eq, risk_eq,
}
use networkops_ai_agent.Values.{Value, Fields}

-- The user of the execution may execute repairs, where the run or its incident uses permissions.
abbrev pub may_execute : Contexts → AuditLog → Bool
may_execute = may_act "execution" execute_repair

-- The policy allows the effect, an approval being given where it wants one.
abbrev pub effect_admits : PolicyEffect → Bool → Bool
effect_admits allow approved = true
effect_admits require_approval approved = approved
effect_admits deny approved = false

abbrev pub result_admits : Result WorkflowError PolicyEffect → Bool → Bool
result_admits (ok effect) approved = effect_admits effect approved
result_admits (err e) approved = false

abbrev pub policy_admits : (Value → String) → Option PolicyEngine → Contexts → Fields → ℕ → Bool
policy_admits render none contexts state now = true
policy_admits render (some engine) contexts state now =
    result_admits (effect_of render engine contexts state now) (decided_as state "approve")

module _ (render : Value → String) (executor : Option Handlers) (state : Fields)
    (permitted admitted : Bool) (may : permitted ≡ true) where
  abbrev pub Permitted : Fields → Type 0
  Permitted action =
      (permitted ≡ true) × (admitted ≡ true) × Authorized (is_refused state) executor action

  lifted-Permitted :
      (r : Result String ExecutionResult × Trace)
      → admitted ≡ true
      → All (Authorized (is_refused state) executor) r.1
      → All Permitted (lift_execution r).1
  lifted-Permitted (ok r, trace) e calls = All-map (λ action a. (may, e, a)) trace calls
  lifted-Permitted (err r, trace) e calls = All-map (λ action a. (may, e, a)) trace calls

  gated-Permitted :
      (effect : PolicyEffect)
      → effect_admits effect (decided_as state "approve") ≡ admitted
      → All Permitted
          (execute_allowed render executor state
            (policy_gate effect (decided_as state "approve"))
            []).1
  unfolding execute_allowed policy_gate
  gated-Permitted allow e =
      lifted-Permitted (execute_actions render state executor []) (sym e)
        (execute_actions-Authorized render state executor)
  gated-Permitted deny e = tt
  gated-Permitted require_approval e = elim (Bool-cases (decided_as state "approve")) [
    | inl approved ↦ rw approved (
        lifted-Permitted (execute_actions render state executor []) (sym e ∙ approved)
          (execute_actions-Authorized render state executor))
    | inr waits ↦ rw waits tt
  ]

  by_effect-Permitted :
      (r : Result WorkflowError PolicyEffect)
      → result_admits r (decided_as state "approve") ≡ admitted
      → All Permitted (execute_by_effect render executor state r []).1
  unfolding execute_by_effect
  by_effect-Permitted (err error) e = tt
  by_effect-Permitted (ok effect) e = gated-Permitted effect e

  by_policy-Permitted :
      (engine : Option PolicyEngine) (contexts : Contexts) (now : ℕ)
      → policy_admits render engine contexts state now ≡ admitted
      → All Permitted (execute_by_policy render executor state engine contexts now []).1
  unfolding execute_by_policy execute_allowed
  by_policy-Permitted none contexts now e =
      lifted-Permitted (execute_actions render state executor []) (sym e)
        (execute_actions-Authorized render state executor)
  by_policy-Permitted (some engine) contexts now e =
      by_effect-Permitted (effect_of render engine contexts state now) e

execute_authorized-Permitted :
    (render : Value → String) (executor : Option Handlers) (state : Fields)
    (engine : Option PolicyEngine) (contexts : Contexts) (log : AuditLog) (now : ℕ)
    (allowed : Result WorkflowError (Unit {0}))
    → (allowed ≡ ok tt → may_execute contexts log ≡ true)
    → All
        (λ action.
          (may_execute contexts log ≡ true)
          × (policy_admits render engine contexts state now ≡ true)
          × Authorized (is_refused state) executor action)
        (execute_authorized render executor state engine contexts now allowed []).1
unfolding execute_authorized
execute_authorized-Permitted render executor state engine contexts log now (err e) may = tt
execute_authorized-Permitted render executor state engine contexts log now (ok tt) may =
    by_policy-Permitted render executor state (may_execute contexts log)
      (policy_admits render engine contexts state now) (may refl) engine contexts now refl

-- Every call of a handler by the Execute node is made only if the user of the execution may
-- execute repairs wherever the run or its incident uses permissions, the policy allows the plan
-- or wants an approval that was given, the plan was not rejected and has its approval where it
-- needs one, and the tool is listed.
pub execute_node-Permitted :
    (render : Value → String) (executor : Option Handlers) (state : Fields)
    (engine : Option PolicyEngine) (contexts : Contexts) (log : AuditLog) (now : ℕ)
    → All
        (λ action.
          (may_execute contexts log ≡ true)
          × (policy_admits render engine contexts state now ≡ true)
          × Authorized (is_refused state) executor action)
        (execute_node render executor state engine contexts log now []).0.1
unfolding execute_node
execute_node-Permitted render executor state engine contexts log now =
    execute_authorized-Permitted render executor state engine contexts log now _
      (authorize-ok "execution" execute_repair contexts "authorize_execution" log)
