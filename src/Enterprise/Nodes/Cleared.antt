-- ===== src/Enterprise/Nodes/Cleared.antt =====
-- When a run may come to the execution of its plan.
use networkops_ai_agent.Auth.Models.{approve_repair, role_eq, permission_eq}
use networkops_ai_agent.Base.{
  String, ℕ, ◌≡◌, true, ◌+◌, ◌*◌, ok, false, eq_iff, if◌then◌else◌, ◌==◌, Bool, ◌⊎◌, inl, refl, inr,
  ap, Result, Option, some, err, none, sym, ◌∙◌, subst, Bool-cases, subst₂, All, [], All-map,
  nat_eq, string_eq,
}
use networkops_ai_agent.Enterprise.Approval.{is_after}
use networkops_ai_agent.Enterprise.Approval.Once.{validate_approval-Accepts}
use networkops_ai_agent.Enterprise.Execution.{Handlers}
use networkops_ai_agent.Enterprise.Nodes.{
  goes_to_approval, requires_approval, asks, after_approval, approval_node, goes_to_execute, Step,
  risk_check,
}
use networkops_ai_agent.Enterprise.Nodes.Again.{Denied-blocked}
use networkops_ai_agent.Enterprise.Nodes.Judged.{Harmless, Denied}
use networkops_ai_agent.Enterprise.Nodes.Passed.{
  RiskChecked, after_approval-some, approval_node-ok, with_result-fields, unasked-Harmless,
  risk_check-RiskChecked,
}
use networkops_ai_agent.Enterprise.Nodes.Run.{
  under, after_risk_check, executed, run_plan, to_execute,
}
use networkops_ai_agent.Enterprise.Workflow.{
  Contexts, AuditLog, WorkflowError, PolicyEngine, execute_node,
}
use networkops_ai_agent.Enterprise.Workflow.Authorized.{may_act, authorize-ok}
use networkops_ai_agent.Enterprise.Workflow.Permitted.{policy_admits, execute_node-Permitted}
use networkops_ai_agent.Governance.Authorization.{validated}
use networkops_ai_agent.Values.{
  Items, Fields, Value, Datetime, dict, get_field, str, list, value_eq, aware, datetime,
}

-- What was checked of the answer that approves a plan.
pub record Approved (plan_digest : Items → String) (contexts : Contexts) (log : AuditLog)
    (state : Fields) (requested ttl : ℕ) (answer : Value) (answered : Datetime) : Type 0 where
  pub payload : Fields
  pub actions : Items
  pub answer_of : answer ≡ dict payload
  pub approves : get_field payload "decision" ≡ str "approve"
  pub proposed : get_field state "proposed_actions" ≡ list actions
  pub same_plan : value_eq (get_field payload "plan_digest") (str (plan_digest actions)) ≡ true
  pub in_time : is_after answered (aware (requested + ttl * 1000000)) ≡ ok false
  pub may_approve : may_act "approval" approve_repair contexts log ≡ true

dict_injective : {a b : Fields} → dict a ≡ dict b → a ≡ b
dict_injective h = cc

datetime_injective : {a b : Datetime} → datetime a ≡ datetime b → a ≡ b
datetime_injective h = cc

decided_approve :
    (v : Value) (d : String) → v ≡ str d → value_eq v (str "approve") ≡ true → d ≡ "approve"
unfolding value_eq
decided_approve v d e h = (eq_iff d "approve").0 (rw e at h)

timely :
    (d : String) (now expires : Datetime)
    → d ≡ "approve"
    → (if d == "approve" then is_after now expires else ok false) ≡ ok false
    → is_after now expires ≡ ok false
timely d now expires e h = rw e at h

either_way {ℓ} :
    {A : Type ℓ} (b : Bool) (x y z : A)
    → (if b then x else y) ≡ z
    → ((b ≡ true) × (x ≡ z)) ⊎ ((b ≡ false) × (y ≡ z))
either_way true x y z h = inl (refl, h)
either_way false x y z h = inr (refl, h)

goes_to_approval-stored :
    (state risk : Fields)
    → get_field state "risk_decision" ≡ dict risk
    → goes_to_approval state ≡ requires_approval risk
unfolding goes_to_approval
goes_to_approval-stored state risk stored = ap asks stored

never {ℓ} : {A : Type ℓ} (b : Bool) → b ≡ true → b ≡ false → A
never b passes fails = cc

under-some :
    (executing : Contexts) (reached : Result WorkflowError (Option Fields)) (after : Fields)
    (contexts : Contexts)
    → under executing reached ≡ ok (some (after, contexts))
    → reached ≡ ok (some after)
under-some executing (err e) after contexts h = cc
under-some executing (ok none) after contexts h = cc
under-some executing (ok (some state)) after contexts h = cc

module _ (plan_digest : Items → String) (render : Value → String) (engine : Option PolicyEngine)
    (judging approving executing : Contexts) (log : AuditLog) (state : Fields)
    (requested timestamp ttl : ℕ) (answer : Value) (answered : Datetime) where
  Approved-of :
      (mid after : Fields)
      → RiskChecked plan_digest render engine judging state mid requested timestamp ttl
      → after_approval (approval_node render approving log mid answer answered).0 ≡ ok (some after)
      → (get_field after "proposed_actions" ≡ get_field state "proposed_actions")
        × Approved plan_digest approving log state requested ttl answer answered
  Approved-of mid after c h =
      let (events, stepped, goes) =
        after_approval-some (approval_node render approving log mid answer answered).0 after h in
      let (payload, is_dict, is_passed, result, validated, made) =
        approval_node-ok render approving log mid answered c.risk answer (after, events) c.stored
          stepped in
      let a = validate_approval-Accepts render mid payload answered answered result validated in
      let (chosen, kept) = with_result-fields mid result in
      let same : a.risk ≡ c.risk = dict_injective (sym a.pending ∙ c.stored) in
      let is_approve =
        decided_approve (get_field result "decision") a.decision a.recorded
          (sym chosen ∙ (ap goes_to_execute (sym made) ∙ goes)) in
      let digest =
        ap (λ r. get_field r "plan_digest") same ∙ (c.revises.same_digest ∙ c.judges.digest) in
      let expiry =
        ap (λ r. get_field r "expires_at") same ∙ (c.revises.same_expiry ∙ c.judges.expires) in
      let expires = datetime_injective (sym a.expiry ∙ expiry) in
      (
        ap (λ s. get_field s "proposed_actions") made ∙ (kept ∙ c.kept),
        record {
          payload = payload;
          actions = c.judges.actions;
          answer_of = is_dict;
          approves = a.decided ∙ ap str is_approve;
          proposed = c.judges.proposed;
          same_plan =
              ap (λ v. value_eq (get_field payload "plan_digest") v) (sym digest) ∙ a.same_plan;
          in_time =
              ap (is_after answered) (sym expires)
              ∙ timely a.decision answered a.expires_at is_approve a.in_time;
          may_approve =
              authorize-ok "approval" approve_repair approving "authorize_approval" log is_passed;
        },
      )

  -- A plan at Execute: approved, harmless, or denied by the policy and bound to be denied again.
  data Cleared (after : Fields) (contexts : Contexts) : Type 0 where
    harmless : Harmless state → Cleared after contexts
    approved :
        Approved plan_digest approving log state requested ttl answer answered
        → Cleared after contexts
    denied :
        ((later : ℕ) → policy_admits render engine contexts after later ≡ false)
        → Cleared after contexts

  at_once-Cleared :
      (mid : Fields)
      → RiskChecked plan_digest render engine judging state mid requested timestamp ttl
      → goes_to_approval mid ≡ false
      → Cleared mid judging
  at_once-Cleared mid c unasked =
      elim (c.unneeded (sym (goes_to_approval-stored mid c.risk c.stored) ∙ unasked)) [
        | inl d ↦ denied (λ later.
            Denied-blocked render engine judging state mid c.risk timestamp later
              (subst (λ level. Denied render engine judging state level timestamp)
                (sym c.revises.same_level) d)
              c.stored c.kept)
        | inr unneeded ↦
            harmless (unasked-Harmless plan_digest state c.judged requested ttl c.judges unneeded)
      ]

  resumed-Cleared :
      (mid after : Fields) (contexts : Contexts)
      → RiskChecked plan_digest render engine judging state mid requested timestamp ttl
      → under executing (after_approval (approval_node render approving log mid answer answered).0)
        ≡ ok (some (after, contexts))
      → Cleared after contexts
  resumed-Cleared mid after contexts c h =
      let stepped =
        under-some executing
          (after_approval (approval_node render approving log mid answer answered).0) after contexts
          h in
      approved (Approved-of mid after c stepped).1

  after_risk_check-Cleared :
      (checked : Result WorkflowError Step) (after : Fields) (contexts : Contexts)
      → risk_check plan_digest render engine judging state (aware requested) timestamp ttl ≡ checked
      → (after_risk_check plan_digest render engine judging approving executing log answer answered
          checked).0
        ≡ ok (some (after, contexts))
      → Cleared after contexts
  unfolding after_risk_check
  after_risk_check-Cleared (err e) after contexts is_checked h = cc
  after_risk_check-Cleared (ok (mid, events)) after contexts is_checked h =
      let c =
        risk_check-RiskChecked plan_digest render engine judging state mid requested timestamp ttl
          events is_checked in
      elim (Bool-cases (goes_to_approval mid)) [
        | inl asked ↦ resumed-Cleared mid after contexts c (rw asked at h)
        | inr unasked ↦
            let h' : ◌≡◌ {A = Result WorkflowError (Option (Fields × Contexts))}
                (ok (some (mid, judging))) (ok (some (after, contexts))) =
              rw unasked at h in
            subst₂ Cleared (cc h') (cc h') (at_once-Cleared mid c unasked)
      ]

  -- What stands behind the execution of a plan.
  abbrev pub MayRun : Type 0
  MayRun = Harmless state ⊎ Approved plan_digest approving log state requested ttl answer answered

  cleared-MayRun :
      (executor : Option Handlers) (after : Fields) (contexts : Contexts) (log' : AuditLog)
      (later : ℕ)
      → Cleared after contexts
      → All
          (λ action. MayRun)
          (execute_node render executor after engine contexts log' later []).0.1
  cleared-MayRun executor after contexts log' later (harmless h) =
      All-map (λ action p. inl h) _
        (execute_node-Permitted render executor after engine contexts log' later)
  cleared-MayRun executor after contexts log' later (approved a) =
      All-map (λ action p. inr a) _
        (execute_node-Permitted render executor after engine contexts log' later)
  cleared-MayRun executor after contexts log' later (denied d) =
      All-map (λ action p. never (policy_admits render engine contexts after later) p.1 (d later)) _
        (execute_node-Permitted render executor after engine contexts log' later)

  executed-MayRun :
      (executor : Option Handlers) (later : ℕ)
      (reached : Result WorkflowError (Option (Fields × Contexts)) × AuditLog)
      → ((after : Fields) (contexts : Contexts)
          → reached.0 ≡ ok (some (after, contexts))
          → Cleared after contexts)
      → All
          (λ action. MayRun)
          (executed plan_digest render engine judging approving executing log answer answered
            executor later reached).1
  unfolding executed
  executed-MayRun executor later (err e, log') cleared = tt
  executed-MayRun executor later (ok none, log') cleared = tt
  executed-MayRun executor later (ok (some (after, contexts)), log') cleared =
      cleared-MayRun executor after contexts log' later (cleared after contexts refl)

  -- In a run from RiskCheck to its end, whose request, decision and execution may each be made by
  -- another user, whatever the answer and the policy, a handler is called only if the plan is of
  -- no high or critical level and demands no person, or the answer approves it: by the digest of
  -- the very actions that the state proposes, before the request expires, and from a user who may
  -- approve repairs wherever the decision or the incident uses permissions.
  pub run_plan-MayRun :
      (executor : Option Handlers) (later : ℕ)
      → All
          (λ action. MayRun)
          (run_plan plan_digest render engine judging approving executing log answer answered
            executor state
            (aware requested)
            timestamp
            ttl
            later).1
  unfolding run_plan to_execute
  run_plan-MayRun executor later = executed-MayRun executor later _ (λ after contexts h.
      after_risk_check-Cleared
        (risk_check plan_digest render engine judging state (aware requested) timestamp ttl) after
        contexts refl h)
