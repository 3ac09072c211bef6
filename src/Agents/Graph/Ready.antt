-- ===== src/Agents/Graph/Ready.antt =====
-- What holds of each state that the supervisor leaves, for a plan that passed its checks.
use networkops_ai_agent.Agents.Graph.{
  choose, Limits, supervisor, has_pending, lacks_diagnosis, initial_state,
}
use networkops_ai_agent.Agents.Graph.Moves.{Moved, contains-without}
use networkops_ai_agent.Agents.Plan.{
  SupervisorPlan, repair, diagnosis, report, first_pending, AgentName, agent_eq, source_eq,
}
use networkops_ai_agent.Agents.Plan.Order.{
  IsOrdered, first_pending-none, first_pending-some, diagnosis_first,
}
use networkops_ai_agent.Agents.State.{MultiAgentState, without}
use networkops_ai_agent.Base.{
  ◌≡◌, contains, true, ◌⊎◌, is_none, false, none, ◌∙◌, inl, inr, ap, String, Bool-cases, leb, ◌&&◌,
  refl, some, sym, nat_eq, string_eq,
}
use networkops_ai_agent.Base.Dict.{Dict}

module _ (plan : SupervisorPlan) where
  -- Of the state that an agent hands back: a repair that is pending waits for a diagnosis that is
  -- pending or has a result, and the report is pending or done.
  pub record IsSound (state : MultiAgentState) : Type 0 where
    pub kept_plan : state.task_plan ≡ plan
    pub waits :
        contains state.pending_agents repair ≡ true
        → (contains state.pending_agents diagnosis ≡ true)
          ⊎ (is_none state.diagnosis_result ≡ false)
    pub reports :
        (contains state.pending_agents report ≡ true)
        ⊎ (contains state.completed_agents report ≡ true)

  -- The supervisor chose the first pending agent, or gave up with a failure.
  abbrev pub IsReady : MultiAgentState → Type 0
  IsReady state =
      (IsSound state
        × (state.current_agent ≡ first_pending plan.required_agents state.pending_agents))
      ⊎ ((state.current_agent ≡ none) × (is_none state.failure ≡ false))

  Moved-IsSound : (state next : MultiAgentState) → Moved state next → IsSound state → IsSound next
  Moved-IsSound state next moved sound = record {
    kept_plan = moved.kept_plan ∙ sound.kept_plan;
    waits = λ h. elim (sound.waits (moved.repairs h)) [
      | inl queued ↦ moved.waits h queued
      | inr known ↦ inr (moved.diagnosed known)
    ];
    reports = elim sound.reports [
      | inl queued ↦ moved.reports queued
      | inr past ↦ inr (moved.kept_report past)
    ];
  }

  choose-IsReady : (state : MultiAgentState) → IsSound state → IsReady (choose state)
  choose-IsReady state sound = inl (
    record { kept_plan = sound.kept_plan; waits = sound.waits; reports = sound.reports },
    ap (λ (p : SupervisorPlan). first_pending p.required_agents state.pending_agents)
        sound.kept_plan,
  )

  no_repair-IsSound :
      (state : MultiAgentState) (errors : Dict AgentName String)
      → IsSound state
      → IsSound (record state {
        pending_agents = without repair state.pending_agents;
        agent_errors = errors;
      })
  no_repair-IsSound state errors sound = record {
    kept_plan = sound.kept_plan;
    waits = λ h. cc (contains-without repair state.pending_agents repair);
    reports = elim sound.reports [
      | inl queued ↦ inl (rw (contains-without repair state.pending_agents report) queued)
      | inr past ↦ inr past
    ];
  }

  supervisor-IsReady :
      (limits : Limits) (state : MultiAgentState)
      → IsSound state
      → IsReady (supervisor limits state)
  unfolding supervisor
  supervisor-IsReady limits state sound =
      elim (Bool-cases (leb limits.max_handoffs state.handoff_count && has_pending state)) [
        | inl spent ↦ rw spent (inr (refl, refl))
        | inr goes_on ↦ rw goes_on (elim (Bool-cases (lacks_diagnosis state)) [
          | inl unknown_yet ↦ rw unknown_yet (choose-IsReady _ (no_repair-IsSound state _ sound))
          | inr known ↦ rw known (choose-IsReady state sound)
        ])
      ]

  -- From one choice of the supervisor to the next.
  pub visit-IsReady :
      (limits : Limits) (state next : MultiAgentState) (agent : AgentName)
      → state.current_agent ≡ some agent
      → Moved state next
      → IsReady state
      → IsReady (supervisor limits next)
  visit-IsReady limits state next agent chosen moved (inl (sound, _)) =
      supervisor-IsReady limits next (Moved-IsSound state next moved sound)
  visit-IsReady limits state next agent chosen moved (inr (halted, _)) = cc

  module _ (checked : IsOrdered plan.required_agents) where
    pub initial_state-IsReady :
        (query incident : String) → IsReady (initial_state query incident plan)
    unfolding initial_state
    initial_state-IsReady query incident = inl (
      record {
        kept_plan = refl;
        waits = λ h. inl checked.diagnoses;
        reports = inl checked.reports;
      },
      refl,
    )

    -- Where nothing is chosen any more, the report is done or there is a failure.
    pub IsReady-ended :
        (state : MultiAgentState)
        → IsReady state
        → state.current_agent ≡ none
        → (contains state.completed_agents report ≡ true) ⊎ (is_none state.failure ≡ false)
    IsReady-ended state (inr (_, e)) ends = inr e
    IsReady-ended state (inl (sound, chosen)) ends = elim sound.reports [
      | inl queued ↦ cc (
          first_pending-none plan.required_agents state.pending_agents report checked.reports
            (sym chosen ∙ ends))
      | inr past ↦ inl past
    ]

    pub IsReady-repair :
        (state : MultiAgentState)
        → IsReady state
        → state.current_agent ≡ some repair
        → is_none state.diagnosis_result ≡ false
    IsReady-repair state (inr (halted, _)) chosen = cc
    IsReady-repair state (inl (sound, first)) chosen =
        let found = sym first ∙ chosen in
        elim (sound.waits
          (first_pending-some plan.required_agents state.pending_agents repair found)) [
            | inl queued ↦ cc (
                diagnosis_first (contains plan.required_agents) state.pending_agents
                  checked.diagnoses
                  (ap (λ agents. first_pending agents state.pending_agents) (sym checked.ordered)
                    ∙ found))
            | inr known ↦ known
          ]
