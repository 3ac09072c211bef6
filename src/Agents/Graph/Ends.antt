-- ===== src/Agents/Graph/Ends.antt =====
-- The run of the graph: it ends, and a repair is planned for a diagnosis only.
use networkops_ai_agent.Agents.Graph.{
  Limits, supervisor, has_pending, lacks_diagnosis, Outcome, out_of_fuel, finished, make_limits,
  Next, to_end, to_supervisor, Environment, dispatch, visit, run_agents, initial_state,
}
use networkops_ai_agent.Agents.Graph.Ready.{
  IsReady, visit-IsReady, IsReady-ended, initial_state-IsReady, IsReady-repair,
}
use networkops_ai_agent.Agents.Graph.Visits.{Visited, visit-Visited}
use networkops_ai_agent.Agents.Plan.{
  AgentName, SupervisorPlan, next_agent, first_pending, repair, report, validate_supervisor_plan,
  agent_eq, source_eq,
}
use networkops_ai_agent.Agents.Plan.Order.{
  first_pending-nil, IsOrdered, validate_supervisor_plan-IsOrdered,
}
use networkops_ai_agent.Agents.State.{MultiAgentState, without}
use networkops_ai_agent.Base.{
  ◌≡◌, Bool-cases, leb, ◌&&◌, inl, refl, inr, List, nat_beq, length, true, [], ◌∷◌, arith, none, ap,
  ◌∙◌, filter, ◌≤◌, ℕ, contains, ◌⊎◌, is_none, false, ok, ◌<◌, raise_if-eq-ok, ltb, ◌||◌,
  ok_injective, sym, subst, some, ◌+◌, zero, suc, Option-cases, String, nat_eq, string_eq,
}
use networkops_ai_agent.Values.{Value}

supervisor-handoffs :
    (limits : Limits) (state : MultiAgentState)
    → (supervisor limits state).handoff_count ≡ state.handoff_count
unfolding supervisor
supervisor-handoffs limits state =
    elim (Bool-cases (leb limits.max_handoffs state.handoff_count && has_pending state)) [
      | inl spent ↦ rw spent refl
      | inr goes_on ↦ rw goes_on (elim (Bool-cases (lacks_diagnosis state)) [
        | inl unknown_yet ↦ rw unknown_yet refl
        | inr known ↦ rw known refl
      ])
    ]

no_names : (names : List AgentName) → nat_beq (length names) 0 ≡ true → names ≡ []
no_names [] h = refl
no_names (name ∷ names) h = ground arith

no_choice :
    (plan : SupervisorPlan) (names : List AgentName) → names ≡ [] → next_agent plan names ≡ none
no_choice plan names e =
    ap (first_pending plan.required_agents) e ∙ first_pending-nil plan.required_agents

without-nil : (names : List AgentName) → names ≡ [] → without repair names ≡ []
unfolding without filter
without-nil names e = rw e refl

-- Where the handoffs are used up, the supervisor chooses nobody.
supervisor-stops :
    (limits : Limits) (state : MultiAgentState)
    → limits.max_handoffs ≤ state.handoff_count
    → (supervisor limits state).current_agent ≡ none
unfolding supervisor
supervisor-stops limits state h =
    let spent : leb limits.max_handoffs state.handoff_count ≡ true = ground arith in
    elim (Bool-cases (nat_beq (length state.pending_agents) 0)) [
      | inl empty ↦
          let nobody = no_names state.pending_agents empty in
          rw (spent, empty)
            (elim (Bool-cases (lacks_diagnosis state)) [
              | inl unknown_yet ↦
                  rw unknown_yet
                    (no_choice state.task_plan _ (without-nil state.pending_agents nobody))
              | inr known ↦ rw known (no_choice state.task_plan state.pending_agents nobody)
            ])
      | inr more ↦ rw (spent, more) refl
    ]

-- An end of the graph, after at most the given number of handoffs: the report is done, or the
-- failure is kept.
abbrev pub Ended : ℕ → Outcome → Type 0
Ended most out_of_fuel = ⊥
Ended most (finished state) =
    (state.handoff_count ≤ most)
    × ((contains state.completed_agents report ≡ true) ⊎ (is_none state.failure ≡ false))

make_limits-handoffs :
    (quality retries handoffs : ℕ) (limits : Limits)
    → make_limits quality retries handoffs ≡ ok limits
    → (limits.max_handoffs ≡ handoffs) × (0 < limits.max_handoffs)
unfolding make_limits
make_limits-handoffs quality retries handoffs limits made =
    let (_, h1) = raise_if-eq-ok (ltb quality 1 || ltb 3 quality) _ _ made in
    let (_, h2) = raise_if-eq-ok (ltb retries 1 || ltb 3 retries) _ _ h1 in
    let (within, h3) = raise_if-eq-ok (ltb handoffs 1 || ltb 32 handoffs) _ _ h2 in
    let same : handoffs ≡ limits.max_handoffs =
      ap (λ (l : Limits). l.max_handoffs) (ok_injective h3) in
    (sym same, subst (λ n. 0 < n) same (ground arith))

has_room :
    (limits : Limits) (state : MultiAgentState) (agent : AgentName)
    → (limits.max_handoffs ≤ state.handoff_count → state.current_agent ≡ none)
    → state.current_agent ≡ some agent
    → state.handoff_count < limits.max_handoffs
has_room limits state agent stops chosen =
    elim (Bool-cases (ltb state.handoff_count limits.max_handoffs)) [
      | inl below ↦ ground arith
      | inr spent ↦ cc (stops (ground arith))
    ]

module _ (plan : SupervisorPlan) (limits : Limits) where
  -- What follows a visit, for whatever the rest of the run is.
  Visited-Ended :
      (state : MultiAgentState) (agent : AgentName) (rest : MultiAgentState → Outcome) (next : Next)
      → Visited state next
      → state.current_agent ≡ some agent
      → IsReady plan state
      → state.handoff_count < limits.max_handoffs
      → ((s : MultiAgentState)
          → IsReady plan s
          → s.handoff_count ≡ state.handoff_count + 1
          → (limits.max_handoffs ≤ s.handoff_count → s.current_agent ≡ none)
          → Ended limits.max_handoffs (rest s))
      → Ended limits.max_handoffs
          (elim next [ to_end last ↦ finished last | to_supervisor s ↦ rest (supervisor limits s) ])
  Visited-Ended state agent rest (to_end last) (count, failure) chosen ready room go_on =
      (omega (arith, count, room), inr failure)
  Visited-Ended state agent rest (to_supervisor next) moved chosen ready room go_on =
      go_on (supervisor limits next) (visit-IsReady plan limits state next agent chosen moved ready)
        (supervisor-handoffs limits next ∙ moved.handed_on)
        (λ h. supervisor-stops limits next (rw (supervisor-handoffs limits next) at h))

module _ (plan : SupervisorPlan) (checked : IsOrdered plan.required_agents) (limits : Limits)
    (env : Environment) where
  dispatch-Ended :
      (fuel : ℕ) (state : MultiAgentState)
      → IsReady plan state
      → limits.max_handoffs ≤ state.handoff_count + fuel
      → state.handoff_count ≤ limits.max_handoffs
      → (limits.max_handoffs ≤ state.handoff_count → state.current_agent ≡ none)
      → Ended limits.max_handoffs (dispatch limits env fuel state)
  unfolding dispatch
  dispatch-Ended zero state ready enough within stops =
      let ends = stops (omega (arith, enough)) in
      rw (ends, dispatch) (within, IsReady-ended plan checked state ready ends)
  dispatch-Ended (suc fuel) state ready enough within stops =
      elim (Option-cases state.current_agent) [
        | inl ends ↦ rw (ends, dispatch) (within, IsReady-ended plan checked state ready ends)
        | inr (agent, chosen) ↦
            let room = has_room limits state agent stops chosen in
            rw (chosen, dispatch)
              (Visited-Ended plan limits state agent (dispatch limits env fuel)
                (visit limits (env state.handoff_count) agent state)
                (visit-Visited limits (env state.handoff_count) agent state) chosen ready room
                (λ s ready' count stops'.
                  dispatch-Ended fuel s ready' (omega (arith, count, enough))
                    (omega (arith, count, room)) stops'))
      ]

-- For a plan and limits that pass their checks, and whatever the callbacks answer or raise, a run
-- of the agents ends after at most the given number of handoffs, with the report done or a
-- failure kept.
pub run_agents-Ended :
    (value : Value) (plan : SupervisorPlan) (quality retries handoffs : ℕ) (limits : Limits)
    (env : Environment) (query incident : String)
    → validate_supervisor_plan value ≡ ok plan
    → make_limits quality retries handoffs ≡ ok limits
    → Ended handoffs (run_agents limits env (initial_state query incident plan))
unfolding run_agents initial_state
run_agents-Ended value plan quality retries handoffs limits env query incident valid made =
    let (most, some_handoff) = make_limits-handoffs quality retries handoffs limits made in
    subst (λ n. Ended n (run_agents limits env (initial_state query incident plan))) most
      (dispatch-Ended plan checked limits env limits.max_handoffs
        (initial_state query incident plan) (initial_state-IsReady plan checked query incident)
        (omega arith) (omega arith) (λ h. absurd (omega (arith, h, some_handoff))))
  where
    checked : IsOrdered plan.required_agents
    checked = (validate_supervisor_plan-IsOrdered value).at plan valid

-- The states that the supervisor leaves in a run.
pub data Reach (limits : Limits) (env : Environment) (first : MultiAgentState)
    : MultiAgentState → Type 0 where
  here : Reach limits env first first
  next :
      {state : MultiAgentState} {agent : AgentName} {handed : MultiAgentState}
      → Reach limits env first state
      → state.current_agent ≡ some agent
      → visit limits (env state.handoff_count) agent state ≡ to_supervisor handed
      → Reach limits env first (supervisor limits handed)

Reach-IsReady :
    (plan : SupervisorPlan) (limits : Limits) (env : Environment) (first : MultiAgentState)
    {state : MultiAgentState}
    → IsReady plan first
    → Reach limits env first state
    → IsReady plan state
Reach-IsReady plan limits env first ready here = ready
Reach-IsReady plan limits env first ready (next {state} {agent} {handed} reached chosen moves) =
    visit-IsReady plan limits state handed agent chosen
      (subst (Visited state) moves (visit-Visited limits (env state.handoff_count) agent state))
      (Reach-IsReady plan limits env first ready reached)

-- For a plan that passed its checks, the supervisor hands an incident to the repair agent only in
-- a state that has a result of the diagnosis, whatever the callbacks answered or raised before.
pub Reach-repair :
    (value : Value) (plan : SupervisorPlan) (limits : Limits) (env : Environment)
    (query incident : String) {state : MultiAgentState}
    → validate_supervisor_plan value ≡ ok plan
    → Reach limits env (initial_state query incident plan) state
    → state.current_agent ≡ some repair
    → is_none state.diagnosis_result ≡ false
Reach-repair value plan limits env query incident {state} valid reached chosen =
    let checked : IsOrdered plan.required_agents =
      (validate_supervisor_plan-IsOrdered value).at plan valid in
    IsReady-repair plan checked state
      (Reach-IsReady plan limits env (initial_state query incident plan)
        (initial_state-IsReady plan checked query incident) reached)
      chosen
