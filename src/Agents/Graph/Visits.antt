-- ===== src/Agents/Graph/Visits.antt =====
-- A visit of an agent, with what the handler makes of its exception.
use networkops_ai_agent.Agents.Graph.{
  Next, to_supervisor, to_end, done_or_failed, handle_error, Limits, visit, run_agent, node_name,
}
use networkops_ai_agent.Agents.Graph.Moves.{
  Moved, contains-add, keeps_report, Change, agent-Change, contains-without, run_agent-Moved,
}
use networkops_ai_agent.Agents.Plan.{
  AgentName, report, diagnosis, repair, topology, logs, agent_eq, source_eq,
}
use networkops_ai_agent.Agents.Specialists.{Callbacks, Answer}
use networkops_ai_agent.Agents.State.{MultiAgentState, without}
use networkops_ai_agent.Base.{
  ◌≡◌, ◌+◌, is_none, false, contains, true, Bool-cases, inl, inr, List, refl, String, Returns, ok,
  err, ◌<>◌, nat_eq, string_eq,
}

-- A visit: the state that it hands back to the supervisor, or the end with a failure.
abbrev pub Visited : MultiAgentState → Next → Type 0
Visited state (to_supervisor next) = Moved state next
Visited state (to_end last) =
    (last.handoff_count ≡ state.handoff_count + 1) × (is_none last.failure ≡ false)

contains-done :
    (state : MultiAgentState) (agent : AgentName)
    → contains (done_or_failed state agent) agent ≡ true
contains-done state agent = elim (Bool-cases (contains state.completed_agents agent)) [
  | inl done ↦ rw done done
  | inr new ↦ rw new (contains-add state.completed_agents agent)
]

done-keeps_report :
    (state : MultiAgentState) (agent : AgentName)
    → contains state.completed_agents report ≡ true
    → contains (done_or_failed state agent) report ≡ true
done-keeps_report state agent h = elim (Bool-cases (contains state.completed_agents agent)) [
  | inl done ↦ rw done h
  | inr new ↦ rw new (keeps_report state.completed_agents agent h)
]

failed-Moved :
    (state : MultiAgentState) (agent : AgentName)
    → (agent ≡ diagnosis → is_none state.diagnosis_result ≡ false)
    → Change state.task_plan state.task_plan state.handoff_count
        (state.handoff_count + 1)
        (is_none state.diagnosis_result)
        (is_none state.diagnosis_result)
        state.pending_agents
        (without agent state.pending_agents)
        state.completed_agents
        (done_or_failed state agent)
failed-Moved state agent found =
    agent-Change state.task_plan state.handoff_count _ _ agent state.pending_agents
      state.completed_agents _ (λ h. h) (λ h. found) (contains-done state agent)
      (done-keeps_report state agent)

no_repair :
    (names : List AgentName) → contains (without repair (without diagnosis names)) repair ≡ false
no_repair names = contains-without repair (without diagnosis names) repair

report_stays :
    (names : List AgentName)
    → contains names report ≡ true
    → contains (without repair (without diagnosis names)) report ≡ true
report_stays names h =
    rw
      (
        contains-without repair (without diagnosis names) report,
        contains-without diagnosis names report,
      )
      h

-- A diagnosis that failed takes the repair with it.
no_diagnosis-Moved :
    (state : MultiAgentState)
    → Change state.task_plan state.task_plan state.handoff_count
        (state.handoff_count + 1)
        (is_none state.diagnosis_result)
        (is_none state.diagnosis_result)
        state.pending_agents
        (without repair (without diagnosis state.pending_agents))
        state.completed_agents
        (done_or_failed state diagnosis)
no_diagnosis-Moved state = record {
  handed_on = refl;
  kept_plan = refl;
  diagnosed = λ h. h;
  repairs = λ h. cc (no_repair state.pending_agents);
  waits = λ h k. cc (no_repair state.pending_agents);
  reports = λ h. inl (report_stays state.pending_agents h);
  kept_report = done-keeps_report state diagnosis;
}

handle_error-Visited :
    (state : MultiAgentState) (agent : AgentName) (message : String)
    → Visited state (handle_error state agent message)
unfolding handle_error
handle_error-Visited state report message = (refl, refl)
handle_error-Visited state topology message = failed-Moved state topology (λ e. cc e)
handle_error-Visited state logs message = failed-Moved state logs (λ e. cc e)
handle_error-Visited state repair message = failed-Moved state repair (λ e. cc e)
handle_error-Visited state diagnosis message = no_diagnosis-Moved state

pub visit-Visited :
    (limits : Limits) (calls : Callbacks) (agent : AgentName) (state : MultiAgentState)
    → Visited state (visit limits calls agent state)
unfolding visit
visit-Visited limits calls agent state =
    answered (run_agent limits calls agent state) (run_agent-Moved limits calls agent state)
  where
    answered :
        (answer : Answer MultiAgentState)
        → Returns (Moved state) answer
        → Visited state (elim answer [
          | ok next ↦ to_supervisor next
          | err message ↦ handle_error state agent (node_name agent <> (": " <> message))
        ])
    answered (ok next) moved = moved.at next refl
    answered (err message) moved = handle_error-Visited state agent _
