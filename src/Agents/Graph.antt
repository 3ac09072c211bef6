-- ===== src/Agents/Graph.antt =====
-- .../multi_agent/workflow.py: the supervisor, the handler of a node's exception, and the graph that
-- goes from the supervisor to an agent and back. The retries of a node on a connection error belong
-- to the graph library: an answer is the one after the last retry. A failure is known by its code.
pub mod Moves
pub mod Visits
pub mod Ready
pub mod Ends
use networkops_ai_agent.Base.Dict
use networkops_ai_agent.Agents.Plan.{
  AgentName, topology, logs, diagnosis, repair, report, SupervisorPlan, first_pending, next_agent,
  PlanError, validate_supervisor_plan, agent_eq, source_eq,
}
use networkops_ai_agent.Agents.Specialists.{
  Answer, Callbacks, run_topology_agent, run_log_agent, run_diagnosis_agent, run_repair_agent,
  run_report_agent,
}
use networkops_ai_agent.Agents.State.{MultiAgentState, without}
use networkops_ai_agent.Base.{
  String, ℕ, Result, raise_if, ltb, ◌||◌, ok, [], none, err, is_blank, if◌then◌else◌, is_empty,
  strip, Bool, contains, ◌&&◌, is_none, not, nat_beq, length, leb, some, List, ◌++◌, ◌∷◌, ◌+◌, ◌<>◌,
  zero, suc, ◌>>=◌, ◌>>◌, nat_eq, string_eq,
}
use networkops_ai_agent.Base.Dict.{Dict}
use networkops_ai_agent.Values.{end, nil, Value}

abbrev pub fallback_answer : String
fallback_answer = "多 Agent 诊断未能完成；未执行任何网络变更，请人工检查后重试。"

-- `_AGENT_TO_NODE`
abbrev pub node_name : AgentName → String
node_name topology = "TopologyAgent"
node_name logs = "LogAgent"
node_name diagnosis = "DiagnosisAgent"
node_name repair = "RepairAgent"
node_name report = "ReportAgent"

-- The bounds that the workflow is made with.
pub record Limits : Type 0 where
  pub max_quality_iterations : ℕ
  pub max_handoffs : ℕ

-- The check of the bounds.
unfoldable pub make_limits : ℕ → ℕ → ℕ → Result String Limits
make_limits quality retries handoffs = do
  raise_if (ltb quality 1 || ltb 3 quality) "max_quality_iterations must be between 1 and 3"
  raise_if (ltb retries 1 || ltb 3 retries) "max_retry_attempts must be between 1 and 3"
  raise_if (ltb handoffs 1 || ltb 32 handoffs) "max_handoffs must be between 1 and 32"
  ok (record { max_quality_iterations = quality; max_handoffs = handoffs })

-- The state that the supervisor makes of a plan, at its first call.
unfoldable pub initial_state : String → String → SupervisorPlan → MultiAgentState
unfolding first_pending
initial_state query incident plan = record {
  incident_id = incident;
  user_query = query;
  rewritten_query = query;
  documents = [];
  relevance_score = none;
  grading_feedback = none;
  topology_context = end;
  metrics = end;
  answer = "";
  iteration = 0;
  failure = none;
  task_plan = plan;
  pending_agents = plan.required_agents;
  completed_agents = [];
  current_agent = next_agent plan plan.required_agents;
  device_evidence = end;
  log_evidence = nil;
  diagnosis_result = none;
  repair_plan = none;
  report_text = "";
  agent_errors = [];
  handoff_count = 0;
  diagnosis_iteration = 0;
  report_iteration = 0;
  report_feedback = none;
}

abbrev plan_answer : Result PlanError SupervisorPlan → Answer SupervisorPlan
plan_answer (ok plan) = ok plan
plan_answer (err e) = err "ValueError: Supervisor plan"

-- The first call of the supervisor, with the id that a new incident gets. The planner is outside
-- code; where it raises, the graph ends.
unfoldable pub start :
    (String → String → Answer Value) → String → String → String → Answer MultiAgentState
unfolding initial_state validate_supervisor_plan is_blank
start plan_incident fresh query given = do
  raise_if (is_blank query) "ValueError: user_query must be a non-empty string"
  let incident = if is_empty given then fresh else given
  raise_if (is_blank incident) "ValueError: incident_id must be a non-empty string"
  value ← plan_incident (strip query) (strip incident)
  plan ← plan_answer (validate_supervisor_plan value)
  ok (initial_state (strip query) (strip incident) plan)

abbrev or_fallback : String → String
or_fallback text = if is_empty text then fallback_answer else text

-- The diagnosis is done without a result, and a repair waits for it.
abbrev pub lacks_diagnosis : MultiAgentState → Bool
lacks_diagnosis state =
    contains state.pending_agents repair
    && contains state.completed_agents diagnosis
    && is_none state.diagnosis_result

abbrev with_error : MultiAgentState → AgentName → String → Dict AgentName String
with_error state agent message = Dict.put state.agent_errors agent message

abbrev pub choose : MultiAgentState → MultiAgentState
choose state = record state { current_agent = next_agent state.task_plan state.pending_agents }

abbrev pub has_pending : MultiAgentState → Bool
has_pending state = not (nat_beq (length state.pending_agents) 0)

-- `supervisor`, after its first call
unfoldable pub supervisor : Limits → MultiAgentState → MultiAgentState
unfolding contains without first_pending Dict.put
supervisor limits state =
    if leb limits.max_handoffs state.handoff_count && has_pending state
    then record state {
      pending_agents = [];
      current_agent = none;
      answer = or_fallback state.answer;
      failure = some "MAX_HANDOFFS_REACHED";
    }
    else if lacks_diagnosis state
    then choose (record state {
      pending_agents = without repair state.pending_agents;
      agent_errors = with_error state repair "skipped because diagnosis_result is unavailable";
    })
    else choose state

-- Where the graph goes after a node.
pub data Next : Type 0 where
  to_supervisor to_end : MultiAgentState → Next

abbrev pub done_or_failed : MultiAgentState → AgentName → List AgentName
done_or_failed state agent =
    if contains state.completed_agents agent
    then state.completed_agents
    else state.completed_agents ++ agent ∷ []

-- `handle_error`, for a node of an agent
unfoldable pub handle_error : MultiAgentState → AgentName → String → Next
unfolding contains without Dict.put
handle_error state report message = to_end (record state {
  agent_errors = with_error state report message;
  pending_agents = without report state.pending_agents;
  current_agent = none;
  handoff_count = state.handoff_count + 1;
  answer = or_fallback state.answer;
  report_text = or_fallback state.report_text;
  failure = some message;
})
handle_error state diagnosis message = to_supervisor (record state {
  agent_errors =
      Dict.put (with_error state diagnosis message) repair "skipped because DiagnosisAgent failed";
  pending_agents = without repair (without diagnosis state.pending_agents);
  completed_agents = done_or_failed state diagnosis;
  current_agent = none;
  handoff_count = state.handoff_count + 1;
})
handle_error state agent message = to_supervisor (record state {
  agent_errors = with_error state agent message;
  pending_agents = without agent state.pending_agents;
  completed_agents = done_or_failed state agent;
  current_agent = none;
  handoff_count = state.handoff_count + 1;
})

-- The node of an agent.
unfoldable pub run_agent : Limits → Callbacks → AgentName → MultiAgentState → Answer MultiAgentState
unfolding run_topology_agent run_log_agent run_diagnosis_agent run_repair_agent run_report_agent
run_agent limits calls topology state = run_topology_agent calls state
run_agent limits calls logs state = run_log_agent calls state
run_agent limits calls diagnosis state =
    run_diagnosis_agent limits.max_quality_iterations calls state
run_agent limits calls repair state = run_repair_agent calls state
run_agent limits calls report state = run_report_agent limits.max_quality_iterations calls state

-- A node, with the handler of its exception.
unfoldable pub visit : Limits → Callbacks → AgentName → MultiAgentState → Next
unfolding run_agent handle_error
visit limits calls agent state = elim (run_agent limits calls agent state) [
  | ok next ↦ to_supervisor next
  | err message ↦ handle_error state agent (node_name agent <> (": " <> message))
]

pub data Outcome : Type 0 where
  finished : MultiAgentState → Outcome
  out_of_fuel : Outcome

-- The callbacks as they answer at a given handoff.
abbrev pub Environment : Type 0
Environment = ℕ → Callbacks

-- The graph from a state that the supervisor left. One unit of fuel for each agent that is visited.
unfoldable pub dispatch : Limits → Environment → ℕ → MultiAgentState → Outcome
unfolding visit supervisor
dispatch limits env zero state = elim state.current_agent [
  | none ↦ finished state
  | some agent ↦ out_of_fuel
]
dispatch limits env (suc fuel) state = elim state.current_agent [
  | none ↦ finished state
  | some agent ↦ elim (visit limits (env state.handoff_count) agent state) [
    | to_end last ↦ finished last
    | to_supervisor next ↦ dispatch limits env fuel (supervisor limits next)
  ]
]

-- The workflow from a plan: the handoffs are bounded by the limit.
unfoldable pub run_agents : Limits → Environment → MultiAgentState → Outcome
unfolding dispatch
run_agents limits env state = dispatch limits env limits.max_handoffs state
