-- ===== src/Agents/State.antt =====
-- .../multi_agent/state.py: the state that the agents share, and the check of a repair plan.
use networkops_ai_agent.Agents.Plan.{SupervisorPlan, AgentName, some_texts, agent_eq, source_eq}
use networkops_ai_agent.Base.{
  String, Option, ℕ, List, filter, not, ◌==◌, ◌++◌, ◌∷◌, [], none, ◌+◌, Bool, any, occurs_in, false,
  ◌||◌, Result, ok, contains, err, or_raise, raise_if, is_none, ◌>>=◌, ◌>>◌, nat_eq, string_eq,
}
use networkops_ai_agent.Base.Dict.{Dict}
use networkops_ai_agent.Enterprise.Approval.{all_levels, as_dict, as_bool}
use networkops_ai_agent.Values.{Fields, Items, nil, cons, str, Value, list, dict, get_field}

-- A retrieved document: the text, and the score of its metadata in thousandths.
pub record Document : Type 0 where
  pub page_content : String
  pub relevance_score : Option ℕ

pub record Hypothesis : Type 0 where
  pub cause : String
  pub confidence_percent : ℕ
  pub contradicting_evidence : List String

pub record DiagnosisResult : Type 0 where
  pub summary : String
  pub hypotheses : List Hypothesis
  pub evidence_refs : List String
  pub remaining_uncertainties : List String

-- `MultiAgentState`, less the query's intent and the checker's feedback, which stay as they were
-- set at the start. A score is a number of thousandths.
pub record MultiAgentState : Type 0 where
  pub incident_id : String
  pub user_query : String
  pub rewritten_query : String
  pub documents : List Document
  pub relevance_score : Option ℕ
  pub grading_feedback : Option String
  pub topology_context : Fields
  pub metrics : Fields
  pub answer : String
  pub iteration : ℕ
  pub failure : Option String
  pub task_plan : SupervisorPlan
  pub pending_agents : List AgentName
  pub completed_agents : List AgentName
  pub current_agent : Option AgentName
  pub device_evidence : Fields
  pub log_evidence : Items
  pub diagnosis_result : Option DiagnosisResult
  pub repair_plan : Option Fields
  pub report_text : String
  pub agent_errors : Dict AgentName String
  pub handoff_count : ℕ
  pub diagnosis_iteration : ℕ
  pub report_iteration : ℕ
  pub report_feedback : Option String

-- `[name for name in names if name != agent]`
unfoldable pub without : AgentName → List AgentName → List AgentName
unfolding filter
without agent names = filter (λ name. not (name == agent)) names

-- `completion_update`
unfoldable pub completion_update : MultiAgentState → AgentName → MultiAgentState
unfolding without
completion_update state agent = record state {
  pending_agents = without agent state.pending_agents;
  completed_agents = state.completed_agents ++ agent ∷ [];
  current_agent = none;
  handoff_count = state.handoff_count + 1;
}

abbrev pub unsafe_claims : List String
unsafe_claims = "已自动执行" ∷ "自动执行修复" ∷ "已重启" ∷ "已修改配置" ∷ "已更换" ∷ []

-- A step of the plan claims that something was executed.
unfoldable pub claims_execution : Items → Bool
unfolding any occurs_in
claims_execution nil = false
claims_execution (cons (str step) steps) =
    any (λ term. occurs_in term step) unsafe_claims || claims_execution steps
claims_execution (cons _ steps) = claims_execution steps

abbrev is_level : Value → Result String Bool
is_level (str s) = ok (contains all_levels s)
is_level (list items) = err "TypeError: unhashable type"
is_level (dict fields) = err "TypeError: unhashable type"
is_level _ = ok false

abbrev not_executed_yet : Value → Bool
not_executed_yet (str s) = s == "not_executed"
not_executed_yet _ = false

abbrev steps_of : Value → Items
steps_of (list items) = items
steps_of _ = nil

-- `validate_repair_plan`
unfoldable pub validate_repair_plan : Value → Result String Fields
unfolding get_field some_texts claims_execution contains
validate_repair_plan value = do
  plan ← or_raise (as_dict value) "ValueError: repair plan must be a dictionary"
  known ← is_level (get_field plan "risk_level")
  raise_if (not known) "ValueError: repair plan risk_level is invalid"
  raise_if (is_none (as_bool (get_field plan "requires_human_approval")))
      "ValueError: repair plan requires_human_approval must be a bool"
  raise_if (not (not_executed_yet (get_field plan "execution_status")))
      "ValueError: repair plan execution_status must be not_executed"
  raise_if (not (some_texts (get_field plan "steps")))
      "ValueError: repair plan steps must contain non-empty strings"
  raise_if (not (some_texts (get_field plan "verification_steps")))
      "ValueError: repair plan verification_steps must contain non-empty strings"
  raise_if (not (some_texts (get_field plan "rollback_conditions")))
      "ValueError: repair plan rollback_conditions must contain non-empty strings"
  raise_if (claims_execution (steps_of (get_field plan "steps")))
      "ValueError: repair plan must not claim execution"
  ok plan
