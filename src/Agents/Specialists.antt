-- ===== src/Agents/Specialists.antt =====
-- .../multi_agent/topology_agent.py, log_agent.py, diagnosis_agent.py, repair_agent.py and
-- report_agent.py: what one run of a specialist makes of the state. What they call is outside code:
-- each call answers a value or raises an exception, which is known by its text, and may answer
-- otherwise the next time. A failure is known by its code. The correlation of the evidence, the default report and its default
-- check stand among these calls.
use networkops_ai_agent.Agents.Plan.{
  topology, logs, monitoring_source, knowledge_source, diagnosis, repair, report, agent_eq,
  source_eq,
}
use networkops_ai_agent.Agents.State.{
  Document, MultiAgentState, Hypothesis, completion_update, validate_repair_plan,
}
use networkops_ai_agent.Base.{
  Option, ℕ, String, Bool, Result, List, or_raise, ok, not, false, true, is_none, ◌&&◌,
  if◌then◌else◌, some, raise_if, [], ◌∷◌, max, or_else, none, is_blank, ltb, join, words, ◌==◌,
  strip, contains, ◌<>◌, ◌++◌, ◌+◌, leb, ◌>>=◌, ◌>>◌, nat_eq, string_eq,
}
use networkops_ai_agent.Base.Dict.{values}
use networkops_ai_agent.Enterprise.Approval.{as_dict, as_list}
use networkops_ai_agent.Policy.Models.{effect_eq, operation_eq, risk_eq}
use networkops_ai_agent.Values.{
  Fields, Value, bool, Items, nil, cons, has_field, get_field, str, list, dict, field, end,
}

-- What a grader answered: the score in thousandths where it is a number that is not negative, and
-- the feedback where it is a text.
pub record Grade : Type 0 where
  pub relevance_score : Option ℕ
  pub feedback : Option String

-- What a checker of the report answered.
pub record Check : Type 0 where
  pub approved : Option Bool
  pub feedback : Option String

abbrev pub Answer : Type 0 → Type 0
Answer A = Result String A

-- The callbacks of the workflow, none where it was given none; a value of another type than the
-- one that is wanted is none in the answer.
pub record Callbacks : Type 0 where
  pub retrieve_topology : Option (Fields → Answer (Option Fields))
  pub retrieve_logs : Option (Fields → Answer (Option Fields))
  pub retrieve_metrics : Option (Fields → Fields → Answer (Option Fields))
  pub retrieve_documents : Option (String → Answer (Option (List Document)))
  pub grade_documents : Option (MultiAgentState → Answer (Option Grade))
  pub rewrite_query : Option (MultiAgentState → Answer (Option String))
  pub casefold : String → String
  pub correlate : MultiAgentState → List Document → Answer (Hypothesis × List String)
  pub build_repair_plan : Option (MultiAgentState → Answer Value)
  pub generate_report : MultiAgentState → Answer (Option String)
  pub check_report : MultiAgentState → Answer (Option Check)

-- `run_topology_agent`
unfoldable pub run_topology_agent : Callbacks → MultiAgentState → Answer MultiAgentState
unfolding completion_update
run_topology_agent calls state = do
  retrieve ← or_raise calls.retrieve_topology "ValueError: retrieve_topology is required"
  result ← retrieve state.task_plan.analysis
  context ← or_raise result "ValueError: retrieve_topology must return a dict"
  ok (record (completion_update state topology) { topology_context = context })

abbrev is_false : Value → Bool
is_false (bool b) = not b
is_false _ = false

unfoldable pub all_dicts : Items → Bool
all_dicts nil = true
all_dicts (cons v items) = not (is_none (as_dict v)) && all_dicts items

abbrev records_of : Fields → Option Items
records_of result =
    if has_field result "records" then as_list (get_field result "records") else some nil

-- `run_log_agent`
unfoldable pub run_log_agent : Callbacks → MultiAgentState → Answer MultiAgentState
unfolding completion_update all_dicts get_field has_field
run_log_agent calls state = do
  retrieve ← or_raise calls.retrieve_logs "ValueError: retrieve_logs is required"
  answer ← retrieve state.task_plan.analysis
  result ← or_raise answer "ValueError: retrieve_logs must return a dict"
  raise_if (is_false (get_field result "ok")) "ValueError: log query failed"
  records ← or_raise (records_of result) "ValueError: retrieve_logs records must be a list"
  raise_if (not (all_dicts records)) "ValueError: retrieve_logs records must be a list"
  ok (record (completion_update state logs) { log_evidence = records })

-- `_grade_documents`: the greatest score of the documents, or the grader's.
unfoldable pub best_score : List Document → ℕ
best_score [] = 0
best_score (document ∷ documents) = max (or_else document.relevance_score 0) (best_score documents)

abbrev pub asked_grade : Callbacks → MultiAgentState → Answer (Option Grade)
unfolding best_score
asked_grade calls state = elim calls.grade_documents [
  | none ↦ ok (
      some (record {
        relevance_score = some (best_score state.documents);
        feedback = some "document metadata relevance score";
      }))
  | some grader ↦ grader state
]

unfoldable pub grade_documents : Callbacks → MultiAgentState → Answer (ℕ × String)
unfolding is_blank best_score
grade_documents calls state = do
  answer ← asked_grade calls state
  grade ← or_raise answer "ValueError: grade_documents must return a DocumentGradeResult"
  score ← or_raise grade.relevance_score "ValueError: relevance_score must be between 0 and 1"
  raise_if (ltb 1000 score) "ValueError: relevance_score must be between 0 and 1"
  feedback ← or_raise grade.feedback "ValueError: low relevance feedback must be non-empty"
  raise_if (ltb score 800 && is_blank feedback)
      "ValueError: low relevance feedback must be non-empty"
  ok (score, feedback)

-- `_normalize`
unfoldable pub normalize : Callbacks → String → String
unfolding join words
normalize calls query = calls.casefold (join " " (words query))

-- The query that is asked next, after documents of a low relevance. The rewriter is given the state
-- that was graded, which does not have the grade yet.
unfoldable pub rewritten : Callbacks → MultiAgentState → MultiAgentState → Answer String
unfolding is_blank normalize
rewritten calls state found = do
  rewrite ← or_raise calls.rewrite_query "ValueError: rewrite_query is required"
  answer ← rewrite (record found {
    relevance_score = state.relevance_score;
    grading_feedback = state.grading_feedback;
  })
  query ← or_raise answer "ValueError: rewrite_query must return a non-empty string"
  raise_if (is_blank query) "ValueError: rewrite_query must return a non-empty string"
  raise_if (normalize calls query == normalize calls state.rewritten_query)
      "ValueError: rewrite_query must return a different query"
  ok (strip query)

abbrev pub low_relevance : Option ℕ → Bool
low_relevance none = false
low_relevance (some score) = ltb score 800

-- The metrics, where the plan wants them.
unfoldable pub with_metrics : Callbacks → MultiAgentState → Answer MultiAgentState
unfolding contains
with_metrics calls state =
    if contains state.task_plan.sources monitoring_source
    then (do
      retrieve ← or_raise calls.retrieve_metrics "ValueError: retrieve_metrics is required"
      answer ← retrieve state.task_plan.analysis state.topology_context
      values ← or_raise answer "ValueError: retrieve_metrics must return a dict"
      ok (record state { device_evidence = values; metrics = values }))
    else ok state

-- The documents with their grade, where the plan wants them.
unfoldable pub with_documents : Callbacks → MultiAgentState → Answer MultiAgentState
unfolding contains grade_documents
with_documents calls state =
    if contains state.task_plan.sources knowledge_source
    then (do
      retrieve ← or_raise calls.retrieve_documents "ValueError: retrieve_documents is required"
      answer ← retrieve state.rewritten_query
      found ← or_raise answer "ValueError: retrieve_documents must return list[Document]"
      (score, feedback) ← grade_documents calls (record state { documents = found })
      ok (record state {
        documents = found;
        relevance_score = some score;
        grading_feedback = some feedback;
      }))
    else ok state

abbrev text_of : Value → String
text_of (str s) = s
text_of _ = ""

unfoldable pub first_text : Items → String
first_text nil = ""
first_text (cons v items) = text_of v

unfoldable pub last_text : Items → String
last_text nil = ""
last_text (cons v nil) = text_of v
last_text (cons v (cons w items)) = last_text (cons w items)

abbrev devices_of : MultiAgentState → Items
devices_of state = or_else (as_list (get_field state.task_plan.analysis "devices")) nil

abbrev first_device : MultiAgentState → String
first_device state = first_text (devices_of state)

abbrev last_device : MultiAgentState → String
last_device state = last_text (devices_of state)

abbrev symptom_of : MultiAgentState → String
symptom_of state = text_of (get_field state.task_plan.analysis "symptom")

abbrev plan_summary : MultiAgentState → String
plan_summary state =
    first_device state <> (" 到 " <> (last_device state <> (" 出现" <> symptom_of state)))

-- The diagnosis that the evidence gives.
unfoldable pub concluded : Callbacks → MultiAgentState → Answer MultiAgentState
unfolding completion_update get_field first_text last_text
concluded calls state = do
  let low = low_relevance state.relevance_score
  (hypothesis, references) ← calls.correlate state (if low then [] else state.documents)
  ok (record (completion_update state diagnosis) {
    diagnosis_result = some (record {
      summary = plan_summary state;
      hypotheses = hypothesis ∷ [];
      evidence_refs = references;
      remaining_uncertainties =
          hypothesis.contradicting_evidence
          ++ (if low then "知识库检索相关度未达到 0.8，结论仅基于其余证据。" ∷ [] else []);
    });
  })

-- The documents are graded too low, and the attempts are not used up.
abbrev pub asks_again : MultiAgentState → ℕ → ℕ → Bool
asks_again state attempt limit =
    contains state.task_plan.sources knowledge_source
    && low_relevance state.relevance_score
    && ltb attempt limit

-- Another attempt with a rewritten query, or the diagnosis.
unfoldable pub asked_or_concluded :
    Callbacks → MultiAgentState → MultiAgentState → Bool → Answer MultiAgentState
unfolding rewritten concluded
asked_or_concluded calls state found false = concluded calls found
asked_or_concluded calls state found true = do
  query ← rewritten calls state found
  ok (record found {
    rewritten_query = query;
    current_agent = none;
    handoff_count = found.handoff_count + 1;
  })

-- `run_diagnosis_agent`
unfoldable pub run_diagnosis_agent : ℕ → Callbacks → MultiAgentState → Answer MultiAgentState
unfolding with_metrics with_documents asked_or_concluded contains
run_diagnosis_agent limit calls state = do
  let attempt = state.diagnosis_iteration + 1
  measured ← with_metrics calls (record state {
    diagnosis_iteration = attempt;
    iteration = max attempt state.report_iteration;
  })
  found ← with_documents calls measured
  asked_or_concluded calls state found (asks_again found attempt limit)

abbrev items_of_texts : List String → Items
items_of_texts [] = nil
items_of_texts (t ∷ ts) = cons (str t) (items_of_texts ts)

abbrev texts : List String → Value
texts parts = list (items_of_texts parts)

-- `default_repair_plan`, for a state that has a diagnosis.
abbrev pub default_repair_plan : Value
default_repair_plan = dict (
    field "risk_level" (str "high") (
      field "requires_human_approval" (bool true) (
        field "steps"
          (texts (
            "只读检查两端接口 CRC、输入错误增量和接收光功率。" ∷ "在维护窗口并获得人工批准后，由运维人员更换可疑光模块。" ∷ "记录变更对象、时间、执行人和替换模块序列号。"
            ∷ []))
          (field "verification_steps" (texts ("验证链路状态、丢包率、CRC 增量、光功率和业务连通性。" ∷ [])) (
            field "rollback_conditions" (texts ("更换后链路不稳定或错误计数继续增长时，停止变更并恢复原模块。" ∷ []))
              (field "execution_status" (str "not_executed") end))))))

-- `run_repair_agent`
unfoldable pub run_repair_agent : Callbacks → MultiAgentState → Answer MultiAgentState
unfolding completion_update validate_repair_plan
run_repair_agent calls state = do
  raise_if (is_none state.diagnosis_result) "ValueError: diagnosis_result is required"
  value ← elim calls.build_repair_plan [ none ↦ ok default_repair_plan | some build ↦ build state ]
  plan ← validate_repair_plan value
  ok (record (completion_update state repair) { repair_plan = some plan })

-- The state after a report of the given text and the answer of its check.
unfoldable pub reported : ℕ → MultiAgentState → String → Bool → String → Answer MultiAgentState
unfolding completion_update is_blank
reported limit state text approved feedback = do
  let attempt = state.report_iteration + 1
  let updated = record state {
    report_text = text;
    answer = text;
    report_iteration = attempt;
    iteration = max attempt state.diagnosis_iteration;
    report_feedback = if approved then none else some feedback;
    current_agent = none;
  }
  raise_if (not approved && is_blank feedback)
      "ValueError: report feedback must be non-empty when rejected"
  ok (
      if approved
      then completion_update updated report
      else if leb limit attempt
      then record (completion_update updated report) { failure = some "MAX_ITERATIONS_REACHED" }
      else record updated { handoff_count = state.handoff_count + 1 })

-- `run_report_agent`
unfoldable pub run_report_agent : ℕ → Callbacks → MultiAgentState → Answer MultiAgentState
unfolding reported is_blank
run_report_agent limit calls state = do
  answer ← calls.generate_report state
  text ← or_raise answer "ValueError: generate_report must return a non-empty string"
  raise_if (is_blank text) "ValueError: generate_report must return a non-empty string"
  result ← calls.check_report (record state { report_text = strip text; answer = strip text })
  check ← or_raise result "ValueError: check_report must return a CheckerResult"
  approved ← or_raise check.approved "ValueError: CheckerResult requires bool approved"
  feedback ← or_raise check.feedback "ValueError: CheckerResult requires str feedback"
  reported limit state (strip text) approved feedback
