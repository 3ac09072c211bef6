-- ===== src/Agents/Tests.antt =====
-- The theorems of the agents' workflow at a concrete incident.
use networkops_ai_agent.Agents.Graph.{
  Environment, Limits, initial_state, make_limits, Outcome, finished, out_of_fuel, run_agents,
  visit, to_supervisor, supervisor,
}
use networkops_ai_agent.Agents.Graph.Ends.{Ended, run_agents-Ended, Reach, here, Reach-repair}
use networkops_ai_agent.Agents.Plan.{
  SupervisorPlan, diagnosis, repair, report, validate_supervisor_plan, bad_order, agent_eq,
  source_eq,
}
use networkops_ai_agent.Agents.Specialists.{Callbacks}
use networkops_ai_agent.Agents.State.{MultiAgentState, completion_update}
use networkops_ai_agent.Base.{
  List, String, [], ◌∷◌, true, ◌≡◌, ok, refl, err, none, some, false, Option, is_none, nat_eq,
  string_eq,
}
use networkops_ai_agent.Values.{Items, nil, cons, str, Fields, field, list, end, Value, dict, bool}

abbrev texts_of : List String → Items
texts_of [] = nil
texts_of (t ∷ ts) = cons (str t) (texts_of ts)

abbrev analysis_fields : Fields
analysis_fields = field "devices" (list (texts_of ("core-1" ∷ "edge-2" ∷ []))) (
    field "interfaces" (list (texts_of ("ge-0/0/1" ∷ []))) (
      field "symptom" (str "packet loss") (
        field "start_time" (str "2026-01-01T00:00:00Z") (
          field "end_time" (str "2026-01-01T01:00:00Z")
            (field "required_sources" (list nil) end)))))

abbrev plan_value : Value
plan_value = dict (
    field "analysis" (dict analysis_fields) (
      field "required_agents" (list (texts_of ("diagnosis" ∷ "repair" ∷ "report" ∷ [])))
        (field "requires_repair" (bool true) end)))

abbrev repair_plan_of : SupervisorPlan
repair_plan_of = record {
  analysis = analysis_fields;
  sources = [];
  required_agents = diagnosis ∷ repair ∷ report ∷ [];
  requires_repair = true;
}

validate-plan_value : validate_supervisor_plan plan_value ≡ ok repair_plan_of
unfolding validate_supervisor_plan
validate-plan_value = refl

abbrev unordered_plan : Value
unordered_plan = dict (
    field "analysis" (dict analysis_fields) (
      field "required_agents" (list (texts_of ("repair" ∷ "diagnosis" ∷ "report" ∷ [])))
        (field "requires_repair" (bool true) end)))

validate-unordered : validate_supervisor_plan unordered_plan ≡ err bad_order
unfolding validate_supervisor_plan
validate-unordered = refl

-- The evidence is correlated, and no report passes its check.
abbrev strict_calls : Callbacks
strict_calls = record {
  retrieve_topology = none;
  retrieve_logs = none;
  retrieve_metrics = none;
  retrieve_documents = none;
  grade_documents = none;
  rewrite_query = none;
  casefold = λ text. text;
  correlate = λ state documents.
      ok (record { cause = "optics"; confidence_percent = 70; contradicting_evidence = [] }, []);
  build_repair_plan = none;
  generate_report = λ state. ok (some "report");
  check_report =
      λ state. ok (some (record { approved = some false; feedback = some "no evidence" }));
}

abbrev strict : Environment
strict handoffs = strict_calls

abbrev usual : Limits
usual = record { max_quality_iterations = 3; max_handoffs = 12 }

abbrev first_state : MultiAgentState
unfolding initial_state
first_state = initial_state "loss on edge-2" "inc-7" repair_plan_of

usual-made : make_limits 3 3 12 ≡ ok usual
unfolding make_limits
usual-made = refl

abbrev ends_with : Outcome → Option String
ends_with (finished state) = state.failure
ends_with out_of_fuel = some "out of fuel"

run_agents-strict : ends_with (run_agents usual strict first_state) ≡ some "MAX_ITERATIONS_REACHED"
unfolding run_agents initial_state
run_agents-strict = refl

run_agents-Ended_example :
    Ended 12 (run_agents usual strict (initial_state "loss on edge-2" "inc-7" repair_plan_of))
run_agents-Ended_example =
    run_agents-Ended plan_value repair_plan_of 3 3 12 usual strict "loss on edge-2" "inc-7"
      validate-plan_value usual-made

abbrev diagnosed_state : MultiAgentState
unfolding initial_state completion_update
diagnosed_state = record (completion_update first_state diagnosis) {
  diagnosis_iteration = 1;
  iteration = 1;
  diagnosis_result = some (record {
    summary = "core-1 到 edge-2 出现packet loss";
    hypotheses =
        record { cause = "optics"; confidence_percent = 70; contradicting_evidence = [] } ∷ [];
    evidence_refs = [];
    remaining_uncertainties = [];
  });
}

visit-diagnosis :
    visit usual strict_calls diagnosis (initial_state "loss on edge-2" "inc-7" repair_plan_of)
    ≡ to_supervisor diagnosed_state
unfolding visit initial_state completion_update
visit-diagnosis = refl

Reach-diagnosed :
    Reach usual strict
      (initial_state "loss on edge-2" "inc-7" repair_plan_of)
      (supervisor usual diagnosed_state)
unfolding initial_state
Reach-diagnosed = Reach.next here refl visit-diagnosis

chosen-repair : (supervisor usual diagnosed_state).current_agent ≡ some repair
unfolding supervisor initial_state completion_update
chosen-repair = refl

Reach-repair_example : is_none (supervisor usual diagnosed_state).diagnosis_result ≡ false
Reach-repair_example =
    Reach-repair plan_value repair_plan_of usual strict "loss on edge-2" "inc-7" validate-plan_value
      Reach-diagnosed chosen-repair
