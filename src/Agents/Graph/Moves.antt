-- ===== src/Agents/Graph/Moves.antt =====
-- What the nodes of the agents change of the state.
use networkops_ai_agent.Agents.Graph.{Limits, run_agent}
use networkops_ai_agent.Agents.Plan.{
  AgentName, SupervisorPlan, repair, diagnosis, report, topology, logs, monitoring_source,
  knowledge_source, agent_eq, source_eq,
}
use networkops_ai_agent.Agents.Specialists.{
  Callbacks, run_topology_agent, run_log_agent, run_repair_agent, with_metrics, with_documents,
  concluded, asked_or_concluded, reported, run_report_agent, run_diagnosis_agent, asks_again,
}
use networkops_ai_agent.Agents.State.{without, MultiAgentState, completion_update}
use networkops_ai_agent.Base.{
  List, contains, ◌≡◌, not, ◌==◌, ◌&&◌, contains-filter, true, ◌⊎◌, Bool-cases, inl, inr, eq_iff,
  ◌++◌, ◌∷◌, [], arith, contains-append, eq_refl, ℕ, Bool, ◌+◌, false, is_none, refl, sym, none,
  Returns, returns_rules, ap, Returns-after, Returns-ok, String, leb, Returns-bind, nat_eq,
  string_eq,
}

pub contains-without :
    (agent : AgentName) (names : List AgentName) (a : AgentName)
    → contains (without agent names) a ≡ (not (a == agent) && contains names a)
unfolding without
contains-without agent names a = contains-filter (λ name. not (name == agent)) names a

-- An agent is the one that is taken out, or stays queued.
pub without_or_pending :
    (agent : AgentName) (names : List AgentName) (a : AgentName)
    → contains names a ≡ true
    → (contains (without agent names) a ≡ true) ⊎ (a ≡ agent)
without_or_pending agent names a h = elim (Bool-cases (a == agent)) [
  | inl same ↦ inr ((eq_iff a agent).0 same)
  | inr other ↦ inl (rw (contains-without agent names a, other) h)
]

pub contains-add :
    (names : List AgentName) (agent : AgentName) → contains (names ++ agent ∷ []) agent ≡ true
unfolding contains
contains-add names agent = ground (arith, contains-append names (agent ∷ []) agent, eq_refl agent)

-- A visit of an agent hands on once, keeps the plan and what was diagnosed, makes no agent
-- queued, and takes none but the report from the queued ones without a trace of it.
pub record Change (plan plan' : SupervisorPlan) (handoffs handoffs' : ℕ) (unsure unsure' : Bool)
    (queued queued' past past' : List AgentName) : Type 0 where
  pub handed_on : handoffs' ≡ handoffs + 1
  pub kept_plan : plan' ≡ plan
  pub diagnosed : unsure ≡ false → unsure' ≡ false
  pub repairs : contains queued' repair ≡ true → contains queued repair ≡ true
  pub waits :
      contains queued' repair ≡ true
      → contains queued diagnosis ≡ true
      → (contains queued' diagnosis ≡ true) ⊎ (unsure' ≡ false)
  pub reports :
      contains queued report ≡ true
      → (contains queued' report ≡ true) ⊎ (contains past' report ≡ true)
  pub kept_report : contains past report ≡ true → contains past' report ≡ true

abbrev pub Moved : MultiAgentState → MultiAgentState → Type 0
Moved state next =
    Change state.task_plan next.task_plan state.handoff_count next.handoff_count
      (is_none state.diagnosis_result) (is_none next.diagnosis_result) state.pending_agents
      next.pending_agents state.completed_agents next.completed_agents

-- An agent that has finished.
pub agent-Change :
    (plan : SupervisorPlan) (handoffs : ℕ) (unsure unsure' : Bool) (agent : AgentName)
    (queued past past' : List AgentName)
    → (unsure ≡ false → unsure' ≡ false)
    → (contains queued repair ≡ true → agent ≡ diagnosis → unsure' ≡ false)
    → contains past' agent ≡ true
    → (contains past report ≡ true → contains past' report ≡ true)
    → Change plan plan handoffs
        (handoffs + 1)
        unsure
        unsure'
        queued
        (without agent queued)
        past
        past'
agent-Change plan handoffs unsure unsure' agent queued past past' kept found done keeps = record {
  handed_on = refl;
  kept_plan = refl;
  diagnosed = kept;
  repairs = λ h. still h;
  waits = λ h k. elim (without_or_pending agent queued diagnosis k) [
    | inl waiting ↦ inl waiting
    | inr same ↦ inr (found (still h) (sym same))
  ];
  reports = λ h. elim (without_or_pending agent queued report h) [
    | inl waiting ↦ inl waiting
    | inr same ↦ inr (rw same done)
  ];
  kept_report = keeps;
}
  where
    still : contains (without agent queued) repair ≡ true → contains queued repair ≡ true
    still h = ground (arith, contains-without agent queued repair)

pub keeps_report :
    (past : List AgentName) (agent : AgentName)
    → contains past report ≡ true
    → contains (past ++ agent ∷ []) report ≡ true
keeps_report past agent h = ground (arith, contains-append past (agent ∷ []) report)

completion_update-Moved :
    (state : MultiAgentState) (agent : AgentName)
    → (agent ≡ diagnosis → is_none state.diagnosis_result ≡ false)
    → Moved state (completion_update state agent)
unfolding completion_update
completion_update-Moved state agent found =
    agent-Change state.task_plan state.handoff_count _ _ agent state.pending_agents
      state.completed_agents _ (λ h. h) (λ h. found) (contains-add state.completed_agents agent)
      (keeps_report state.completed_agents agent)

-- A visit that is to be repeated.
again-Moved :
    (state : MultiAgentState)
    → Moved state (record state { current_agent = none; handoff_count = state.handoff_count + 1 })
again-Moved state = record {
  handed_on = refl;
  kept_plan = refl;
  diagnosed = λ h. h;
  repairs = λ h. h;
  waits = λ h k. inl k;
  reports = λ h. inl h;
  kept_report = λ h. h;
}

-- The nodes, where they return.
module _ (calls : Callbacks) (state : MultiAgentState) where
  run_topology_agent-Moved : Returns (Moved state) (run_topology_agent calls state)
  unfolding run_topology_agent completion_update
  run_topology_agent-Moved =
      search (returns_rules, completion_update-Moved state topology (λ e. cc e))

  run_log_agent-Moved : Returns (Moved state) (run_log_agent calls state)
  unfolding run_log_agent completion_update
  run_log_agent-Moved =
      search (returns_rules, completion_update-Moved state logs (λ e. cc e)) depth 12

  run_repair_agent-Moved : Returns (Moved state) (run_repair_agent calls state)
  unfolding run_repair_agent completion_update
  run_repair_agent-Moved =
      search (returns_rules, completion_update-Moved state repair (λ e. cc e)) depth 12

-- The steps of the diagnosis before it concludes leave all of this as it is.
abbrev Same : MultiAgentState → MultiAgentState → Type 0
Same state next =
    (next.task_plan ≡ state.task_plan)
    × (next.handoff_count ≡ state.handoff_count)
    × (next.diagnosis_result ≡ state.diagnosis_result)
    × (next.pending_agents ≡ state.pending_agents)
    × (next.completed_agents ≡ state.completed_agents)

Change-from :
    {p q p' : SupervisorPlan} {h k h' : ℕ} {u v u' : Bool} {w x w' c d c' : List AgentName}
    → p ≡ q
    → h ≡ k
    → u ≡ v
    → w ≡ x
    → c ≡ d
    → Change p p' h h' u u' w w' c c'
    → Change q p' k h' v u' x w' d c'
Change-from e0 e1 e2 e3 e4 m = rw (← e0, ← e1, ← e2, ← e3, ← e4) m

Same-Moved :
    (state middle next : MultiAgentState) → Same state middle → Moved middle next → Moved state next
Same-Moved state middle next (e0, e1, e2, e3, e4) m = Change-from e0 e1 (ap is_none e2) e3 e4 m

module _ (calls : Callbacks) (state : MultiAgentState) where
  with_metrics-Same : Returns (Same state) (with_metrics calls state)
  unfolding with_metrics
  with_metrics-Same = elim (Bool-cases (contains state.task_plan.sources monitoring_source)) [
    | inl wants ↦ rw wants (search (returns_rules) depth 8)
    | inr not_wanted ↦ rw not_wanted (search (returns_rules) depth 8)
  ]

  with_documents-Same : Returns (Same state) (with_documents calls state)
  unfolding with_documents
  with_documents-Same = elim (Bool-cases (contains state.task_plan.sources knowledge_source)) [
    | inl wants ↦ rw wants (search (returns_rules) depth 10)
    | inr not_wanted ↦ rw not_wanted (search (returns_rules) depth 8)
  ]

  concluded-Moved : Returns (Moved state) (concluded calls state)
  unfolding concluded completion_update
  concluded-Moved = Returns-after _ _ (λ a. Returns-ok (
      agent-Change state.task_plan state.handoff_count _ false diagnosis state.pending_agents
        state.completed_agents _ (λ h. refl) (λ h k. refl)
        (contains-add state.completed_agents diagnosis)
        (keeps_report state.completed_agents diagnosis)))

  asked_or_concluded-Moved :
      (before : MultiAgentState) (asks : Bool)
      → Returns (Moved state) (asked_or_concluded calls before state asks)
  unfolding asked_or_concluded
  asked_or_concluded-Moved before false = concluded-Moved
  asked_or_concluded-Moved before true = Returns-after _ _ (λ query. Returns-ok (again-Moved state))

  reported-Moved :
      (limit : ℕ) (text : String) (approved : Bool) (feedback : String)
      → Returns (Moved state) (reported limit state text approved feedback)
  unfolding reported completion_update
  reported-Moved limit text true feedback =
      Returns-ok (completion_update-Moved state report (λ e. cc e))
  reported-Moved limit text false feedback =
      elim (Bool-cases (leb limit (state.report_iteration + 1))) [
        | inl spent ↦
            rw spent (
              Returns-after _ _
                (λ _. Returns-ok (completion_update-Moved state report (λ e. cc e))))
        | inr left ↦ rw left (Returns-after _ _ (λ _. Returns-ok (again-Moved state)))
      ]

module _ (limit : ℕ) (calls : Callbacks) (state : MultiAgentState) where
  run_report_agent-Moved : Returns (Moved state) (run_report_agent limit calls state)
  unfolding run_report_agent
  run_report_agent-Moved = search (returns_rules, reported-Moved) depth 14

  run_diagnosis_agent-Moved : Returns (Moved state) (run_diagnosis_agent limit calls state)
  unfolding run_diagnosis_agent
  run_diagnosis_agent-Moved = Returns-bind _ _ (with_metrics-Same calls _) (λ measured same.
      Returns-bind _ _ (with_documents-Same calls measured) (λ found same'. record {
        at = λ next h. Same-Moved state measured next same (
            Same-Moved measured found next same' (
              (asked_or_concluded-Moved calls found state
                  (asks_again found (state.diagnosis_iteration + 1) limit)).at
                next h));
      }))

-- Each node of the graph, where it returns.
pub run_agent-Moved :
    (limits : Limits) (calls : Callbacks) (agent : AgentName) (state : MultiAgentState)
    → Returns (Moved state) (run_agent limits calls agent state)
unfolding run_agent
run_agent-Moved limits calls topology state = run_topology_agent-Moved calls state
run_agent-Moved limits calls logs state = run_log_agent-Moved calls state
run_agent-Moved limits calls diagnosis state =
    run_diagnosis_agent-Moved limits.max_quality_iterations calls state
run_agent-Moved limits calls repair state = run_repair_agent-Moved calls state
run_agent-Moved limits calls report state =
    run_report_agent-Moved limits.max_quality_iterations calls state
