-- ===== src/Agents/Plan.antt =====
-- .../multi_agent/supervisor.py, with validate_diagnosis_plan of diagnosis_workflow.py: the plan of
-- a supervisor, which is a dynamic value, is checked and read.
pub mod Order
use networkops_ai_agent.Base.{
  ℕ, ◌≡◌, arith, Eq, eq_by_rank, List, ◌∷◌, [], Bool, true, not, is_none, ◌&&◌, false,
  if◌then◌else◌, Option, ◌==◌, some, none, Result, has_duplicates, all, or_raise, raise_if, ok,
  filter, contains, ◌>>=◌, ◌>>◌, nat_eq, string_eq,
}
use networkops_ai_agent.Enterprise.Approval.{as_text, as_dict, as_list, as_bool}
use networkops_ai_agent.Values.{Fields, Items, nil, cons, Value, list, str, get_field, has_field}

pub data AgentName : Type 0 where
  topology logs diagnosis repair report : AgentName

abbrev pub agent_rank : AgentName → ℕ
agent_rank topology = 0
agent_rank logs = 1
agent_rank diagnosis = 2
agent_rank repair = 3
agent_rank report = 4

pub agent_rank_injective : (a b : AgentName) → agent_rank a ≡ agent_rank b → a ≡ b
agent_rank_injective a b h = ground arith

instance abbrev pub agent_eq : Eq AgentName
agent_eq = eq_by_rank agent_rank agent_rank_injective

pub data EvidenceSource : Type 0 where
  topology_source monitoring_source logs_source knowledge_source : EvidenceSource

abbrev pub source_rank : EvidenceSource → ℕ
source_rank topology_source = 0
source_rank monitoring_source = 1
source_rank logs_source = 2
source_rank knowledge_source = 3

pub source_rank_injective : (a b : EvidenceSource) → source_rank a ≡ source_rank b → a ≡ b
source_rank_injective a b h = ground arith

instance abbrev pub source_eq : Eq EvidenceSource
source_eq = eq_by_rank source_rank source_rank_injective

-- `_AGENTS`, the order of the dependencies
abbrev pub all_agents : List AgentName
all_agents = topology ∷ logs ∷ diagnosis ∷ repair ∷ report ∷ []

pub data PlanError : Type 0 where
  diagnosis_plan_not_dict missing_fields bad_texts bad_text bad_sources double_sources : PlanError
  plan_not_dict no_analysis bad_agents unknown_agents double_agents : PlanError
  no_diagnosis report_not_last bad_requires_repair repair_mismatch bad_order : PlanError
  source_without_agent agent_without_source : PlanError

-- What a validated plan says.
pub record SupervisorPlan : Type 0 where
  pub analysis : Fields
  pub sources : List EvidenceSource
  pub required_agents : List AgentName
  pub requires_repair : Bool

unfoldable pub all_texts : Items → Bool
unfolding as_text
all_texts nil = true
all_texts (cons v items) = not (is_none (as_text v)) && all_texts items

abbrev is_nil : Items → Bool
is_nil nil = true
is_nil (cons v items) = false

abbrev pub beq_bool : Bool → Bool → Bool
beq_bool a b = if a then b else not b

-- A list of texts that are not blank, and not empty itself.
unfoldable pub some_texts : Value → Bool
unfolding all_texts
some_texts (list (cons v items)) = all_texts (cons v items)
some_texts _ = false

abbrev pub source_of : Value → Option EvidenceSource
source_of (str s) =
    if s == "topology"
    then some topology_source
    else if s == "monitoring"
    then some monitoring_source
    else if s == "logs"
    then some logs_source
    else if s == "knowledge"
    then some knowledge_source
    else none
source_of _ = none

abbrev pub agent_of : Value → Option AgentName
agent_of (str s) =
    if s == "topology"
    then some topology
    else if s == "logs"
    then some logs
    else if s == "diagnosis"
    then some diagnosis
    else if s == "repair"
    then some repair
    else if s == "report"
    then some report
    else none
agent_of _ = none

-- All the items of a list as members of an enumeration, or nothing.
unfoldable pub read_all {ℓ} : {A : Type ℓ} → (Value → Option A) → Items → Option (List A)
read_all member nil = some []
read_all member (cons v items) = elim (member v) [
  | none ↦ none
  | some x ↦ elim (read_all member items) [ none ↦ none | some xs ↦ some (x ∷ xs) ]
]

-- `validate_diagnosis_plan`, with the sources that were read.
unfoldable pub validate_diagnosis_plan : Value → Result PlanError (List EvidenceSource)
unfolding some_texts as_text read_all has_duplicates get_field has_field all
validate_diagnosis_plan value = do
  plan ← or_raise (as_dict value) diagnosis_plan_not_dict
  raise_if
      (not (
        all (has_field plan) (
          "devices" ∷ "interfaces" ∷ "symptom" ∷ "start_time" ∷ "end_time" ∷ "required_sources"
          ∷ [])))
      missing_fields
  raise_if (not (some_texts (get_field plan "devices"))) bad_texts
  raise_if (not (some_texts (get_field plan "interfaces"))) bad_texts
  raise_if (is_none (as_text (get_field plan "symptom"))) bad_text
  raise_if (is_none (as_text (get_field plan "start_time"))) bad_text
  raise_if (is_none (as_text (get_field plan "end_time"))) bad_text
  items ← or_raise (as_list (get_field plan "required_sources")) bad_sources
  sources ← or_raise (read_all source_of items) bad_sources
  raise_if (has_duplicates sources) double_sources
  ok sources

abbrev pub last_is : AgentName → List AgentName → Bool
last_is a [] = false
last_is a (x ∷ []) = x == a
last_is a (x ∷ y ∷ xs) = last_is a (y ∷ xs)

-- `==` on lists of agents
unfoldable pub agents_eq : List AgentName → List AgentName → Bool
agents_eq [] [] = true
agents_eq (x ∷ xs) (y ∷ ys) = x == y && agents_eq xs ys
agents_eq _ _ = false

-- `expected`
abbrev pub in_order : List AgentName → List AgentName
in_order agents = filter (contains agents) all_agents

-- A body of the last loop of `validate_supervisor_plan`.
abbrev pub check_evidence :
    List EvidenceSource → List AgentName → EvidenceSource → AgentName → Result PlanError (Unit {0})
check_evidence sources agents source agent = do
  raise_if (contains sources source && not (contains agents agent)) source_without_agent
  raise_if (contains agents agent && not (contains sources source)) agent_without_source

-- The checks on the agents of a plan.
unfoldable pub check_agents :
    List AgentName → Option Bool → List EvidenceSource → Result PlanError Bool
unfolding agents_eq has_duplicates contains filter
check_agents agents repairs sources = do
  raise_if (has_duplicates agents) double_agents
  raise_if (not (contains agents diagnosis)) no_diagnosis
  raise_if (not (last_is report agents)) report_not_last
  requires ← or_raise repairs bad_requires_repair
  raise_if (not (beq_bool requires (contains agents repair))) repair_mismatch
  raise_if (not (agents_eq agents (in_order agents))) bad_order
  check_evidence sources agents topology_source topology
  check_evidence sources agents logs_source logs
  ok requires

-- `validate_supervisor_plan`
unfoldable pub validate_supervisor_plan : Value → Result PlanError SupervisorPlan
unfolding validate_diagnosis_plan read_all check_agents get_field has_field
validate_supervisor_plan value = do
  plan ← or_raise (as_dict value) plan_not_dict
  raise_if (not (has_field plan "analysis")) no_analysis
  sources ← validate_diagnosis_plan (get_field plan "analysis")
  analysis ← or_raise (as_dict (get_field plan "analysis")) diagnosis_plan_not_dict
  items ← or_raise (as_list (get_field plan "required_agents")) bad_agents
  raise_if (is_nil items) bad_agents
  agents ← or_raise (read_all agent_of items) unknown_agents
  requires ← check_agents agents (as_bool (get_field plan "requires_repair")) sources
  ok (record {
    analysis = analysis;
    sources = sources;
    required_agents = agents;
    requires_repair = requires;
  })

-- `next_agent`: the first agent of the plan that is pending.
unfoldable pub first_pending : List AgentName → List AgentName → Option AgentName
unfolding contains
first_pending [] pending = none
first_pending (agent ∷ agents) pending =
    if contains pending agent then some agent else first_pending agents pending

abbrev pub next_agent : SupervisorPlan → List AgentName → Option AgentName
next_agent plan pending = first_pending plan.required_agents pending
