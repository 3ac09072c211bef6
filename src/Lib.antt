-- ===== src/Lib.antt =====
-- A verification library of the network operations agent: who may act, what the policy says, how a
-- repair plan is judged, approved and executed, and how firmware is validated in a loop.
--
-- The parts, how they interact, and the files that model them (sources from the repository's root):
--
-- - Base: lists, texts, results of fallible code, insertion-ordered dictionaries and equality
--   tests, shared by all. Values: Python's dynamic values (dictionaries, lists, texts, numbers,
--   instants) with `get`, `in` and `==`, for the state of the workflow and for the claims of
--   tokens.
--
-- - Auth models src/network_agent_rag/auth/. Auth/Models and Auth/Rbac are models.py, users.py,
--   rbac.py and context.py: the table of roles and the permission checks. Auth/Token is token.py:
--   the claims of the three kinds of tokens and their verification. Auth/Identity is identity.py:
--   the in-memory store (create_session, rotate_refresh, set_session_status, the keys), and
--   Auth/Identity/Service the identity service on it. An operation of the service returns its
--   result and the state after it, since what was done before an exception stays done.
--   Auth/Requests is authentication.py: the providers that pick a credential from a request and ask
--   Identity.
--
-- - Policy models src/network_agent_rag/policy/. Models, Registry, Rules, Engine and Evaluator are
--   the files of the same names: contexts and conditions with their validation, the registry that
--   is built once, the default rules, the evaluation of a context (the strongest effect of the
--   rules that match), and the evaluation of the actions of a plan, which asks the registry for the
--   class of a tool and the engine for a decision, for the user that Auth describes.
--
-- - Enterprise models src/network_agent_rag/packs/networkops/agents/enterprise/. Approval is
--   approval.py: evaluate_risk judges a plan and validate_approval checks the answer of a person
--   against that judgement. Execution is execution.py: the gate on the approval, then the loop over
--   the actions, whose handlers are looked up in a list; the calls of handlers are a trace.
--   Workflow is the Execute node of workflow.py: it asks Auth for the permission and Policy for the
--   effect of the plan before it comes to the gate; Nodes/Executed is what that node leaves in the
--   state and in the log. Actions is the validation of proposed actions.
--   Nodes has the nodes RiskCheck and Approval of workflow.py and the edges after them, Nodes/Run
--   the run to Execute (to_execute) and to its end (run_plan). A run is interrupted before Approval
--   and resumed by other calls, so RiskCheck, Approval and Execute each have the contexts of their
--   call, and Execute has those of RiskCheck where no approval is asked for. The answer of the person
--   is an argument, and the events of the audit log are what a node returns beside the state.
--
-- - Embedded models src/network_agent_rag/packs/embeddedops/. Models is domain/models.py with
--   simulation/backend.py, Debug is agents/debug_agent.py, Simulator is simulation/in_process.py,
--   and Loop is agents/validation_loop.py: the table of transitions, the state machine with what
--   its observer saw, and the loop that compiles, simulates, debugs and retries. Mcu is
--   domain/mcu_catalog.py: the selection of a microcontroller.
--
-- - Agents models src/network_agent_rag/packs/networkops/agents/multi_agent/, and from
--   agents/diagnosis_workflow.py the validation of a plan. Agents/Plan is the plan of the
--   supervisor, State the state with the results of the agents, Specialists the five agents, and
--   Graph the supervisor (which agent is next), the visit of an agent with its handler of
--   exceptions, and the run, a loop of visits.
--
-- - Audit models src/network_agent_rag/audit/. Audit/Redaction is the redaction of store.py
--   (sensitive keys by their normal form, at any depth), Audit/Store the events with `record`,
--   `list_events` and `list_all_events` over a table of rows in the order of their sequence
--   numbers, with its two UNIQUE constraints.
--
-- - Tasks models src/network_agent_rag/domain/task/: tasks and their in-memory store.
--
-- - Governance models src/network_agent_rag/governance/ and observability/governance.py. Models is
--   the security events of models.py. Risk is risk.py: the score of an operation. Authorization is
--   observability/governance.py: the authorization decisions in the log of Audit. Events is
--   events.py: the security events that are projected from that log and from spans, their query,
--   and the sync that records them in the log again. Service is calculate_risk of service.py, which
--   counts denials (Authorization) and failed repairs (Events), scores the request (Risk) and
--   records the assessment (Audit), with the summary of a report from compliance.py.
--
-- - Capability models src/network_agent_rag/capability/registry.py: versions and handlers.
--   Capability/Resolver is resolver.py: the capabilities that fit the words of a goal. Packs models
--   src/network_agent_rag/packs/registry.py and packs/models.py: the gates of the registration of a
--   pack, which end with the registration of its capabilities in Capability.
--
-- Conventions. A number is a natural number of the native kind; an instant is in microseconds, in
-- UTC where the code converts to UTC; where the code reads the clock or makes a new id, the model
-- takes it as an argument. An exception is the error of a result, with a constructor for each kind
-- that is told apart. Locks and deep copies have no counterpart: values are immutable and each
-- operation is one step.
--
-- Parameters, for what is not in the repository: the digests (SHA-256 over JSON or text), the
-- signing and parsing of a JWT (with the round trip of what was encoded as its hypothesis), the
-- token that a text is, the handlers of actions, the simulator's backend, the diagnosis callback
-- and the artifact store of the loop, what the import of a factory's path finds, the callbacks of
-- the agents with the correlation of the evidence and the checks of a report, the spans of the
-- trace store, Python's text of a value that is no text, and its `lower` where the resolver
-- compares metadata. Each of those may raise where the code lets it.
--
-- Fuel. The validation loop runs on fuel, one unit for an attempt: `run` starts with one more than
-- the retry budget, and running out is an outcome of its own. The run of the agents has one unit
-- for a handoff: it starts with the limit on handoffs, which the supervisor counts. All other loops
-- are structural recursions.
--
-- Not modelled: the HTTP interfaces, the persistence behind SQLite, PostgreSQL and Redis,
-- retrieval, traces, metrics and evaluation, the workflows around language models, the digital
-- twin, and the consoles. They are input and output or glue around third-party libraries for the
-- most part; the rest of them this library leaves out.
pub mod Base
pub mod Values
pub mod Auth
pub mod Policy
pub mod Enterprise
pub mod Embedded
pub mod Governance
pub mod Capability
pub mod Packs
pub mod Agents
pub mod Audit
pub mod Tasks
