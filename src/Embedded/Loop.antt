-- ===== src/Embedded/Loop.antt =====
-- .../packs/embeddedops/agents/validation_loop.py: the loop that compiles, simulates, debugs and
-- retries. The backend, the callback and the store are parameters: their answers may depend on
-- the attempt, and each may raise. The loop runs on fuel, one unit for an attempt.
pub mod Transitions
pub mod Debugging
pub mod Turns
pub mod Sound
pub mod Pass
use networkops_ai_agent.Base.{
  List, ◌∷◌, [], String, Result, contains, raise_if, not, ok, ℕ, Option, err, none, some,
  if◌then◌else◌, ◌==◌, is_empty, leb, suc, ◌++◌, zero, ◌>>=◌, ◌>>◌, nat_eq, string_eq,
}
use networkops_ai_agent.Embedded.Debug.{Diagnose, context_from_state, run_debug_agent}
use networkops_ai_agent.Embedded.Models.{
  ValidationState, created, generated, compile_running, compile_failed, simulation_running,
  debugging, simulation_failed, passed, failed, retrying, VerificationReport, Framework,
  CompileResult, HardwareDesign, VirtualDevice, SimulationTestCase, SimulationResult,
  VerificationErrorCategory, Summary, passed_after, infrastructure_error, infrastructure,
  failed_because, FirmwareArtifact, compile_error, state_eq, category_eq,
}
use networkops_ai_agent.Embedded.Simulator.{compile_firmware, create_virtual_device, run_simulation}

-- `_TRANSITIONS`
unfoldable pub transitions : ValidationState → List ValidationState
transitions created = generated ∷ []
transitions generated = compile_running ∷ []
transitions compile_running = compile_failed ∷ simulation_running ∷ []
transitions compile_failed = debugging ∷ []
transitions simulation_running = simulation_failed ∷ passed ∷ []
transitions simulation_failed = debugging ∷ failed ∷ []
transitions debugging = retrying ∷ failed ∷ []
transitions retrying = compile_running ∷ []
transitions passed = []
transitions failed = []

abbrev pub Transition : Type 0
Transition = ValidationState × ValidationState

-- `ValidationStateMachine`, with the transitions that `on_transition` was told of, the last first.
pub record Machine : Type 0 where
  pub current : ValidationState
  pub observed : List Transition

-- What ends the loop without a report; `raised` is an exception of the outside code or of a
-- model's validation, and `out_of_fuel` is no behaviour of the program.
pub data LoopError : Type 0 where
  invalid_state_transition : ValidationState → ValidationState → LoopError
  raised : String → LoopError
  out_of_fuel : LoopError

-- A step returns, or raises with the machine as it then stands.
abbrev pub Step : Type 0 → Type 0
Step A = Result (LoopError × Machine) A

-- `assert_transition`
unfoldable pub assert_transition : Machine → ValidationState → Step (Unit {0})
unfolding transitions contains
assert_transition machine target =
    raise_if (not (contains (transitions machine.current) target))
      (invalid_state_transition machine.current target, machine)

-- `_advance`
unfoldable pub advance : Machine → ValidationState → Step Machine
unfolding assert_transition
advance machine target = do
  assert_transition machine target
  ok (record { current = target; observed = (machine.current, target) ∷ machine.observed })

-- What `_save` is given, by the type of the artifact; the logs by their attempt.
pub data Saved : Type 0 where
  compile_log simulation_log : ℕ → List String → Saved
  report_json : VerificationReport → Saved

pub record Environment : Type 0 where
  pub compile_firmware : ℕ → String → Framework → Result String CompileResult
  pub create_virtual_device : ℕ → HardwareDesign → Result String VirtualDevice
  pub run_simulation :
      ℕ → VirtualDevice → String → List SimulationTestCase → Result String SimulationResult
  pub diagnose : Option (ℕ → Diagnose)
  pub fresh : ℕ → String
  pub save : Option (Saved → Result String String)

-- An exception of outside code, raised while the machine stands as given.
abbrev pub at_machine {ℓ} :
    {A : Type ℓ} → Machine → Result String A → Result (LoopError × Machine) A
at_machine machine (ok a) = ok a
at_machine machine (err e) = err (raised e, machine)

-- `_save`: the list of the new artifact's id, or nothing without a store.
unfoldable pub save_artifact :
    Option (Saved → Result String String) → Machine → Saved → Step (List String)
save_artifact none machine saved = ok []
save_artifact (some save) machine saved = do
  artifact_id ← at_machine machine (save saved)
  ok (artifact_id ∷ [])

abbrev summary_of : Machine → ℕ → Option VerificationErrorCategory → Option String → Summary
summary_of machine iterations category root_cause =
    if machine.current == passed then passed_after iterations else elim category [
      | some infrastructure_error ↦ infrastructure
      | _ ↦ failed_because root_cause
    ]

unfoldable pub report_of :
    String
    → Machine
    → ℕ
    → Option VerificationErrorCategory
    → Option String
    → List String
    → VerificationReport
report_of task_id machine iterations category root_cause artifact_ids = record {
  task_id = task_id;
  final_state = machine.current;
  iterations = iterations;
  error_category = category;
  root_cause = root_cause;
  summary = summary_of machine iterations category root_cause;
  artifact_ids = artifact_ids;
}

-- What the body of the loop comes to: the report is returned, or the loop goes on with the patched
-- firmware, the count of iterations and the artifacts so far.
pub data Turn : Type 0 where
  reported : VerificationReport → Machine → Turn
  again : FirmwareArtifact → ℕ → List String → Machine → Turn

-- `_report`: an empty `task_id` is refused by the validation of the report.
unfoldable pub report :
    Environment
    → String
    → Machine
    → ℕ
    → Option VerificationErrorCategory
    → Option String
    → List String
    → Step Turn
unfolding report_of save_artifact
report env task_id machine iterations category root_cause artifact_ids = do
  let made = report_of task_id machine iterations category root_cause artifact_ids
  raise_if (is_empty task_id) (raised "ValidationError", machine)
  saved ← save_artifact env.save machine (report_json made)
  ok (reported made machine)

module _ (env : Environment) (max_fix_iterations : ℕ) (task_id : String) (design : HardwareDesign)
    (test_cases : List SimulationTestCase) where
  abbrev pub diagnose_at : ℕ → Option Diagnose
  diagnose_at attempt = elim env.diagnose [ none ↦ none | some diagnose ↦ some (diagnose attempt) ]

  unfoldable pub give_up :
      Machine → ℕ → Option VerificationErrorCategory → List String → String → Step Turn
  unfolding advance report
  give_up machine iterations category artifact_ids root_cause = do
    machine ← advance machine failed
    report env task_id machine iterations category (some root_cause) artifact_ids

  -- After the debug agent: a retry with the patch, or the end.
  unfoldable pub retry_or_fail :
      Machine
      → ℕ
      → Option VerificationErrorCategory
      → List String
      → String
      → Option FirmwareArtifact
      → Step Turn
  unfolding advance give_up
  retry_or_fail machine iterations category artifact_ids root_cause none =
      give_up machine iterations category artifact_ids root_cause
  retry_or_fail machine iterations category artifact_ids root_cause (some patch) =
      if leb max_fix_iterations iterations
      then give_up machine iterations category artifact_ids root_cause
      else (do
        machine ← advance machine retrying
        ok (again patch (suc iterations) artifact_ids machine))

  -- `_debug_cycle`, with what the loop does of its answer.
  unfoldable pub debug_cycle :
      ℕ
      → Machine
      → CompileResult
      → Option SimulationResult
      → FirmwareArtifact
      → ℕ
      → Option VerificationErrorCategory
      → List String
      → Step Turn
  unfolding advance context_from_state run_debug_agent retry_or_fail
  debug_cycle attempt machine compiled simulation firmware iterations category artifact_ids = do
    machine ← advance machine debugging
    debug ← at_machine machine (
        run_debug_agent (diagnose_at attempt) (env.fresh attempt)
          (context_from_state design compiled simulation firmware))
    retry_or_fail machine iterations category artifact_ids debug.root_cause debug.patched_firmware

  -- A simulation that did not pass, by its category: the environment's failure ends the loop.
  unfoldable pub route_failure :
      ℕ
      → Machine
      → CompileResult
      → SimulationResult
      → FirmwareArtifact
      → ℕ
      → List String
      → Option VerificationErrorCategory
      → Step Turn
  unfolding advance report debug_cycle
  route_failure attempt machine compiled simulation firmware iterations artifact_ids
        (some infrastructure_error) =
      do
        machine ← advance machine failed
        report env task_id machine iterations (some infrastructure_error) simulation.failure_reason
            artifact_ids
  route_failure attempt machine compiled simulation firmware iterations artifact_ids category =
      debug_cycle attempt machine compiled (some simulation) firmware iterations category
        artifact_ids

  unfoldable pub after_failure :
      ℕ
      → Machine
      → CompileResult
      → SimulationResult
      → FirmwareArtifact
      → ℕ
      → List String
      → Step Turn
  unfolding advance route_failure
  after_failure attempt machine compiled simulation firmware iterations artifact_ids = do
    machine ← advance machine simulation_failed
    route_failure attempt machine compiled simulation firmware iterations artifact_ids
        simulation.error_category

  unfoldable pub simulate :
      ℕ → Machine → CompileResult → FirmwareArtifact → ℕ → List String → Step Turn
  unfolding advance save_artifact report after_failure
  simulate attempt machine compiled firmware iterations artifact_ids = do
    machine ← advance machine simulation_running
    device ← at_machine machine (env.create_virtual_device attempt design)
    simulation ← at_machine machine (env.run_simulation attempt device firmware.source test_cases)
    log_ids ← save_artifact env.save machine (simulation_log attempt simulation.serial_log)
    (if simulation.passed
        then (do
          machine ← advance machine passed
          report env task_id machine iterations none none (artifact_ids ++ log_ids))
        else after_failure attempt machine compiled simulation firmware iterations
            (artifact_ids ++ log_ids))

  -- A compilation that failed.
  unfoldable pub not_compiled :
      ℕ → Machine → CompileResult → FirmwareArtifact → ℕ → List String → Step Turn
  unfolding advance debug_cycle
  not_compiled attempt machine compiled firmware iterations artifact_ids = do
    machine ← advance machine compile_failed
    debug_cycle attempt machine compiled none firmware iterations (some compile_error) artifact_ids

  -- The body of the loop.
  unfoldable pub one_attempt : ℕ → Machine → FirmwareArtifact → ℕ → List String → Step Turn
  unfolding advance save_artifact not_compiled simulate
  one_attempt attempt machine firmware iterations artifact_ids = do
    machine ← advance machine compile_running
    compiled ← at_machine machine (env.compile_firmware attempt firmware.source firmware.framework)
    log_ids ← save_artifact env.save machine (compile_log attempt compiled.log)
    (if compiled.success
        then simulate attempt machine compiled firmware iterations (artifact_ids ++ log_ids)
        else not_compiled attempt machine compiled firmware iterations (artifact_ids ++ log_ids))

  -- The `while True`, with its attempts counted.
  unfoldable pub loop :
      ℕ → ℕ → Machine → FirmwareArtifact → ℕ → List String → Step (VerificationReport × Machine)
  unfolding one_attempt
  loop zero attempt machine firmware iterations artifact_ids = err (out_of_fuel, machine)
  loop (suc fuel) attempt machine firmware iterations artifact_ids = do
    turn ← one_attempt (suc attempt) machine firmware iterations artifact_ids
    elim turn [
      | reported made machine ↦ ok (made, machine)
      | again patch iterations artifact_ids machine ↦
          loop fuel (suc attempt) machine patch iterations artifact_ids
    ]

  -- `ValidationLoop.run`
  unfoldable pub run : FirmwareArtifact → Step (VerificationReport × Machine)
  unfolding loop
  run firmware =
      loop (suc max_fix_iterations) 0 (record { current = generated; observed = [] }) firmware 0 []
