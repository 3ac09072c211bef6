-- ===== src/Embedded/Loop/Turns.antt =====
-- The turns of the loop are sound.
use networkops_ai_agent.Base.{
  ℕ, String, List, suc, contains, refl, Bool, if◌then◌else◌, none, true, false, ◌∷◌, ◌++◌, some,
  ◌≡◌, arith, ◌>>=◌, nat_eq, string_eq,
}
use networkops_ai_agent.Embedded.Loop.{
  Environment, Transition, after_failure, advance, assert_transition, transitions, report, simulate,
  Machine, simulation_log, not_compiled, one_attempt, compile_log,
}
use networkops_ai_agent.Embedded.Loop.Debugging.{
  route_failure-SoundTurn, passed_report, at_machine-SoundTurn, save_artifact-SoundTurn,
  debug_cycle-SoundTurn,
}
use networkops_ai_agent.Embedded.Loop.Transitions.{Going, SoundTurn, Going-step, entries}
use networkops_ai_agent.Embedded.Models.{
  HardwareDesign, SimulationTestCase, CompileResult, SimulationResult, FirmwareArtifact,
  simulation_running, simulation_failed, passed, compile_running, compile_failed, compile_error,
  ValidationState, state_eq, category_eq,
}

module _ (env : Environment) (max_fix : ℕ) (task_id : String) (design : HardwareDesign)
    (test_cases : List SimulationTestCase) where
  after_failure-SoundTurn :
      (attempt : ℕ) (compiled : CompileResult) (simulation : SimulationResult)
      (firmware : FirmwareArtifact) (observed : List Transition) (iterations : ℕ)
      (ids : List String)
      → Going simulation_running (suc iterations) iterations max_fix observed
      → SoundTurn iterations max_fix (
          after_failure env max_fix task_id design test_cases attempt
            (record { current = simulation_running; observed = observed })
            compiled
            simulation
            firmware
            iterations
            ids)
  unfolding after_failure advance assert_transition transitions contains
  after_failure-SoundTurn attempt compiled simulation firmware observed iterations ids g =
      route_failure-SoundTurn env max_fix task_id design test_cases attempt compiled simulation
        firmware _ iterations ids simulation.error_category
        (Going-step simulation_running simulation_failed (suc iterations) iterations max_fix
          observed refl refl refl g)

  -- A simulation that ran, by whether it passed.
  verdict-SoundTurn :
      (attempt : ℕ) (compiled : CompileResult) (simulation : SimulationResult)
      (firmware : FirmwareArtifact) (observed : List Transition) (iterations : ℕ)
      (ids : List String) (is_passed : Bool)
      → Going simulation_running (suc iterations) iterations max_fix observed
      → SoundTurn iterations max_fix (
          if is_passed
          then (do
            machine ← advance (record { current = simulation_running; observed = observed }) passed
            report env task_id machine iterations none none ids)
          else after_failure env max_fix task_id design test_cases attempt
              (record { current = simulation_running; observed = observed })
              compiled
              simulation
              firmware
              iterations
              ids)
  unfolding advance assert_transition transitions contains
  verdict-SoundTurn attempt compiled simulation firmware observed iterations ids true g =
      passed_report env max_fix task_id design test_cases observed iterations ids g
  verdict-SoundTurn attempt compiled simulation firmware observed iterations ids false g =
      after_failure-SoundTurn attempt compiled simulation firmware observed iterations ids g

  simulate-SoundTurn :
      (attempt : ℕ) (compiled : CompileResult) (firmware : FirmwareArtifact)
      (observed : List Transition) (iterations : ℕ) (ids : List String)
      → Going compile_running (suc iterations) iterations max_fix observed
      → SoundTurn iterations max_fix (
          simulate env max_fix task_id design test_cases attempt
            (record { current = compile_running; observed = observed })
            compiled
            firmware
            iterations
            ids)
  unfolding simulate advance assert_transition transitions contains
  simulate-SoundTurn attempt compiled firmware observed iterations ids g =
      let after =
        Going-step compile_running simulation_running (suc iterations) iterations max_fix observed
          refl refl refl g in
      let m : Machine = record {
        current = simulation_running;
        observed = (compile_running, simulation_running) ∷ observed;
      } in
      at_machine-SoundTurn m (env.create_virtual_device attempt design) _ iterations max_fix
        after.legal
        (λ device.
          at_machine-SoundTurn m (env.run_simulation attempt device firmware.source test_cases) _
            iterations max_fix after.legal
            (λ simulation.
              save_artifact-SoundTurn env.save m (simulation_log attempt simulation.serial_log) _
                iterations max_fix after.legal
                (λ log_ids.
                  verdict-SoundTurn attempt compiled simulation firmware _ iterations
                    (ids ++ log_ids) simulation.passed after)))

  not_compiled-SoundTurn :
      (attempt : ℕ) (compiled : CompileResult) (firmware : FirmwareArtifact)
      (observed : List Transition) (iterations : ℕ) (ids : List String)
      → Going compile_running (suc iterations) iterations max_fix observed
      → SoundTurn iterations max_fix (
          not_compiled env max_fix task_id design test_cases attempt
            (record { current = compile_running; observed = observed })
            compiled
            firmware
            iterations
            ids)
  unfolding not_compiled advance assert_transition transitions contains
  not_compiled-SoundTurn attempt compiled firmware observed iterations ids g =
      debug_cycle-SoundTurn env max_fix task_id design test_cases compile_failed attempt compiled
        none firmware _ iterations (some compile_error) ids refl refl
        (Going-step compile_running compile_failed (suc iterations) iterations max_fix observed refl
          refl refl g)

  compiled-SoundTurn :
      (attempt : ℕ) (compiled : CompileResult) (firmware : FirmwareArtifact)
      (observed : List Transition) (iterations : ℕ) (ids : List String) (success : Bool)
      → Going compile_running (suc iterations) iterations max_fix observed
      → SoundTurn iterations max_fix (
          if success
          then simulate env max_fix task_id design test_cases attempt
              (record { current = compile_running; observed = observed })
              compiled
              firmware
              iterations
              ids
          else not_compiled env max_fix task_id design test_cases attempt
              (record { current = compile_running; observed = observed })
              compiled
              firmware
              iterations
              ids)
  compiled-SoundTurn attempt compiled firmware observed iterations ids true g =
      simulate-SoundTurn attempt compiled firmware observed iterations ids g
  compiled-SoundTurn attempt compiled firmware observed iterations ids false g =
      not_compiled-SoundTurn attempt compiled firmware observed iterations ids g

  attempt-Going :
      (s : ValidationState) (observed : List Transition) (iterations : ℕ)
      → contains (transitions s) compile_running ≡ true
      → Going s iterations iterations max_fix observed
      → Going compile_running (suc iterations) iterations max_fix ((s, compile_running) ∷ observed)
  unfolding entries
  attempt-Going s observed iterations allowed g = record {
    legal = (refl, allowed, g.legal);
    retries = g.retries;
    compiles = ground (arith, g.compiles);
    bounded = g.bounded;
  }

  pub one_attempt-SoundTurn :
      (s : ValidationState) (attempt : ℕ) (firmware : FirmwareArtifact) (observed : List Transition)
      (iterations : ℕ) (ids : List String)
      → contains (transitions s) compile_running ≡ true
      → Going s iterations iterations max_fix observed
      → SoundTurn iterations max_fix (
          one_attempt env max_fix task_id design test_cases attempt
            (record { current = s; observed = observed })
            firmware
            iterations
            ids)
  unfolding one_attempt advance assert_transition
  one_attempt-SoundTurn s attempt firmware observed iterations ids allowed g =
      let after = attempt-Going s observed iterations allowed g in
      let m : Machine = record {
        current = compile_running;
        observed = (s, compile_running) ∷ observed;
      } in
      rw allowed (
        at_machine-SoundTurn m (env.compile_firmware attempt firmware.source firmware.framework) _
          iterations max_fix after.legal
          (λ compiled.
            save_artifact-SoundTurn env.save m (compile_log attempt compiled.log) _ iterations
              max_fix after.legal
              (λ log_ids.
                compiled-SoundTurn attempt compiled firmware _ iterations (ids ++ log_ids)
                  compiled.success after)))
