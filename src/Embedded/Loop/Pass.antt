-- ===== src/Embedded/Loop/Pass.antt =====
-- `run_verification_pass` of validation_loop.py: one compilation and simulation of a candidate.
use networkops_ai_agent.Base.{
  Option, none, [], some, ℕ, List, if◌then◌else◌, ok, Bool, true, false, ◌≡◌, String, err, ◌⊎◌,
  is_none, not, Result, ◌>>=◌, refl, contains, ◌∷◌, inr, inl, nat_eq, string_eq,
}
use networkops_ai_agent.Embedded.Loop.{
  Machine, Environment, Step, advance, at_machine, raised, invalid_state_transition, out_of_fuel,
  Transition, assert_transition, transitions,
}
use networkops_ai_agent.Embedded.Loop.Transitions.{Legal}
use networkops_ai_agent.Embedded.Models.{
  CompileResult, SimulationResult, ValidationState, generated, HardwareDesign, FirmwareArtifact,
  SimulationTestCase, simulation_running, passed, simulation_failed, compile_failed,
  compile_running, VirtualDevice, state_eq, category_eq,
}

pub record VerificationPass : Type 0 where
  pub compile_result : CompileResult
  pub simulation : Option SimulationResult
  pub state : ValidationState

-- The machine that is given, or a new one in GENERATED.
abbrev machine_or_new : Option Machine → Machine
machine_or_new none = record { current = generated; observed = [] }
machine_or_new (some machine) = machine

abbrev pass_of : CompileResult → Option SimulationResult → Machine → VerificationPass × Machine
pass_of compiled simulation machine = (
  record { compile_result = compiled; simulation = simulation; state = machine.current },
  machine,
)

module _ (env : Environment) (attempt : ℕ) (design : HardwareDesign) (firmware : FirmwareArtifact)
    (test_cases : List SimulationTestCase) where
  unfoldable pub simulate_pass : CompileResult → Machine → Step (VerificationPass × Machine)
  unfolding advance
  simulate_pass compiled machine = do
    machine ← advance machine simulation_running
    device ← at_machine machine (env.create_virtual_device attempt design)
    simulation ← at_machine machine (env.run_simulation attempt device firmware.source test_cases)
    machine ← advance machine (if simulation.passed then passed else simulation_failed)
    ok (pass_of compiled (some simulation) machine)

  unfoldable pub after_compile : CompileResult → Machine → Bool → Step (VerificationPass × Machine)
  unfolding advance simulate_pass
  after_compile compiled machine true = simulate_pass compiled machine
  after_compile compiled machine false = do
    machine ← advance machine compile_failed
    ok (pass_of compiled none machine)

  unfoldable pub run_verification_pass : Option Machine → Step (VerificationPass × Machine)
  unfolding advance after_compile
  run_verification_pass given = do
    machine ← advance (machine_or_new given) compile_running
    compiled ← at_machine machine (env.compile_firmware attempt firmware.source firmware.framework)
    after_compile compiled machine compiled.success

-- The state that a pass ends in, by what the backend answered.
abbrev pub verdict_state : CompileResult → Option SimulationResult → ValidationState
verdict_state compiled none = compile_failed
verdict_state compiled (some simulation) = if simulation.passed then passed else simulation_failed

module _ (env : Environment) (attempt : ℕ) (design : HardwareDesign) (firmware : FirmwareArtifact)
    (test_cases : List SimulationTestCase) where
  -- What the backend answers to the two calls for a simulation, where there is one.
  abbrev pub Simulated : Option SimulationResult → Type 0
  Simulated none = Unit
  Simulated (some simulation) =
      (device : VirtualDevice) × (env.create_virtual_device attempt design ≡ ok device)
      × (env.run_simulation attempt device firmware.source test_cases ≡ ok simulation)

  -- The call of the backend that raises.
  abbrev pub Raised : String → Type 0
  Raised e =
      (env.compile_firmware attempt firmware.source firmware.framework ≡ err e)
      ⊎ ((env.create_virtual_device attempt design ≡ err e)
          ⊎ ((device : VirtualDevice) × (env.create_virtual_device attempt design ≡ ok device)
              × (env.run_simulation attempt device firmware.source test_cases ≡ err e)))

  -- What a pass from a state comes to: the results are the answers of the backend, the state is
  -- their verdict, reached by legal transitions, with a simulation exactly for a candidate that
  -- compiles; or one of the backend's calls raises.
  abbrev pub SoundPass : ValidationState → Step (VerificationPass × Machine) → Type 0
  SoundPass first (ok (p, m)) =
      (env.compile_firmware attempt firmware.source firmware.framework ≡ ok p.compile_result)
      × Simulated p.simulation
      × (p.state ≡ m.current)
      × (m.current ≡ verdict_state p.compile_result p.simulation)
      × (is_none p.simulation ≡ not p.compile_result.success)
      × Legal first m.observed m.current
  SoundPass first (err (raised e, m)) = Raised e × Legal first m.observed m.current
  SoundPass first (err (invalid_state_transition a b, m)) = ⊥
  SoundPass first (err (out_of_fuel, m)) = ⊥

module _ (env : Environment) (attempt : ℕ) (design : HardwareDesign) (firmware : FirmwareArtifact)
    (test_cases : List SimulationTestCase) (first : ValidationState) where
  abbrev Sound : Step (VerificationPass × Machine) → Type 0
  Sound = SoundPass env attempt design firmware test_cases first

  abbrev Answers : CompileResult → Type 0
  Answers compiled = env.compile_firmware attempt firmware.source firmware.framework ≡ ok compiled

  at_machine-SoundPass :
      {A : Type 0} (m : Machine) (answer : Result String A)
      (next : A → Step (VerificationPass × Machine))
      → Legal first m.observed m.current
      → ((e : String) → answer ≡ err e → Raised env attempt design firmware test_cases e)
      → ((a : A) → answer ≡ ok a → Sound (next a))
      → Sound (at_machine m answer >>= next)
  at_machine-SoundPass m (ok a) next legal failed sound = sound a refl
  at_machine-SoundPass m (err e) next legal failed sound = (failed e refl, legal)

  verdict-SoundPass :
      (compiled : CompileResult) (simulation : SimulationResult) (observed : List Transition)
      (is_passed : Bool)
      → Answers compiled
      → Simulated env attempt design firmware test_cases (some simulation)
      → simulation.passed ≡ is_passed
      → compiled.success ≡ true
      → Legal first observed simulation_running
      → Sound (do
        machine ←
            advance
              (record { current = simulation_running; observed = observed })
              (if is_passed then passed else simulation_failed)
        ok (pass_of compiled (some simulation) machine))
  unfolding advance assert_transition transitions contains
  verdict-SoundPass compiled simulation observed true answers simulated e success legal =
      (answers, simulated, refl, rw e refl, rw success refl, (refl, refl, legal))
  verdict-SoundPass compiled simulation observed false answers simulated e success legal =
      (answers, simulated, refl, rw e refl, rw success refl, (refl, refl, legal))

  after_compile-SoundPass :
      (compiled : CompileResult) (observed : List Transition) (success : Bool)
      → Answers compiled
      → compiled.success ≡ success
      → Legal first observed compile_running
      → Sound (
          after_compile env attempt design firmware test_cases compiled
            (record { current = compile_running; observed = observed })
            success)
  unfolding after_compile simulate_pass advance assert_transition transitions contains
  after_compile-SoundPass compiled observed true answers e legal =
      let m : Machine = record {
        current = simulation_running;
        observed = (compile_running, simulation_running) ∷ observed;
      } in
      at_machine-SoundPass m (env.create_virtual_device attempt design) _ (refl, refl, legal)
        (λ e failed. inr (inl failed))
        (λ device created.
          at_machine-SoundPass m (env.run_simulation attempt device firmware.source test_cases) _
            (refl, refl, legal) (λ e failed. inr (inr (device, created, failed)))
            (λ simulation simulated.
              verdict-SoundPass compiled simulation m.observed simulation.passed answers
                (device, created, simulated) refl e (refl, refl, legal)))
  after_compile-SoundPass compiled observed false answers e legal =
      (answers, tt, refl, refl, rw e refl, (refl, refl, legal))

  -- A pass that starts in a state from which a compilation may run returns the results that the
  -- backend answered to its calls, and ends in the state of their verdict by legal transitions;
  -- or it passes on an exception that one of these calls raised.
  pub run_verification_pass-SoundPass :
      (observed : List Transition) (s : ValidationState)
      → contains (transitions s) compile_running ≡ true
      → Legal first observed s
      → SoundPass env attempt design firmware test_cases first (
          run_verification_pass env attempt design firmware test_cases
            (some (record { current = s; observed = observed })))
  unfolding run_verification_pass advance assert_transition
  run_verification_pass-SoundPass observed s allowed legal =
      let m : Machine = record {
        current = compile_running;
        observed = (s, compile_running) ∷ observed;
      } in
      rw allowed (
        at_machine-SoundPass m (env.compile_firmware attempt firmware.source firmware.framework) _
          (refl, allowed, legal) (λ e failed. inl failed)
          (λ compiled answers.
            after_compile-SoundPass compiled m.observed compiled.success answers refl
              (refl, allowed, legal)))
